-- ===== src/Register.antt =====
-- core_sim/src/register.rs: register numbers and their types. The build is the release one,
-- where the conversion from a number makes no check.
pub mod Names
use cpuex2022_7_simulator.Common.{ℕ, Bool, ◌==◌, ◌^◌, if◌then◌else◌, u8}
use cpuex2022_7_simulator.Ty.{Ty, i32, usize}

abbrev pub RegId : Type 0
RegId = ℕ

abbrev pub FRegId : Type 0
FRegId = ℕ

abbrev pub reg_bit_width : ℕ
reg_bit_width = 5

abbrev pub max_reg_id : ℕ
max_reg_id = 2 ^ reg_bit_width

unfoldable pub reg_ty : RegId → Ty
reg_ty id = if id == 1 then usize else i32

unfoldable pub is_zero : RegId → Bool
is_zero id = id == 0

abbrev pub reg_id : ℕ → RegId
reg_id rs = u8 rs

abbrev pub freg_id : ℕ → FRegId
freg_id rs = u8 rs
