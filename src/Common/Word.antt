-- ===== src/Common/Word.antt =====
-- The `u32` arithmetic of the source. The build is the release one: shifts take the shift
-- amount modulo 32 and additions wrap.
use Prim.Native.Nat.{ℕ, ◌+◌, ◌-◌, ◌*◌, ◌/◌, ◌%◌, ◌^◌}
use mathlib.Core.Bool.{Bool, true, false}
use cpuex2022_7_simulator.Common.Tests.{ltb, leb}

abbrev pub u8 : ℕ → ℕ
u8 n = n % 2 ^ 8

abbrev pub u32 : ℕ → ℕ
u32 n = n % 2 ^ 32

abbrev pub wrapping_add : ℕ → ℕ → ℕ
wrapping_add a b = (a + b) % 2 ^ 32

abbrev pub wrapping_sub : ℕ → ℕ → ℕ
wrapping_sub a b = (a + 2 ^ 32 - b) % 2 ^ 32

abbrev pub shl : ℕ → ℕ → ℕ
shl a k = a * 2 ^ (k % 32) % 2 ^ 32

abbrev pub shr : ℕ → ℕ → ℕ
shr a k = a / 2 ^ (k % 32)

-- `as i32`, moved up by 2^31: the order of signed numbers is the order of these.
abbrev pub biased : ℕ → ℕ
biased a = (a + 2 ^ 31) % 2 ^ 32

abbrev pub ltb_i32 : ℕ → ℕ → Bool
ltb_i32 a b = ltb (biased a) (biased b)

abbrev pub leb_i32 : ℕ → ℕ → Bool
leb_i32 a b = leb (biased a) (biased b)

-- `u32::from` of a `bool`
abbrev pub u32_of_bool : Bool → ℕ
u32_of_bool true = 1
u32_of_bool false = 0
