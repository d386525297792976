-- ===== src/Isa2nd.antt =====
-- core_sim/src/instr.rs with the feature `isa_2nd`: the instructions of the second instruction set,
-- where they differ from those of the first one (Instr). The fields stand in the source's order.
pub mod Imm
pub mod Formats
pub mod FloatFormats
pub mod Decode
pub mod Encode
pub mod Fields
pub mod Immediates
pub mod Tables
pub mod RoundTrip
use cpuex2022_7_simulator.Common.{ℕ}
use cpuex2022_7_simulator.Register.{RegId, FRegId}
use cpuex2022_7_simulator.Instr.{
  SInstr, JInstr, IoInstr, EInstr, KInstr, XInstr, YInstr, WInstr, VInstr, MiscInstr,
}

pub data RInstr : Type 0 where
  add xor min max : RInstr

pub data IInstr : Type 0 where
  addi xori slli lw jalr : IInstr

pub data BInstr : Type 0 where
  beq bne blt bge bxor bxnor : BInstr

pub data PInstr : Type 0 where
  beqi bnei blti bgei bgti blei : PInstr

pub data GInstr : Type 0 where
  fmadd fmsub fnmadd fnmsub : GInstr

pub data HInstr : Type 0 where
  fsqrt fhalf ffloor ffrac finv : HInstr

pub data FInstr (IR IW FR FW : Type 0) : Type 0 where
  e_fmt : EInstr → FW → FR → FR → FInstr IR IW FR FW
  g_fmt : GInstr → FW → FR → FR → FR → FInstr IR IW FR FW
  h_fmt : HInstr → FW → FR → FInstr IR IW FR FW
  k_fmt : KInstr → IW → FR → FR → FInstr IR IW FR FW
  x_fmt : XInstr → FW → IR → FInstr IR IW FR FW
  y_fmt : YInstr → IW → FR → FInstr IR IW FR FW
  w_fmt : WInstr → FR → FR → ℕ → FInstr IR IW FR FW
  v_fmt : VInstr → FR → ℕ → FInstr IR IW FR FW
  flw : FW → IR → ℕ → FInstr IR IW FR FW
  fsw : FR → IR → ℕ → FInstr IR IW FR FW

pub data Instr (IR IW FR FW : Type 0) : Type 0 where
  r_fmt : RInstr → IW → IR → IR → Instr IR IW FR FW
  i_fmt : IInstr → IW → IR → ℕ → Instr IR IW FR FW
  s_fmt : SInstr → IR → IR → ℕ → Instr IR IW FR FW
  b_fmt : BInstr → IR → IR → ℕ → Instr IR IW FR FW
  p_fmt : PInstr → IR → ℕ → ℕ → Instr IR IW FR FW
  j_fmt : JInstr → IW → ℕ → Instr IR IW FR FW
  io_fmt : IoInstr IR IW FW → Instr IR IW FR FW
  f_fmt : FInstr IR IW FR FW → Instr IR IW FR FW
  misc_fmt : MiscInstr → Instr IR IW FR FW

abbrev pub DecodedInstr : Type 0
DecodedInstr = Instr RegId RegId FRegId FRegId
