-- ===== src/Instr.antt =====
-- core_sim/src/instr.rs: the instructions of the first instruction set (the feature `isa_2nd` is
-- off, as it is by default). Immediates are sign-extended `u32`s.
pub mod Id
pub mod Print
use cpuex2022_7_simulator.Common.{ℕ}
use cpuex2022_7_simulator.Register.{RegId, FRegId}

pub data RInstr : Type 0 where
  add sub xor or and sll sra slt : RInstr

pub data IInstr : Type 0 where
  addi xori ori andi slli slti lw jalr : IInstr

pub data SInstr : Type 0 where
  sw : SInstr

pub data BInstr : Type 0 where
  beq bne blt bge : BInstr

-- no values in the first instruction set
pub data PInstr : Type 0 where

pub data JInstr : Type 0 where
  jal : JInstr

pub data IoInstr (IR IW FW : Type 0) : Type 0 where
  outb : IR → IoInstr IR IW FW
  inw : IW → IoInstr IR IW FW
  finw : FW → IoInstr IR IW FW

pub data EInstr : Type 0 where
  fadd fsub fmul fdiv fsgnj fsgnjn fsgnjx : EInstr

-- no values in the first instruction set
pub data GInstr : Type 0 where

pub data HInstr : Type 0 where
  fsqrt fhalf ffloor : HInstr

pub data KInstr : Type 0 where
  flt : KInstr

pub data XInstr : Type 0 where
  fitof : XInstr

pub data YInstr : Type 0 where
  fiszero fispos fisneg fftoi : YInstr

pub data WInstr : Type 0 where
  fblt fbge : WInstr

pub data VInstr : Type 0 where
  fbeqz fbnez : VInstr

-- Fields stand in the source's order: instr, rd, rs1, rs2, rs3, imm. `flw` is rd, rs1, imm and
-- `fsw` is rs2, rs1, imm.
pub data FInstr (IR IW FR FW : Type 0) : Type 0 where
  e_fmt : EInstr → FW → FR → FR → FInstr IR IW FR FW
  g_fmt : GInstr → FW → FR → FR → FR → FInstr IR IW FR FW
  h_fmt : HInstr → FW → FR → FInstr IR IW FR FW
  k_fmt : KInstr → IW → FR → FR → FInstr IR IW FR FW
  x_fmt : XInstr → FW → IR → FInstr IR IW FR FW
  y_fmt : YInstr → IW → FR → FInstr IR IW FR FW
  w_fmt : WInstr → FR → FR → ℕ → FInstr IR IW FR FW
  v_fmt : VInstr → FR → ℕ → FInstr IR IW FR FW
  flw : FW → IR → ℕ → FInstr IR IW FR FW
  fsw : FR → IR → ℕ → FInstr IR IW FR FW

pub data MiscInstr : Type 0 where
  end_instr : MiscInstr

pub data Instr (IR IW FR FW : Type 0) : Type 0 where
  r_fmt : RInstr → IW → IR → IR → Instr IR IW FR FW
  i_fmt : IInstr → IW → IR → ℕ → Instr IR IW FR FW
  s_fmt : SInstr → IR → IR → ℕ → Instr IR IW FR FW
  b_fmt : BInstr → IR → IR → ℕ → Instr IR IW FR FW
  p_fmt : PInstr → IR → ℕ → ℕ → Instr IR IW FR FW
  j_fmt : JInstr → IW → ℕ → Instr IR IW FR FW
  io_fmt : IoInstr IR IW FW → Instr IR IW FR FW
  f_fmt : FInstr IR IW FR FW → Instr IR IW FR FW
  misc_fmt : MiscInstr → Instr IR IW FR FW

abbrev pub DecodedInstr : Type 0
DecodedInstr = Instr RegId RegId FRegId FRegId
