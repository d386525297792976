-- ===== src/Isa2nd/Tables.antt =====
-- The choices of core_sim/src/decode_instr_2nd.rs find each instruction at its codes.
use cpuex2022_7_simulator.Common.{◌<◌, ◌≡◌, arith, refl, some, none}
use cpuex2022_7_simulator.Instr.{EInstr, fadd, fsub, fmul, fdiv, fsgnj, fsgnjn, fsgnjx}
use cpuex2022_7_simulator.Isa2nd.{
  RInstr, add, xor, min, max, BInstr, beq, bne, blt, bge, bxor, bxnor, PInstr, beqi, bnei, blti,
  bgei, bgti, blei, HInstr, fsqrt, fhalf, ffloor, ffrac, finv,
}
use cpuex2022_7_simulator.Isa2nd.Formats.{r_instr, b_instr, p_instr}
use cpuex2022_7_simulator.Isa2nd.FloatFormats.{e_instr, h_instr}
use cpuex2022_7_simulator.Isa2nd.Encode.{r_funct3, b_funct3, p_funct3, e_funct5, h_funct5}

pub r_table : (i : RInstr) → (r_instr (r_funct3 i) ≡ some i) × (r_funct3 i < 8)
unfolding r_instr
r_table add = (refl, omega arith)
r_table xor = (refl, omega arith)
r_table min = (refl, omega arith)
r_table max = (refl, omega arith)

pub b_table : (i : BInstr) → (b_instr (b_funct3 i) ≡ some i) × (b_funct3 i < 8)
unfolding b_instr
b_table beq = (refl, omega arith)
b_table bne = (refl, omega arith)
b_table blt = (refl, omega arith)
b_table bge = (refl, omega arith)
b_table bxor = (refl, omega arith)
b_table bxnor = (refl, omega arith)

pub p_table : (i : PInstr) → (p_instr (p_funct3 i) ≡ some i) × (p_funct3 i < 8)
unfolding p_instr
p_table beqi = (refl, omega arith)
p_table bnei = (refl, omega arith)
p_table blti = (refl, omega arith)
p_table bgei = (refl, omega arith)
p_table bgti = (refl, omega arith)
p_table blei = (refl, omega arith)

pub e_table : (i : EInstr) → (e_instr (e_funct5 i) ≡ some i) × (e_funct5 i < 32)
unfolding e_instr
e_table fadd = (refl, omega arith)
e_table fsub = (refl, omega arith)
e_table fmul = (refl, omega arith)
e_table fdiv = (refl, omega arith)
e_table fsgnj = (refl, omega arith)
e_table fsgnjn = (refl, omega arith)
e_table fsgnjx = (refl, omega arith)

-- None of these is the code of an `EInstr`.
pub h_table :
    (i : HInstr)
    → (e_instr (h_funct5 i) ≡ none) × (h_instr (h_funct5 i) ≡ some i) × (h_funct5 i < 32)
unfolding e_instr h_instr
h_table fsqrt = (refl, refl, omega arith)
h_table fhalf = (refl, refl, omega arith)
h_table ffloor = (refl, refl, omega arith)
h_table ffrac = (refl, refl, omega arith)
h_table finv = (refl, refl, omega arith)
