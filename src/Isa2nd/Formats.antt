-- ===== src/Isa2nd/Formats.antt =====
-- The arms of the integer opcodes in core_sim/src/decode_instr_2nd.rs, as far as they choose further.
-- The build is the release one, so the conversion of a register number cannot fail.
use cpuex2022_7_simulator.Common.{ℕ, Option, none, some, ◌==◌, if◌then◌else◌, Result, ok, err}
use cpuex2022_7_simulator.Bin.{bit_at, sign_extend}
use cpuex2022_7_simulator.Instr.{inw, outb, finw}
use cpuex2022_7_simulator.Isa2nd.{
  RInstr, add, xor, min, max, IInstr, addi, xori, slli, jalr, BInstr, beq, bne, blt, bge, bxor,
  bxnor, PInstr, beqi, bnei, blti, bgei, bgti, blei, r_fmt, i_fmt, b_fmt, p_fmt, io_fmt,
  DecodedInstr,
}
use cpuex2022_7_simulator.Isa2nd.Imm.{compose_3, compose_4}
use cpuex2022_7_simulator.Register.{reg_id, freg_id}

pub data DecodeError : Type 0 where
  invalid : ℕ → DecodeError

-- the locals of `decode_from`
pub record Fields : Type 0 where
  pub bin : ℕ
  pub rd : ℕ
  pub funct3 : ℕ
  pub rs1 : ℕ
  pub rs2 : ℕ
  pub funct7 : ℕ
  pub imm_11_6 : ℕ
  pub sign : ℕ

abbrev pub Decoded : Type 0
Decoded = Result DecodeError DecodedInstr

-- the arm of an instruction that was chosen, and `_ => Err(DecodeError::Invalid(bin))?`
abbrev pub or_invalid : {A : Type 0} → ℕ → (A → DecodedInstr) → Option A → Decoded
or_invalid bin build (some instr) = ok (build instr)
or_invalid bin build none = err (invalid bin)

unfoldable pub r_instr : ℕ → Option RInstr
r_instr funct3 =
    if funct3 == 0x0
    then some add
    else if funct3 == 0x4
    then some xor
    else if funct3 == 0x1
    then some min
    else if funct3 == 0x3
    then some max
    else none

unfoldable pub decode_r : Fields → Decoded
unfolding r_instr
decode_r w =
    or_invalid w.bin (λ instr. r_fmt instr (reg_id w.rd) (reg_id w.rs1) (reg_id w.rs2))
      (r_instr w.funct3)

unfoldable pub i_instr : ℕ → Option IInstr
i_instr funct3 =
    if funct3 == 0x0
    then some addi
    else if funct3 == 0x4
    then some xori
    else if funct3 == 0x2
    then some slli
    else none

unfoldable pub decode_i : Fields → Decoded
unfolding i_instr
decode_i w =
    or_invalid w.bin
      (λ instr. i_fmt instr (reg_id w.rd) (reg_id w.rs1) (compose_3 w.sign w.imm_11_6 w.rs2))
      (i_instr w.funct3)

unfoldable pub decode_jalr : Fields → Decoded
decode_jalr w =
    if w.funct3 == 0x0
    then ok (i_fmt jalr (reg_id w.rd) (reg_id w.rs1) (compose_3 w.sign w.imm_11_6 w.rs2))
    else err (invalid w.bin)

unfoldable pub b_instr : ℕ → Option BInstr
b_instr funct3 =
    if funct3 == 0x0
    then some beq
    else if funct3 == 0x1
    then some bne
    else if funct3 == 0x4
    then some blt
    else if funct3 == 0x5
    then some bge
    else if funct3 == 0x2
    then some bxor
    else if funct3 == 0x3
    then some bxnor
    else none

unfoldable pub decode_b : Fields → Decoded
unfolding b_instr
decode_b w =
    or_invalid w.bin
      (λ instr. b_fmt instr (reg_id w.rs1) (reg_id w.rs2) (compose_4 w.sign w.imm_11_6 w.rd))
      (b_instr w.funct3)

unfoldable pub p_instr : ℕ → Option PInstr
p_instr funct3 =
    if funct3 == 0x0
    then some beqi
    else if funct3 == 0x1
    then some bnei
    else if funct3 == 0x4
    then some blti
    else if funct3 == 0x5
    then some bgei
    else if funct3 == 0x6
    then some bgti
    else if funct3 == 0x7
    then some blei
    else none

unfoldable pub p_imm2 : ℕ → ℕ
p_imm2 rs2 = sign_extend 5 (bit_at rs2 5) rs2

unfoldable pub decode_p : Fields → Decoded
unfolding p_instr p_imm2
decode_p w =
    or_invalid w.bin
      (λ instr. p_fmt instr (reg_id w.rs1) (compose_4 w.sign w.imm_11_6 w.rd) (p_imm2 w.rs2))
      (p_instr w.funct3)

unfoldable pub decode_io : Fields → Decoded
decode_io w =
    if w.funct3 == 0b001
    then ok (io_fmt (inw (reg_id w.rd)))
    else if w.funct3 == 0b010
    then ok (io_fmt (outb (reg_id w.rs1)))
    else if w.funct3 == 0b100
    then ok (io_fmt (finw (freg_id w.rd)))
    else err (invalid w.bin)
