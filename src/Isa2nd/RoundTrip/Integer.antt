-- ===== src/Isa2nd/RoundTrip/Integer.antt =====
-- The integer instructions of core_sim/src/decode_instr_2nd.rs come back from their encodings.
use cpuex2022_7_simulator.Common.{ℕ, ◌/◌, ◌%◌, ◌^◌, ◌<◌, ◌≡◌, ◌∙◌, arith, refl, ok}
use cpuex2022_7_simulator.Instr.{sw, jal, inw, outb, finw, IoInstr}
use cpuex2022_7_simulator.Isa2nd.{
  RInstr, IInstr, addi, xori, slli, lw, jalr, BInstr, PInstr, r_fmt, i_fmt, s_fmt, b_fmt, p_fmt,
  j_fmt, io_fmt,
}
use cpuex2022_7_simulator.Isa2nd.Formats.{
  decode_r, decode_i, decode_jalr, decode_b, decode_p, decode_io,
}
use cpuex2022_7_simulator.Isa2nd.Decode.{decode_fields, decode_from}
use cpuex2022_7_simulator.Isa2nd.Encode.{
  word_of, encode, r_funct3, i_codes, b_funct3, p_funct3, IsReg, IsEncodable, upper_piece,
  lower_piece, branch_piece,
}
use cpuex2022_7_simulator.Isa2nd.Fields.{Fits-of, fields, decode_from-word, decode_from-coded}
use cpuex2022_7_simulator.Isa2nd.Imm.{compose_3}
use cpuex2022_7_simulator.Register.{reg_id}
use cpuex2022_7_simulator.Isa2nd.Tables.{r_table, b_table, p_table}
use cpuex2022_7_simulator.Isa2nd.Immediates.{
  compose_3-pieces, compose_4-pieces, compose_6-pieces, p_imm2-piece,
}
use cpuex2022_7_simulator.Isa2nd.RoundTrip.Shared.{
  ComesBack, same_reg, upper_12, upper_14, upper_23,
}

pub r_fmt-ComesBack :
    (instr : RInstr) (rd rs1 rs2 : ℕ)
    → IsEncodable (r_fmt instr rd rs1 rs2)
    → ComesBack (r_fmt instr rd rs1 rs2)
unfolding encode decode_fields decode_r
r_fmt-ComesBack instr rd rs1 rs2 (h, h1, h2) =
    let (found, lt) = r_table instr in
    decode_from-word 0 rd (r_funct3 instr) rs1 rs2 0
      (Fits-of (omega arith) h lt h1 h2 (omega arith)) (omega (arith, h, lt, h1, h2))
    ∙ rw (found, same_reg rd h, same_reg rs1 h1, same_reg rs2 h2) refl

i_arm :
    (instr : IInstr) (rd rs1 rs2 funct7 : ℕ)
    → decode_fields (i_codes instr).0 (fields (i_codes instr).0 rd (i_codes instr).1 rs1 rs2 funct7)
      ≡ ok (i_fmt instr (reg_id rd) (reg_id rs1) (compose_3 (funct7 / 64) (funct7 % 64) rs2))
unfolding decode_fields decode_i decode_jalr
i_arm addi rd rs1 rs2 funct7 = refl
i_arm xori rd rs1 rs2 funct7 = refl
i_arm slli rd rs1 rs2 funct7 = refl
i_arm lw rd rs1 rs2 funct7 = refl
i_arm jalr rd rs1 rs2 funct7 = refl

i_codes-lt :
    (instr : IInstr) → ((i_codes instr).0 < 16) × (0 < (i_codes instr).0) × ((i_codes instr).1 < 8)
i_codes-lt addi = (omega arith, omega arith, omega arith)
i_codes-lt xori = (omega arith, omega arith, omega arith)
i_codes-lt slli = (omega arith, omega arith, omega arith)
i_codes-lt lw = (omega arith, omega arith, omega arith)
i_codes-lt jalr = (omega arith, omega arith, omega arith)

pub i_fmt-ComesBack :
    (instr : IInstr) (rd rs1 imm : ℕ)
    → IsEncodable (i_fmt instr rd rs1 imm)
    → ComesBack (i_fmt instr rd rs1 imm)
unfolding encode
i_fmt-ComesBack instr rd rs1 imm (h, h1, s) =
    let (small, some_code, lt) = i_codes-lt instr in
    decode_from-coded (i_codes instr).0 rd (i_codes instr).1 rs1 (lower_piece imm) (upper_piece imm)
      (Fits-of small h lt h1 (omega arith) (upper_12 imm s)) some_code
    ∙ i_arm instr rd rs1 (lower_piece imm) (upper_piece imm)
    ∙ rw (same_reg rd h, same_reg rs1 h1, compose_3-pieces imm s) refl

pub s_fmt-ComesBack :
    (rs1 rs2 imm : ℕ) → IsEncodable (s_fmt sw rs1 rs2 imm) → ComesBack (s_fmt sw rs1 rs2 imm)
unfolding encode decode_fields
s_fmt-ComesBack rs1 rs2 imm (h1, h2, s) =
    decode_from-coded 4 (lower_piece imm) 0 rs1 rs2 (upper_piece imm)
      (Fits-of (omega arith) (omega arith) (omega arith) h1 h2 (upper_12 imm s)) (omega arith)
    ∙ rw (same_reg rs1 h1, same_reg rs2 h2, compose_3-pieces imm s) refl

pub b_fmt-ComesBack :
    (instr : BInstr) (rs1 rs2 imm : ℕ)
    → IsEncodable (b_fmt instr rs1 rs2 imm)
    → ComesBack (b_fmt instr rs1 rs2 imm)
unfolding encode decode_fields decode_b
b_fmt-ComesBack instr rs1 rs2 imm (h1, h2, j) =
    let (found, lt) = b_table instr in
    decode_from-coded 8 (branch_piece imm) (b_funct3 instr) rs1 rs2 (upper_piece imm)
      (Fits-of (omega arith) (omega arith) lt h1 h2 (upper_14 imm j.0)) (omega arith)
    ∙ rw (found, same_reg rs1 h1, same_reg rs2 h2, compose_4-pieces imm j) refl

pub p_fmt-ComesBack :
    (instr : PInstr) (rs1 imm imm2 : ℕ)
    → IsEncodable (p_fmt instr rs1 imm imm2)
    → ComesBack (p_fmt instr rs1 imm imm2)
unfolding encode decode_fields decode_p
p_fmt-ComesBack instr rs1 imm imm2 (h1, j, s) =
    let (found, lt) = p_table instr in
    decode_from-coded 12 (branch_piece imm) (p_funct3 instr) rs1 (lower_piece imm2)
      (upper_piece imm) (Fits-of (omega arith) (omega arith) lt h1 (omega arith) (upper_14 imm j.0))
      (omega arith)
    ∙ rw (found, same_reg rs1 h1, compose_4-pieces imm j, p_imm2-piece imm2 s) refl

pub j_fmt-ComesBack : (rd imm : ℕ) → IsEncodable (j_fmt jal rd imm) → ComesBack (j_fmt jal rd imm)
unfolding encode decode_fields
j_fmt-ComesBack rd imm (h, j) =
    decode_from-coded 14 rd (imm / 2 ^ 14 % 2 ^ 3) (imm / 2 ^ 17 % 2 ^ 6) (branch_piece imm)
      (upper_piece imm)
      (Fits-of (omega arith) h (omega arith) (omega arith) (omega arith) (upper_23 imm j.0))
      (omega arith)
    ∙ rw (same_reg rd h, compose_6-pieces imm j) refl

-- a word of which only one register is used
io_word :
    (rd funct3 rs1 : ℕ)
    → IsReg rd
    → funct3 < 8
    → IsReg rs1
    → decode_from (word_of 3 rd funct3 rs1 0 0) ≡ decode_fields 3 (fields 3 rd funct3 rs1 0 0)
io_word rd funct3 rs1 h lt h1 =
    decode_from-coded 3 rd funct3 rs1 0 0
      (Fits-of (omega arith) h lt h1 (omega arith) (omega arith)) (omega arith)

pub io_fmt-ComesBack :
    (instr : IoInstr ℕ ℕ ℕ) → IsEncodable (io_fmt instr) → ComesBack (io_fmt instr)
unfolding encode decode_fields decode_io
io_fmt-ComesBack (inw rd) h = io_word rd 1 0 h (omega arith) (omega arith) ∙ rw (same_reg rd h) refl
io_fmt-ComesBack (outb rs) h =
    io_word 0 2 rs (omega arith) (omega arith) h ∙ rw (same_reg rs h) refl
io_fmt-ComesBack (finw rd) h =
    io_word rd 4 0 h (omega arith) (omega arith) ∙ rw (same_reg rd h) refl
