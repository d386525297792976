-- ===== src/Decode/Formats.antt =====
-- The arms of the `match` on the opcode in core_sim/src/decode_instr.rs that choose further.
use cpuex2022_7_simulator.Common.{
  ℕ, Option, none, some, ◌==◌, ◌&&◌, if◌then◌else◌, bit_and, Result, ok, err, panic,
}
use cpuex2022_7_simulator.Bin.{mask}
use cpuex2022_7_simulator.Instr.{
  RInstr, add, sub, xor, or, and, sll, sra, slt, IInstr, addi, xori, ori, andi, slli, lw, jalr, sw,
  BInstr, beq, bne, blt, bge, EInstr, fadd, fsub, fmul, fdiv, fsgnj, fsgnjn, fsgnjx, HInstr, fsqrt,
  fhalf, ffloor, flt, fitof, YInstr, fiszero, fispos, fisneg, fftoi, WInstr, fblt, fbge, VInstr,
  fbeqz, fbnez, e_fmt, h_fmt, k_fmt, x_fmt, y_fmt, w_fmt, v_fmt, r_fmt, i_fmt, s_fmt, b_fmt, f_fmt,
  DecodedInstr,
}
use cpuex2022_7_simulator.Register.{reg_id, freg_id}
use cpuex2022_7_simulator.Decode.Imm.{i_imm, s_imm, b_imm}

pub data DecodeError : Type 0 where
  invalid : ℕ → DecodeError

-- the locals of `decode_from`
pub record Fields : Type 0 where
  pub bin : ℕ
  pub rd : ℕ
  pub funct3 : ℕ
  pub rs1 : ℕ
  pub rs2 : ℕ
  pub funct7 : ℕ
  pub imm : ℕ
  pub sign : ℕ

abbrev pub Decoded : Type 0
Decoded = Result DecodeError DecodedInstr

-- the arm of an instruction that was chosen, and `_ => Err(DecodeError::Invalid(bin))?`
abbrev pub or_invalid : {A : Type 0} → ℕ → (A → DecodedInstr) → Option A → Decoded
or_invalid bin build (some instr) = ok (build instr)
or_invalid bin build none = err (invalid bin)

unfoldable pub r_instr : ℕ → ℕ → Option RInstr
r_instr funct3 funct7 =
    if funct3 == 0x0 && funct7 == 0x00
    then some add
    else if funct3 == 0x0 && funct7 == 0x20
    then some sub
    else if funct3 == 0x4 && funct7 == 0x00
    then some xor
    else if funct3 == 0x6 && funct7 == 0x00
    then some or
    else if funct3 == 0x7 && funct7 == 0x00
    then some and
    else if funct3 == 0x1 && funct7 == 0x00
    then some sll
    else if funct3 == 0x5 && funct7 == 0x20
    then some sra
    else if funct3 == 0x2 && funct7 == 0x00
    then some slt
    else none

unfoldable pub decode_r : Fields → Decoded
unfolding r_instr
decode_r w =
    or_invalid w.bin (λ instr. r_fmt instr (reg_id w.rd) (reg_id w.rs1) (reg_id w.rs2))
      (r_instr w.funct3 w.funct7)

-- `slli` also cuts the immediate.
unfoldable pub i_instr : ℕ → ℕ → ℕ → Option (IInstr × ℕ)
i_instr funct3 funct7 imm =
    if funct3 == 0x0
    then some (addi, imm)
    else if funct3 == 0x4
    then some (xori, imm)
    else if funct3 == 0x6
    then some (ori, imm)
    else if funct3 == 0x7
    then some (andi, imm)
    else if funct3 == 0x1 && funct7 == 0x00
    then some (slli, mask imm 0 4)
    else none

unfoldable pub decode_i : Fields → Decoded
unfolding i_instr
decode_i w =
    or_invalid w.bin (λ c. i_fmt c.0 (reg_id w.rd) (reg_id w.rs1) (i_imm w.sign c.1))
      (i_instr w.funct3 w.funct7 w.imm)

unfoldable pub decode_lw : Fields → Decoded
decode_lw w =
    if w.funct3 == 0x2
    then ok (i_fmt lw (reg_id w.rd) (reg_id w.rs1) (i_imm w.sign w.imm))
    else err (invalid w.bin)

unfoldable pub decode_jalr : Fields → Decoded
decode_jalr w =
    if w.funct3 == 0x0
    then ok (i_fmt jalr (reg_id w.rd) (reg_id w.rs1) (i_imm w.sign w.imm))
    else err (invalid w.bin)

unfoldable pub decode_sw : Fields → Decoded
decode_sw w =
    if w.funct3 == 0x2
    then ok (s_fmt sw (reg_id w.rs1) (reg_id w.rs2) (s_imm w.bin w.sign))
    else err (invalid w.bin)

unfoldable pub b_instr : ℕ → Option BInstr
b_instr funct3 =
    if funct3 == 0x0
    then some beq
    else if funct3 == 0x1
    then some bne
    else if funct3 == 0x4
    then some blt
    else if funct3 == 0x5
    then some bge
    else none

unfoldable pub decode_b : Fields → Decoded
unfolding b_instr
decode_b w =
    or_invalid w.bin (λ instr. b_fmt instr (reg_id w.rs1) (reg_id w.rs2) (b_imm w.bin w.sign))
      (b_instr w.funct3)

unfoldable pub e_instr : ℕ → Option EInstr
e_instr funct7 =
    if funct7 == 0b0000
    then some fadd
    else if funct7 == 0b0100
    then some fsub
    else if funct7 == 0b1000
    then some fmul
    else if funct7 == 0b1100
    then some fdiv
    else if funct7 == 0b011000
    then some fsgnj
    else if funct7 == 0b011100
    then some fsgnjn
    else if funct7 == 0b100000
    then some fsgnjx
    else none

unfoldable pub h_instr : ℕ → Option HInstr
h_instr funct7 =
    if funct7 == 0b10000
    then some fsqrt
    else if funct7 == 0b10100
    then some fhalf
    else if funct7 == 0b1000000
    then some ffloor
    else none

-- the arms under `funct3 == 0`
unfoldable pub other_float : Fields → Decoded
unfolding h_instr
other_float w =
    if w.funct7 == 0b1000101
    then ok (f_fmt (y_fmt fftoi (reg_id w.rd) (freg_id w.rs1)))
    else if w.funct7 == 0b0100110
    then ok (f_fmt (x_fmt fitof (freg_id w.rd) (reg_id w.rs1)))
    else or_invalid w.bin (λ instr. f_fmt (h_fmt instr (freg_id w.rd) (freg_id w.rs1)))
        (h_instr w.funct7)

unfoldable pub float_arith : Fields → Decoded
unfolding e_instr other_float
float_arith w = elim (e_instr w.funct7) [
  | some instr ↦ ok (f_fmt (e_fmt instr (freg_id w.rd) (freg_id w.rs1) (freg_id w.rs2)))
  | none ↦ other_float w
]

unfoldable pub y_instr : ℕ → Option YInstr
y_instr funct3 =
    if funct3 == 0b100
    then some fiszero
    else if funct3 == 0b101
    then some fispos
    else if funct3 == 0b110
    then some fisneg
    else none

unfoldable pub float_test : Fields → Decoded
unfolding y_instr
float_test w =
    if bit_and w.funct3 0b100 == 0
    then (if w.funct3 == 0b001
        then ok (f_fmt (k_fmt flt (reg_id w.rd) (freg_id w.rs1) (freg_id w.rs2)))
        else err (invalid w.bin))
    else or_invalid w.bin (λ instr. f_fmt (y_fmt instr (reg_id w.rd) (freg_id w.rs1)))
        (y_instr w.funct3)

-- `assert_eq!(funct7, 0b1010001)` stands in front of the comparisons.
unfoldable pub decode_float : Fields → Decoded
unfolding float_arith float_test
decode_float w =
    if w.funct3 == 0 then float_arith w else if w.funct7 == 0b1010001 then float_test w else panic

unfoldable pub w_instr : ℕ → Option WInstr
w_instr funct3 = if funct3 == 0b001 then some fblt else if funct3 == 0b010 then some fbge else none

unfoldable pub v_instr : ℕ → Option VInstr
v_instr funct3 =
    if funct3 == 0b100 then some fbeqz else if funct3 == 0b111 then some fbnez else none

unfoldable pub decode_vw : Fields → Decoded
unfolding w_instr v_instr
decode_vw w =
    if bit_and w.funct3 0b100 == 0
    then or_invalid w.bin
        (λ instr. f_fmt (w_fmt instr (freg_id w.rs1) (freg_id w.rs2) (b_imm w.bin w.sign)))
        (w_instr w.funct3)
    else or_invalid w.bin (λ instr. f_fmt (v_fmt instr (freg_id w.rs1) (b_imm w.bin w.sign)))
        (v_instr w.funct3)
