-- ===== src/Isa2nd/FloatFormats.antt =====
-- The arms of the float opcodes in core_sim/src/decode_instr_2nd.rs.
use cpuex2022_7_simulator.Common.{ℕ, Option, none, some, ◌==◌, bit_and, if◌then◌else◌, shr, ok, err}
use cpuex2022_7_simulator.Instr.{
  EInstr, fadd, fsub, fmul, fdiv, fsgnj, fsgnjn, fsgnjx, flt, fitof, YInstr, fiszero, fispos,
  fisneg, fftoi, WInstr, fblt, fbge, VInstr, fbeqz, fbnez,
}
use cpuex2022_7_simulator.Isa2nd.{
  GInstr, fmadd, fmsub, fnmadd, fnmsub, HInstr, fsqrt, fhalf, ffloor, ffrac, finv, e_fmt, g_fmt,
  h_fmt, k_fmt, x_fmt, y_fmt, w_fmt, v_fmt, f_fmt,
}
use cpuex2022_7_simulator.Isa2nd.Imm.{compose_4}
use cpuex2022_7_simulator.Register.{reg_id, freg_id}
use cpuex2022_7_simulator.Isa2nd.Formats.{Fields, Decoded, invalid, or_invalid}

unfoldable pub e_instr : ℕ → Option EInstr
e_instr funct5 =
    if funct5 == 0b00
    then some fadd
    else if funct5 == 0b01
    then some fsub
    else if funct5 == 0b10
    then some fmul
    else if funct5 == 0b11
    then some fdiv
    else if funct5 == 0b110
    then some fsgnj
    else if funct5 == 0b111
    then some fsgnjn
    else if funct5 == 0b1000
    then some fsgnjx
    else none

unfoldable pub h_instr : ℕ → Option HInstr
h_instr funct5 =
    if funct5 == 0b100
    then some fsqrt
    else if funct5 == 0b101
    then some fhalf
    else if funct5 == 0b1100
    then some ffrac
    else if funct5 == 0b1011
    then some finv
    else if funct5 == 0b01001
    then some ffloor
    else none

-- the arms below those of `EInstr` and `HInstr`
unfoldable pub conversion : Fields → ℕ → Decoded
conversion w funct5 =
    if funct5 == 0b10001
    then ok (f_fmt (y_fmt fftoi (reg_id w.rd) (freg_id w.rs1)))
    else if funct5 == 0b11001
    then ok (f_fmt (x_fmt fitof (freg_id w.rd) (reg_id w.rs1)))
    else err (invalid w.bin)

unfoldable pub one_operand : Fields → ℕ → Decoded
unfolding h_instr conversion
one_operand w funct5 = elim (h_instr funct5) [
  | some instr ↦ ok (f_fmt (h_fmt instr (freg_id w.rd) (freg_id w.rs1)))
  | none ↦ conversion w funct5
]

-- the arms under `funct3 == 0`
unfoldable pub float_arith : Fields → ℕ → Decoded
unfolding e_instr one_operand
float_arith w funct5 = elim (e_instr funct5) [
  | some instr ↦ ok (f_fmt (e_fmt instr (freg_id w.rd) (freg_id w.rs1) (freg_id w.rs2)))
  | none ↦ one_operand w funct5
]

unfoldable pub g_instr : ℕ → Option GInstr
g_instr funct3 =
    if funct3 == 0b001
    then some fmadd
    else if funct3 == 0b010
    then some fmsub
    else if funct3 == 0b101
    then some fnmadd
    else if funct3 == 0b110
    then some fnmsub
    else none

unfoldable pub y_instr : ℕ → Option YInstr
y_instr funct3 =
    if funct3 == 0b100
    then some fiszero
    else if funct3 == 0b101
    then some fispos
    else if funct3 == 0b110
    then some fisneg
    else none

unfoldable pub float_test : Fields → Decoded
unfolding y_instr
float_test w =
    if w.funct3 == 0b001
    then ok (f_fmt (k_fmt flt (reg_id w.rd) (freg_id w.rs1) (freg_id w.rs2)))
    else or_invalid w.bin (λ instr. f_fmt (y_fmt instr (reg_id w.rd) (freg_id w.rs1)))
        (y_instr w.funct3)

unfoldable pub fused : Fields → Decoded
unfolding g_instr
fused w =
    or_invalid w.bin
      (λ instr.
        f_fmt (g_fmt instr (freg_id w.rd) (freg_id w.rs1) (freg_id w.rs2) (freg_id w.imm_11_6)))
      (g_instr w.funct3)

unfoldable pub decode_float : Fields → Decoded
unfolding float_arith fused float_test
decode_float w =
    if w.funct3 == 0
    then float_arith w (shr w.funct7 2)
    else if w.sign == 0
    then fused w
    else float_test w

unfoldable pub w_instr : ℕ → Option WInstr
w_instr funct3 = if funct3 == 0b001 then some fblt else if funct3 == 0b010 then some fbge else none

unfoldable pub v_instr : ℕ → Option VInstr
v_instr funct3 =
    if funct3 == 0b100 then some fbeqz else if funct3 == 0b111 then some fbnez else none

unfoldable pub decode_vw : Fields → Decoded
unfolding w_instr v_instr
decode_vw w =
    if bit_and w.funct3 0b100 == 0
    then or_invalid w.bin
        (λ instr.
          f_fmt (w_fmt instr (freg_id w.rs1) (freg_id w.rs2) (compose_4 w.sign w.imm_11_6 w.rd)))
        (w_instr w.funct3)
    else or_invalid w.bin
        (λ instr. f_fmt (v_fmt instr (freg_id w.rs1) (compose_4 w.sign w.imm_11_6 w.rd)))
        (v_instr w.funct3)
