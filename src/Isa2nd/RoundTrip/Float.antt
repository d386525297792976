-- ===== src/Isa2nd/RoundTrip/Float.antt =====
-- The float instructions of core_sim/src/decode_instr_2nd.rs come back from their encodings.
use cpuex2022_7_simulator.Common.{ℕ, ◌*◌, ◌/◌, ◌%◌, ◌<◌, ◌≡◌, ◌∙◌, shr, arith, refl, ok}
use cpuex2022_7_simulator.Instr.{
  EInstr, flt, fitof, YInstr, fiszero, fispos, fisneg, fftoi, WInstr, fblt, fbge, VInstr, fbeqz,
  fbnez,
}
use cpuex2022_7_simulator.Isa2nd.{
  GInstr, fmadd, fmsub, fnmadd, fnmsub, HInstr, FInstr, e_fmt, g_fmt, h_fmt, k_fmt, x_fmt, y_fmt,
  w_fmt, v_fmt, flw, fsw, f_fmt,
}
use cpuex2022_7_simulator.Isa2nd.FloatFormats.{
  decode_float, decode_vw, float_arith, one_operand, conversion, fused, float_test, g_instr,
  y_instr, w_instr, v_instr, e_instr, h_instr,
}
use cpuex2022_7_simulator.Isa2nd.Imm.{compose_4}
use cpuex2022_7_simulator.Isa2nd.Decode.{decode_fields, decode_from}
use cpuex2022_7_simulator.Isa2nd.Encode.{
  word_of, encode, e_funct5, h_funct5, g_funct3, y_codes, w_funct3, v_funct3, IsReg, IsEncodable,
  upper_piece, lower_piece, branch_piece,
}
use cpuex2022_7_simulator.Isa2nd.Fields.{Fits-of, fields, decode_from-coded}
use cpuex2022_7_simulator.Isa2nd.Immediates.{compose_3-pieces, compose_4-pieces}
use cpuex2022_7_simulator.Isa2nd.Tables.{e_table, h_table}
use cpuex2022_7_simulator.Isa2nd.RoundTrip.Shared.{ComesBack, same_reg, upper_12, upper_14}
use cpuex2022_7_simulator.Register.{reg_id, freg_id}

float_word :
    (rd funct3 rs1 rs2 funct7 : ℕ)
    → IsReg rd
    → funct3 < 8
    → IsReg rs1
    → IsReg rs2
    → funct7 < 128
    → decode_from (word_of 1 rd funct3 rs1 rs2 funct7)
      ≡ decode_float (fields 1 rd funct3 rs1 rs2 funct7)
unfolding decode_fields
float_word rd funct3 rs1 rs2 funct7 h lt h1 h2 g =
    decode_from-coded 1 rd funct3 rs1 rs2 funct7 (Fits-of (omega arith) h lt h1 h2 g) (omega arith)

e_fmt-ComesBack :
    (instr : EInstr) (rd rs1 rs2 : ℕ)
    → IsEncodable (f_fmt (e_fmt instr rd rs1 rs2))
    → ComesBack (f_fmt (e_fmt instr rd rs1 rs2))
unfolding encode decode_float float_arith
e_fmt-ComesBack instr rd rs1 rs2 (h, h1, h2) =
    let (found, lt) = e_table instr in
    let code : shr (e_funct5 instr * 4) 2 ≡ e_funct5 instr = omega arith in
    float_word rd 0 rs1 rs2 (e_funct5 instr * 4) h (omega arith) h1 h2 (omega (arith, lt))
    ∙ rw (code, float_arith, found, same_reg rd h, same_reg rs1 h1, same_reg rs2 h2) refl

h_fmt-ComesBack :
    (instr : HInstr) (rd rs1 : ℕ)
    → IsEncodable (f_fmt (h_fmt instr rd rs1))
    → ComesBack (f_fmt (h_fmt instr rd rs1))
unfolding encode decode_float float_arith one_operand
h_fmt-ComesBack instr rd rs1 (h, h1) =
    let (other, found, lt) = h_table instr in
    let code : shr (h_funct5 instr * 4) 2 ≡ h_funct5 instr = omega arith in
    float_word rd 0 rs1 0 (h_funct5 instr * 4) h (omega arith) h1 (omega arith) (omega (arith, lt))
    ∙ rw (code, float_arith, other, code, one_operand, found, same_reg rd h, same_reg rs1 h1) refl

g_funct3-lt : (instr : GInstr) → g_funct3 instr < 8
g_funct3-lt fmadd = omega arith
g_funct3-lt fmsub = omega arith
g_funct3-lt fnmadd = omega arith
g_funct3-lt fnmsub = omega arith

third_operand : (r : ℕ) → IsReg r → (r / 64 ≡ 0) × (r % 64 ≡ r)
third_operand r h = (omega arith, omega arith)

g_arm :
    (instr : GInstr) (rd rs1 rs2 rs3 : ℕ)
    → IsReg rs3
    → decode_float (fields 1 rd (g_funct3 instr) rs1 rs2 rs3)
      ≡ ok (f_fmt (g_fmt instr (freg_id rd) (freg_id rs1) (freg_id rs2) (freg_id rs3)))
unfolding decode_float fused g_instr
g_arm fmadd rd rs1 rs2 rs3 h = let (top, low) = third_operand rs3 h in rw (top, low) refl
g_arm fmsub rd rs1 rs2 rs3 h = let (top, low) = third_operand rs3 h in rw (top, low) refl
g_arm fnmadd rd rs1 rs2 rs3 h = let (top, low) = third_operand rs3 h in rw (top, low) refl
g_arm fnmsub rd rs1 rs2 rs3 h = let (top, low) = third_operand rs3 h in rw (top, low) refl

g_fmt-ComesBack :
    (instr : GInstr) (rd rs1 rs2 rs3 : ℕ)
    → IsEncodable (f_fmt (g_fmt instr rd rs1 rs2 rs3))
    → ComesBack (f_fmt (g_fmt instr rd rs1 rs2 rs3))
unfolding encode
g_fmt-ComesBack instr rd rs1 rs2 rs3 (h, h1, h2, h3) =
    float_word rd (g_funct3 instr) rs1 rs2 rs3 h (g_funct3-lt instr) h1 h2 (omega (arith, h3))
    ∙ g_arm instr rd rs1 rs2 rs3 h3
    ∙ rw (same_reg rd h, same_reg rs1 h1, same_reg rs2 h2, same_reg rs3 h3) refl

k_fmt-ComesBack :
    (rd rs1 rs2 : ℕ)
    → IsEncodable (f_fmt (k_fmt flt rd rs1 rs2))
    → ComesBack (f_fmt (k_fmt flt rd rs1 rs2))
unfolding encode decode_float float_test
k_fmt-ComesBack rd rs1 rs2 (h, h1, h2) =
    float_word rd 1 rs1 rs2 64 h (omega arith) h1 h2 (omega arith)
    ∙ rw (same_reg rd h, same_reg rs1 h1, same_reg rs2 h2) refl

x_fmt-ComesBack :
    (rd rs1 : ℕ) → IsEncodable (f_fmt (x_fmt fitof rd rs1)) → ComesBack (f_fmt (x_fmt fitof rd rs1))
unfolding encode decode_float float_arith one_operand conversion e_instr h_instr
x_fmt-ComesBack rd rs1 (h, h1) =
    float_word rd 0 rs1 0 100 h (omega arith) h1 (omega arith) (omega arith)
    ∙ rw (same_reg rd h, same_reg rs1 h1) refl

y_arm :
    (instr : YInstr) (rd rs1 : ℕ)
    → decode_float (fields 1 rd (y_codes instr).0 rs1 0 (y_codes instr).1)
      ≡ ok (f_fmt (y_fmt instr (reg_id rd) (freg_id rs1)))
unfolding decode_float float_arith one_operand conversion e_instr h_instr float_test y_instr
y_arm fiszero rd rs1 = refl
y_arm fispos rd rs1 = refl
y_arm fisneg rd rs1 = refl
y_arm fftoi rd rs1 = refl

y_codes-lt : (instr : YInstr) → ((y_codes instr).0 < 8) × ((y_codes instr).1 < 128)
y_codes-lt fiszero = (omega arith, omega arith)
y_codes-lt fispos = (omega arith, omega arith)
y_codes-lt fisneg = (omega arith, omega arith)
y_codes-lt fftoi = (omega arith, omega arith)

y_fmt-ComesBack :
    (instr : YInstr) (rd rs1 : ℕ)
    → IsEncodable (f_fmt (y_fmt instr rd rs1))
    → ComesBack (f_fmt (y_fmt instr rd rs1))
unfolding encode
y_fmt-ComesBack instr rd rs1 (h, h1) =
    let (lt, g) = y_codes-lt instr in
    float_word rd (y_codes instr).0 rs1 0 (y_codes instr).1 h lt h1 (omega arith) g
    ∙ y_arm instr rd rs1
    ∙ rw (same_reg rd h, same_reg rs1 h1) refl

w_arm :
    (instr : WInstr) (rd rs1 rs2 funct7 : ℕ)
    → decode_vw (fields 9 rd (w_funct3 instr) rs1 rs2 funct7)
      ≡ ok (
          f_fmt
            (w_fmt instr (freg_id rs1) (freg_id rs2) (compose_4 (funct7 / 64) (funct7 % 64) rd)))
unfolding decode_vw w_instr
w_arm fblt rd rs1 rs2 funct7 = refl
w_arm fbge rd rs1 rs2 funct7 = refl

v_arm :
    (instr : VInstr) (rd rs1 rs2 funct7 : ℕ)
    → decode_vw (fields 9 rd (v_funct3 instr) rs1 rs2 funct7)
      ≡ ok (f_fmt (v_fmt instr (freg_id rs1) (compose_4 (funct7 / 64) (funct7 % 64) rd)))
unfolding decode_vw v_instr
v_arm fbeqz rd rs1 rs2 funct7 = refl
v_arm fbnez rd rs1 rs2 funct7 = refl

w_funct3-lt : (instr : WInstr) → w_funct3 instr < 8
w_funct3-lt fblt = omega arith
w_funct3-lt fbge = omega arith

v_funct3-lt : (instr : VInstr) → v_funct3 instr < 8
v_funct3-lt fbeqz = omega arith
v_funct3-lt fbnez = omega arith

w_fmt-ComesBack :
    (instr : WInstr) (rs1 rs2 imm : ℕ)
    → IsEncodable (f_fmt (w_fmt instr rs1 rs2 imm))
    → ComesBack (f_fmt (w_fmt instr rs1 rs2 imm))
unfolding encode decode_fields
w_fmt-ComesBack instr rs1 rs2 imm (h1, h2, j) =
    decode_from-coded 9 (branch_piece imm) (w_funct3 instr) rs1 rs2 (upper_piece imm)
      (Fits-of (omega arith) (omega arith) (w_funct3-lt instr) h1 h2 (upper_14 imm j.0))
      (omega arith)
    ∙ w_arm instr (branch_piece imm) rs1 rs2 (upper_piece imm)
    ∙ rw (same_reg rs1 h1, same_reg rs2 h2, compose_4-pieces imm j) refl

v_fmt-ComesBack :
    (instr : VInstr) (rs1 imm : ℕ)
    → IsEncodable (f_fmt (v_fmt instr rs1 imm))
    → ComesBack (f_fmt (v_fmt instr rs1 imm))
unfolding encode decode_fields
v_fmt-ComesBack instr rs1 imm (h1, j) =
    decode_from-coded 9 (branch_piece imm) (v_funct3 instr) rs1 0 (upper_piece imm)
      (Fits-of (omega arith) (omega arith) (v_funct3-lt instr) h1 (omega arith) (upper_14 imm j.0))
      (omega arith)
    ∙ v_arm instr (branch_piece imm) rs1 0 (upper_piece imm)
    ∙ rw (same_reg rs1 h1, compose_4-pieces imm j) refl

flw-ComesBack :
    (rd rs1 imm : ℕ) → IsEncodable (f_fmt (flw rd rs1 imm)) → ComesBack (f_fmt (flw rd rs1 imm))
unfolding encode decode_fields
flw-ComesBack rd rs1 imm (h, h1, s) =
    decode_from-coded 7 rd 0 rs1 (lower_piece imm) (upper_piece imm)
      (Fits-of (omega arith) h (omega arith) h1 (omega arith) (upper_12 imm s)) (omega arith)
    ∙ rw (same_reg rd h, same_reg rs1 h1, compose_3-pieces imm s) refl

fsw-ComesBack :
    (rs2 rs1 imm : ℕ) → IsEncodable (f_fmt (fsw rs2 rs1 imm)) → ComesBack (f_fmt (fsw rs2 rs1 imm))
unfolding encode decode_fields
fsw-ComesBack rs2 rs1 imm (h2, h1, s) =
    decode_from-coded 5 (lower_piece imm) 0 rs1 rs2 (upper_piece imm)
      (Fits-of (omega arith) (omega arith) (omega arith) h1 h2 (upper_12 imm s)) (omega arith)
    ∙ rw (same_reg rs2 h2, same_reg rs1 h1, compose_3-pieces imm s) refl

pub f_fmt-ComesBack : (instr : FInstr ℕ ℕ ℕ ℕ) → IsEncodable (f_fmt instr) → ComesBack (f_fmt instr)
f_fmt-ComesBack (e_fmt i rd rs1 rs2) h = e_fmt-ComesBack i rd rs1 rs2 h
f_fmt-ComesBack (g_fmt i rd rs1 rs2 rs3) h = g_fmt-ComesBack i rd rs1 rs2 rs3 h
f_fmt-ComesBack (h_fmt i rd rs1) h = h_fmt-ComesBack i rd rs1 h
f_fmt-ComesBack (k_fmt flt rd rs1 rs2) h = k_fmt-ComesBack rd rs1 rs2 h
f_fmt-ComesBack (x_fmt fitof rd rs1) h = x_fmt-ComesBack rd rs1 h
f_fmt-ComesBack (y_fmt i rd rs1) h = y_fmt-ComesBack i rd rs1 h
f_fmt-ComesBack (w_fmt i rs1 rs2 imm) h = w_fmt-ComesBack i rs1 rs2 imm h
f_fmt-ComesBack (v_fmt i rs1 imm) h = v_fmt-ComesBack i rs1 imm h
f_fmt-ComesBack (flw rd rs1 imm) h = flw-ComesBack rd rs1 imm h
f_fmt-ComesBack (fsw rs2 rs1 imm) h = fsw-ComesBack rs2 rs1 imm h
