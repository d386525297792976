-- ===== src/Decode/Registers.antt =====
-- The arms of core_sim/src/decode_instr.rs: the registers that they name, and where they panic.
use cpuex2022_7_simulator.Common.{
  ℕ, ◌≡◌, ◌⊎◌, ◌≢◌, inl, inr, arith, refl, Bool, true, false, Option-cases, Option, none, some, ok,
  err, panic, ◌==◌, bit_and, if◌then◌else◌,
}
use cpuex2022_7_simulator.Bin.{extract, mask_lower}
use cpuex2022_7_simulator.Bin.Fields.{extract_lem}
use cpuex2022_7_simulator.Instr.{DecodedInstr}
use cpuex2022_7_simulator.Register.{reg_id}
use cpuex2022_7_simulator.Cpu.Targets.{RegsExist, Exists}
use cpuex2022_7_simulator.Decode.{decode_from, decode_fields, fields_of}
use cpuex2022_7_simulator.Decode.Formats.{
  DecodeError, Fields, Decoded, or_invalid, decode_r, decode_i, decode_lw, decode_jalr, decode_sw,
  decode_b, decode_float, decode_vw, float_arith, float_test, other_float, r_instr, i_instr,
  b_instr, e_instr, h_instr, y_instr, w_instr, v_instr,
}

-- A decoded instruction, if there is one, satisfies `P`, and a panic comes with `Q`.
data AllOk (P : DecodedInstr → Type 0) (Q : Type 0) : Decoded → Type 0 where
  all_ok : {i : DecodedInstr} → P i → AllOk P Q (ok i)
  all_err : {e : DecodeError} → AllOk P Q (err e)
  all_panic : Q → AllOk P Q panic

or_invalid-AllOk :
    {A : Type 0} {Q : Type 0} (P : DecodedInstr → Type 0) (bin : ℕ) (build : A → DecodedInstr)
    (o : Option A)
    → ((a : A) → P (build a))
    → AllOk P Q (or_invalid bin build o)
or_invalid-AllOk P bin build none h = all_err
or_invalid-AllOk P bin build (some a) h = all_ok (h a)

if-AllOk :
    {P : DecodedInstr → Type 0} {Q : Type 0} {a b : Decoded} (t : Bool)
    → AllOk P Q a
    → AllOk P Q b
    → AllOk P Q (if t then a else b)
if-AllOk true x y = x
if-AllOk false x y = y

-- The branch knows the test.
if-AllOk_known :
    {P : DecodedInstr → Type 0} {Q : Type 0} {a b : Decoded} (t : Bool)
    → (t ≡ true → AllOk P Q a)
    → (t ≡ false → AllOk P Q b)
    → AllOk P Q (if t then a else b)
if-AllOk_known true x y = x refl
if-AllOk_known false x y = y refl

-- The three register fields are registers.
record Ranges (w : Fields) : Type 0 where
  rd : Exists (reg_id w.rd)
  rs1 : Exists (reg_id w.rs1)
  rs2 : Exists (reg_id w.rs2)

fields-Ranges : (bin : ℕ) → Ranges (fields_of bin)
unfolding fields_of
fields-Ranges bin = record {
  rd = omega (arith, extract_lem bin 7 11 (omega arith) (omega arith));
  rs1 = omega (arith, extract_lem bin 15 19 (omega arith) (omega arith));
  rs2 = omega (arith, extract_lem bin 20 24 (omega arith) (omega arith));
}

-- The fields on which the float arm panics.
abbrev FloatPanics : Fields → Type 0
FloatPanics w = ((w.funct3 == 0) ≡ false) × ((w.funct7 == 0b1010001) ≡ false)

module _ (w : Fields) (r : Ranges w) {Q : Type 0} where
  decode_r-AllOk : AllOk RegsExist Q (decode_r w)
  unfolding decode_r
  decode_r-AllOk =
      or_invalid-AllOk RegsExist w.bin _ (r_instr w.funct3 w.funct7) (λ instr. (r.rd, r.rs1, r.rs2))

  decode_i-AllOk : AllOk RegsExist Q (decode_i w)
  unfolding decode_i
  decode_i-AllOk =
      or_invalid-AllOk RegsExist w.bin _ (i_instr w.funct3 w.funct7 w.imm) (λ c. (r.rd, r.rs1))

  decode_lw-AllOk : AllOk RegsExist Q (decode_lw w)
  unfolding decode_lw
  decode_lw-AllOk = if-AllOk (w.funct3 == 0x2) (all_ok (r.rd, r.rs1)) all_err

  decode_jalr-AllOk : AllOk RegsExist Q (decode_jalr w)
  unfolding decode_jalr
  decode_jalr-AllOk = if-AllOk (w.funct3 == 0x0) (all_ok (r.rd, r.rs1)) all_err

  decode_sw-AllOk : AllOk RegsExist Q (decode_sw w)
  unfolding decode_sw
  decode_sw-AllOk = if-AllOk (w.funct3 == 0x2) (all_ok (r.rs1, r.rs2)) all_err

  decode_b-AllOk : AllOk RegsExist Q (decode_b w)
  unfolding decode_b
  decode_b-AllOk = or_invalid-AllOk RegsExist w.bin _ (b_instr w.funct3) (λ instr. (r.rs1, r.rs2))

  other_float-AllOk : AllOk RegsExist Q (other_float w)
  unfolding other_float
  other_float-AllOk = if-AllOk (w.funct7 == 0b1000101) (all_ok (r.rd, r.rs1)) (
      if-AllOk (w.funct7 == 0b0100110) (all_ok (r.rd, r.rs1))
        (or_invalid-AllOk RegsExist w.bin _ (h_instr w.funct7) (λ instr. (r.rd, r.rs1))))

  float_arith-AllOk : AllOk RegsExist Q (float_arith w)
  unfolding float_arith
  float_arith-AllOk = elim (Option-cases (e_instr w.funct7)) [
    | inl e ↦ rw (float_arith, e) other_float-AllOk
    | inr (instr, e) ↦ rw (float_arith, e) (all_ok (r.rd, r.rs1, r.rs2))
  ]

  float_test-AllOk : AllOk RegsExist Q (float_test w)
  unfolding float_test
  float_test-AllOk =
      if-AllOk (bit_and w.funct3 0b100 == 0)
        (if-AllOk (w.funct3 == 0b001) (all_ok (r.rd, r.rs1, r.rs2)) all_err)
        (or_invalid-AllOk RegsExist w.bin _ (y_instr w.funct3) (λ instr. (r.rd, r.rs1)))

  decode_float-AllOk : (FloatPanics w → Q) → AllOk RegsExist Q (decode_float w)
  unfolding decode_float
  decode_float-AllOk panics =
      if-AllOk_known (w.funct3 == 0) (λ e. float_arith-AllOk)
        (λ e.
          if-AllOk_known (w.funct7 == 0b1010001) (λ e'. float_test-AllOk)
            (λ e'. all_panic (panics (e, e'))))

  decode_vw-AllOk : AllOk RegsExist Q (decode_vw w)
  unfolding decode_vw
  decode_vw-AllOk =
      if-AllOk (bit_and w.funct3 0b100 == 0)
        (or_invalid-AllOk RegsExist w.bin _ (w_instr w.funct3) (λ instr. (r.rs1, r.rs2)))
        (or_invalid-AllOk RegsExist w.bin _ (v_instr w.funct3) (λ instr. r.rs1))

module _ (w : Fields) (r : Ranges w) where
  abbrev Panics : ℕ → Type 0
  Panics opcode = ((opcode == 0b1010011) ≡ true) × FloatPanics w

  decode_fields-AllOk : (opcode : ℕ) → AllOk RegsExist (Panics opcode) (decode_fields opcode w)
  unfolding decode_fields
  decode_fields-AllOk opcode = if-AllOk (opcode == 0b0110011) (decode_r-AllOk w r) (
      if-AllOk (opcode == 0b0010011) (decode_i-AllOk w r) (
        if-AllOk (opcode == 0b0000011) (decode_lw-AllOk w r) (
          if-AllOk (opcode == 0b1100111) (decode_jalr-AllOk w r) (
            if-AllOk (opcode == 0b0100011) (decode_sw-AllOk w r) (
              if-AllOk (opcode == 0b1100011) (decode_b-AllOk w r) (
                if-AllOk (opcode == 0b1101111) (all_ok r.rd) (
                  if-AllOk (opcode == 0b0001011) (all_ok r.rd) (
                    if-AllOk (opcode == 0b0101011) (all_ok r.rs1) (
                      if-AllOk (opcode == 0b0001111) (all_ok r.rd) (
                        if-AllOk_known (opcode == 0b1010011)
                          (λ e. decode_float-AllOk w r (λ f. (e, f)))
                          (λ e. if-AllOk (opcode == 0b1010111) (decode_vw-AllOk w r) (
                            if-AllOk (opcode == 0b0000111) (all_ok (r.rd, r.rs1)) (
                              if-AllOk (opcode == 0b0100111) (all_ok (r.rs2, r.rs1))
                                all_err)))))))))))))

-- The words on which the decoder may panic.
abbrev Panicking : ℕ → Type 0
Panicking bin = Panics (fields_of bin) (fields-Ranges bin) (mask_lower bin 6)

decode_from-AllOk : (bin : ℕ) → AllOk RegsExist (Panicking bin) (decode_from bin)
unfolding decode_from
decode_from-AllOk bin =
    if-AllOk (bin == 0) (all_ok tt)
      (decode_fields-AllOk (fields_of bin) (fields-Ranges bin) (mask_lower bin 6))

decoded_cases :
    {Q : Type 0} (d : Decoded)
    → AllOk RegsExist Q d
    → ((d ≡ panic) × Q)
      ⊎ (((e : DecodeError) × (d ≡ err e)) ⊎ ((i : DecodedInstr) × (d ≡ ok i) × RegsExist i))
decoded_cases (ok i) (all_ok h) = inr (inr (i, refl, h))
decoded_cases (err e) all_err = inr (inl (e, refl))
decoded_cases panic (all_panic q) = inl (refl, q)

-- A word that does not make the decoder panic decodes to an error or to an instruction whose
-- registers are below 32.
pub decode_from_cases :
    (bin : ℕ)
    → decode_from bin ≢ panic
    → ((e : DecodeError) × (decode_from bin ≡ err e))
      ⊎ ((i : DecodedInstr) × (decode_from bin ≡ ok i) × RegsExist i)
decode_from_cases bin h = elim (decoded_cases (decode_from bin) (decode_from-AllOk bin)) [
  | inl p ↦ elim (h p.0) [ ]
  | inr c ↦ c
]

ok≢panic : (i : DecodedInstr) → ¬ (◌≡◌ {A = Decoded} (ok i) panic)
ok≢panic i e = cc

err≢panic : (x : DecodeError) → ¬ (◌≡◌ {A = Decoded} (err x) panic)
err≢panic x e = cc

panic_of : {Q : Type 0} (d : Decoded) → AllOk RegsExist Q d → d ≡ panic → Q
panic_of (ok i) (all_ok h) e = elim (ok≢panic i e) [ ]
panic_of (err x) all_err e = elim (err≢panic x e) [ ]
panic_of panic (all_panic q) e = q

-- The decoder panics only on a word of the float opcode, whose funct3 is not 0 and whose funct7 is
-- not 0b1010001.
pub decode_from-panic :
    (bin : ℕ)
    → decode_from bin ≡ panic
    → (mask_lower bin 6 ≡ 0b1010011) × (extract bin 12 14 ≢ 0) × (extract bin 25 31 ≢ 0b1010001)
decode_from-panic bin h =
    let q : Panicking bin = panic_of (decode_from bin) (decode_from-AllOk bin) h in
    unfold fields_of in ground (arith, q)
