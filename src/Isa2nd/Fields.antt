-- ===== src/Isa2nd/Fields.antt =====
-- The fields that core_sim/src/decode_instr_2nd.rs cuts out of a word are those it is made of.
use cpuex2022_7_simulator.Common.{
  ℕ, ◌/◌, ◌%◌, ◌^◌, ◌<◌, ◌≡◌, ◌≢◌, ◌==◌, false, arith, refl, ap, ◌∙◌,
}
use cpuex2022_7_simulator.Bin.{extract, bit_at, mask_lower}
use cpuex2022_7_simulator.Bin.Fields.{extract_lem, bit_at_lem, mask_lower_lem}
use cpuex2022_7_simulator.Isa2nd.Formats.{Fields}
use cpuex2022_7_simulator.Isa2nd.Decode.{fields_of, decode_fields, decode_from}
use cpuex2022_7_simulator.Isa2nd.Encode.{word_of}

abbrev pub fields : ℕ → ℕ → ℕ → ℕ → ℕ → ℕ → Fields
fields opcode rd funct3 rs1 rs2 funct7 = record {
  bin = word_of opcode rd funct3 rs1 rs2 funct7;
  rd = rd;
  funct3 = funct3;
  rs1 = rs1;
  rs2 = rs2;
  funct7 = funct7;
  imm_11_6 = funct7 % 64;
  sign = funct7 / 64;
}

pub record Fits (opcode rd funct3 rs1 rs2 funct7 : ℕ) : Type 0 where
  pub opcode_lt : opcode < 16
  pub rd_lt : rd < 64
  pub funct3_lt : funct3 < 8
  pub rs1_lt : rs1 < 64
  pub rs2_lt : rs2 < 64
  pub funct7_lt : funct7 < 128

pub Fits-of :
    {opcode rd funct3 rs1 rs2 funct7 : ℕ}
    → opcode < 16
    → rd < 64
    → funct3 < 8
    → rs1 < 64
    → rs2 < 64
    → funct7 < 128
    → Fits opcode rd funct3 rs1 rs2 funct7
Fits-of a b c d e f = record {
  opcode_lt = a;
  rd_lt = b;
  funct3_lt = c;
  rs1_lt = d;
  rs2_lt = e;
  funct7_lt = f;
}

module _ (opcode rd funct3 rs1 rs2 funct7 : ℕ) (fits : Fits opcode rd funct3 rs1 rs2 funct7) where
  abbrev word : ℕ
  word = word_of opcode rd funct3 rs1 rs2 funct7

  fields_of-word : fields_of word ≡ fields opcode rd funct3 rs1 rs2 funct7
  unfolding fields_of
  fields_of-word =
      let e1 : extract word 4 9 ≡ rd = omega (
        arith,
        extract_lem word 4 9 (omega arith) (omega arith),
        fits.opcode_lt,
        fits.rd_lt,
        fits.funct3_lt,
        fits.rs1_lt,
        fits.rs2_lt,
        fits.funct7_lt,
      ) in
      let e2 : extract word 10 12 ≡ funct3 = omega (
        arith,
        extract_lem word 10 12 (omega arith) (omega arith),
        fits.opcode_lt,
        fits.rd_lt,
        fits.funct3_lt,
        fits.rs1_lt,
        fits.rs2_lt,
        fits.funct7_lt,
      ) in
      let e3 : extract word 13 18 ≡ rs1 = omega (
        arith,
        extract_lem word 13 18 (omega arith) (omega arith),
        fits.opcode_lt,
        fits.rd_lt,
        fits.funct3_lt,
        fits.rs1_lt,
        fits.rs2_lt,
        fits.funct7_lt,
      ) in
      let e4 : extract word 19 24 ≡ rs2 = omega (
        arith,
        extract_lem word 19 24 (omega arith) (omega arith),
        fits.opcode_lt,
        fits.rd_lt,
        fits.funct3_lt,
        fits.rs1_lt,
        fits.rs2_lt,
        fits.funct7_lt,
      ) in
      let e5 : extract word 25 31 ≡ funct7 = omega (
        arith,
        extract_lem word 25 31 (omega arith) (omega arith),
        fits.opcode_lt,
        fits.rd_lt,
        fits.funct3_lt,
        fits.rs1_lt,
        fits.rs2_lt,
        fits.funct7_lt,
      ) in
      let e6 : extract word 25 30 ≡ funct7 % 64 = omega (
        arith,
        extract_lem word 25 30 (omega arith) (omega arith),
        fits.opcode_lt,
        fits.rd_lt,
        fits.funct3_lt,
        fits.rs1_lt,
        fits.rs2_lt,
        fits.funct7_lt,
      ) in
      let e7 : bit_at word 31 ≡ funct7 / 64 = omega (
        arith,
        bit_at_lem word 31 (omega arith),
        fits.opcode_lt,
        fits.rd_lt,
        fits.funct3_lt,
        fits.rs1_lt,
        fits.rs2_lt,
      ) in
      rw (e1, e2, e3, e4, e5, e6, e7) refl

  opcode_of-word : mask_lower word 3 ≡ opcode
  opcode_of-word = omega (arith, mask_lower_lem word 3 (omega arith), fits.opcode_lt)

  opened : word ≢ 2 ^ 31 → decode_from word ≡ decode_fields (mask_lower word 3) (fields_of word)
  unfolding decode_from
  opened h = let other : (word == 2 ^ 31) ≡ false = ground arith in rw other refl

  -- A word that is not that of `End` is decoded by its fields.
  pub decode_from-word :
      word ≢ 2 ^ 31
      → decode_from word ≡ decode_fields opcode (fields opcode rd funct3 rs1 rs2 funct7)
  decode_from-word h =
      opened h
      ∙ ap (λ f. decode_fields (mask_lower word 3) f) fields_of-word
      ∙ ap (λ o. decode_fields o (fields opcode rd funct3 rs1 rs2 funct7)) opcode_of-word

  other_word : 0 < opcode → word ≢ 2 ^ 31
  other_word h =
      let low : word % 16 ≡ opcode = omega (arith, fits.opcode_lt) in λ e. omega (arith, low, h, e)

  -- Only the opcode 0 is that of `End`.
  pub decode_from-coded :
      0 < opcode → decode_from word ≡ decode_fields opcode (fields opcode rd funct3 rs1 rs2 funct7)
  decode_from-coded h = decode_from-word (other_word h)
