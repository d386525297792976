-- ===== src/Decode/Immediates.antt =====
-- The immediates of core_sim/src/decode_instr.rs and the fields of the instruction formats.
use cpuex2022_7_simulator.Common.{
  ◌∙◌, ℕ, ◌+◌, ◌*◌, ◌/◌, ◌%◌, ◌^◌, ◌<◌, suc, ◌≡◌, arith, bit_or, shl, signed,
}
use cpuex2022_7_simulator.Bits.{bit_or-low_field, bit_or-high_field}
use cpuex2022_7_simulator.Bin.{extract, bit_at, sign_extend}
use cpuex2022_7_simulator.Bin.Fields.{extract_lem, bit_at_lem}
use cpuex2022_7_simulator.Bin.Signed.{signed-sign_extend}
use cpuex2022_7_simulator.Decode.Imm.{j_imm, i_imm, s_imm, b_imm}

-- The bits `lo` to `lo + n - 1`, and one bit, of a word.
abbrev pub bits : ℕ → ℕ → ℕ → ℕ
bits bin lo n = bin / 2 ^ lo % 2 ^ n

-- The immediates before the sign extension.
abbrev pub i_field : ℕ → ℕ
i_field bin = bits bin 20 12

abbrev pub s_field : ℕ → ℕ
s_field bin = bits bin 25 7 * 2 ^ 5 + bits bin 7 5

abbrev pub b_field : ℕ → ℕ
b_field bin =
    bits bin 8 4 * 2 + bits bin 25 6 * 2 ^ 5 + bits bin 7 1 * 2 ^ 11 + bits bin 31 1 * 2 ^ 12

abbrev pub j_field : ℕ → ℕ
j_field bin =
    bits bin 21 10 * 2 + bits bin 20 1 * 2 ^ 11 + bits bin 12 8 * 2 ^ 12 + bits bin 31 1 * 2 ^ 20

extended :
    (w sign imm field : ℕ)
    → w < 31
    → imm ≡ field
    → field < 2 ^ suc w
    → sign ≡ field / 2 ^ w
    → signed 31 (sign_extend (suc w) sign imm) ≡ signed w field
extended w sign imm field h same fits top = rw (same, top) (signed-sign_extend w field h fits)

module _ (bin : ℕ) (word : bin < 2 ^ 32) where
  i_imm_lem : signed 31 (i_imm (bit_at bin 31) (extract bin 20 31)) ≡ signed 11 (i_field bin)
  unfolding i_imm
  i_imm_lem =
      let top : bit_at bin 31 ≡ i_field bin / 2 ^ 11 =
        omega (arith, bit_at_lem bin 31 (omega arith)) in
      extended 11 (bit_at bin 31) (extract bin 20 31) (i_field bin) (omega arith)
        (extract_lem bin 20 31 (omega arith) (omega arith)) (omega arith) top

  s_join : bit_or (shl (extract bin 25 31) 5) (extract bin 7 11) ≡ s_field bin
  s_join =
      let high : extract bin 25 31 ≡ bits bin 25 7 =
        extract_lem bin 25 31 (omega arith) (omega arith) in
      let low : extract bin 7 11 ≡ bits bin 7 5 =
        extract_lem bin 7 11 (omega arith) (omega arith) in
      let shifted : shl (extract bin 25 31) 5 ≡ bits bin 25 7 * 2 ^ 5 = omega (arith, high) in
      rw (shifted, low) (bit_or-low_field 5 (bits bin 25 7) (bits bin 7 5) (omega arith))

  s_imm_lem : signed 31 (s_imm bin (bit_at bin 31)) ≡ signed 11 (s_field bin)
  unfolding s_imm
  s_imm_lem =
      extended 11 (bit_at bin 31) (bit_or (shl (extract bin 25 31) 5) (extract bin 7 11))
        (s_field bin) (omega arith) s_join (omega arith)
        (omega (arith, bit_at_lem bin 31 (omega arith)))

  -- Three fields beside each other, from the low one up.
  joined :
      (k1 k2 a b c : ℕ)
      → a < 2 ^ k1
      → a + b * 2 ^ k1 < 2 ^ k2
      → bit_or (bit_or a (b * 2 ^ k1)) (c * 2 ^ k2) ≡ a + b * 2 ^ k1 + c * 2 ^ k2
  joined k1 k2 a b c h g =
      rw (bit_or-high_field k1 b a h) (bit_or-high_field k2 c (a + b * 2 ^ k1) g)

  b_join :
      bit_or
        (bit_or
          (bit_or (shl (extract bin 8 11) 1) (shl (extract bin 25 30) 5))
          (shl (bit_at bin 7) 11))
        (shl (bit_at bin 31) 12)
      ≡ b_field bin
  b_join =
      let e1 : shl (extract bin 8 11) 1 ≡ bits bin 8 4 * 2 =
        omega (arith, extract_lem bin 8 11 (omega arith) (omega arith)) in
      let e2 : shl (extract bin 25 30) 5 ≡ bits bin 25 6 * 2 ^ 5 =
        omega (arith, extract_lem bin 25 30 (omega arith) (omega arith)) in
      let e3 : shl (bit_at bin 7) 11 ≡ bits bin 7 1 * 2 ^ 11 =
        omega (arith, bit_at_lem bin 7 (omega arith)) in
      let e4 : shl (bit_at bin 31) 12 ≡ bits bin 31 1 * 2 ^ 12 =
        omega (arith, bit_at_lem bin 31 (omega arith)) in
      rw
        (
          e1,
          e2,
          e3,
          e4,
          joined 5 11 (bits bin 8 4 * 2) (bits bin 25 6) (bits bin 7 1) (omega arith) (omega arith),
        )
        (bit_or-high_field 12 (bits bin 31 1) _ (omega arith))

  b_imm_lem : signed 31 (b_imm bin (bit_at bin 31)) ≡ signed 12 (b_field bin)
  unfolding b_imm
  b_imm_lem =
      extended 12 (bit_at bin 31) _ (b_field bin) (omega arith) b_join (omega arith)
        (omega (arith, bit_at_lem bin 31 (omega arith)))

  j_join :
      bit_or
        (bit_or
          (bit_or (shl (extract bin 12 19) 12) (shl (bit_at bin 20) 11))
          (shl (extract bin 21 30) 1))
        (shl (bit_at bin 31) 20)
      ≡ j_field bin
  j_join =
      let e1 : shl (extract bin 12 19) 12 ≡ bits bin 12 8 * 2 ^ 12 =
        omega (arith, extract_lem bin 12 19 (omega arith) (omega arith)) in
      let e2 : shl (bit_at bin 20) 11 ≡ bits bin 20 1 * 2 ^ 11 =
        omega (arith, bit_at_lem bin 20 (omega arith)) in
      let e3 : shl (extract bin 21 30) 1 ≡ bits bin 21 10 * 2 =
        omega (arith, extract_lem bin 21 30 (omega arith) (omega arith)) in
      let e4 : shl (bit_at bin 31) 20 ≡ bits bin 31 1 * 2 ^ 20 =
        omega (arith, bit_at_lem bin 31 (omega arith)) in
      let upper : bits bin 12 8 * 2 ^ 12 + bits bin 20 1 * 2 ^ 11
          ≡ (bits bin 12 8 * 2 + bits bin 20 1) * 2 ^ 11 =
        omega arith in
      rw
        (
          e1,
          e2,
          e3,
          e4,
          bit_or-low_field 12 (bits bin 12 8) (bits bin 20 1 * 2 ^ 11) (omega arith),
          upper,
          bit_or-low_field 11 (bits bin 12 8 * 2 + bits bin 20 1) (bits bin 21 10 * 2)
              (omega arith),
        )
        (bit_or-high_field 20 (bits bin 31 1) _ (omega arith) ∙ omega arith)

  j_imm_lem : signed 31 (j_imm bin (bit_at bin 31)) ≡ signed 20 (j_field bin)
  unfolding j_imm
  j_imm_lem =
      extended 20 (bit_at bin 31) _ (j_field bin) (omega arith) j_join (omega arith)
        (omega (arith, bit_at_lem bin 31 (omega arith)))

  -- The immediates of a 32-bit word are the signed numbers that the instruction formats write into
  -- it: the field of the `I` format, and those of the `S`, `B` and `J` formats put together from
  -- their pieces.
  pub immediates_signed :
      (signed 31 (i_imm (bit_at bin 31) (extract bin 20 31)) ≡ signed 11 (i_field bin))
      × (signed 31 (s_imm bin (bit_at bin 31)) ≡ signed 11 (s_field bin))
      × (signed 31 (b_imm bin (bit_at bin 31)) ≡ signed 12 (b_field bin))
      × (signed 31 (j_imm bin (bit_at bin 31)) ≡ signed 20 (j_field bin))
  immediates_signed = (i_imm_lem, s_imm_lem, b_imm_lem, j_imm_lem)
