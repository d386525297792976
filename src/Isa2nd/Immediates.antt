-- ===== src/Isa2nd/Immediates.antt =====
-- The immediates of core_sim/src/decode_instr_2nd.rs are put together from the pieces they are cut
-- into.
use cpuex2022_7_simulator.Common.{
  ℕ, ◌+◌, ◌*◌, ◌/◌, ◌%◌, ◌^◌, ◌-◌, ◌≡◌, inl, inr, ◌==◌, arith, refl, shl, bit_or, for_below,
  for_below-lt, ==_iff, true,
}
use cpuex2022_7_simulator.Bits.{bit_or-low_field, bit_and-field}
use cpuex2022_7_simulator.Bin.{mask, bit_range, sign_extend, bit_at}
use cpuex2022_7_simulator.Bin.Fields.{bit_range_lem, sign_extend_sum, bit_at_lem}
use cpuex2022_7_simulator.Isa2nd.Imm.{compose_3, compose_4, compose_6}
use cpuex2022_7_simulator.Isa2nd.Formats.{p_imm2}
use cpuex2022_7_simulator.Isa2nd.Encode.{IsSigned, IsJump, upper_piece, lower_piece, branch_piece}

abbrev high : ℕ → ℕ
high imm = upper_piece imm / 64

abbrev mid : ℕ → ℕ
mid imm = upper_piece imm % 64

-- The sign is put back above the low bits.
signed_again_12 :
    (imm low : ℕ) → IsSigned 12 imm → low ≡ imm % 2 ^ 12 → sign_extend 12 (high imm) low ≡ imm
signed_again_12 imm low s e =
    rw (sign_extend_sum 12 (high imm) low (omega arith) (omega (arith, e))) (ground (arith, s, e))

signed_again_14 :
    (imm low : ℕ) → IsSigned 14 imm → low ≡ imm % 2 ^ 14 → sign_extend 14 (high imm) low ≡ imm
signed_again_14 imm low s e =
    rw (sign_extend_sum 14 (high imm) low (omega arith) (omega (arith, e))) (ground (arith, s, e))

signed_again_23 :
    (imm low : ℕ) → IsSigned 23 imm → low ≡ imm % 2 ^ 23 → sign_extend 23 (high imm) low ≡ imm
signed_again_23 imm low s e =
    rw (sign_extend_sum 23 (high imm) low (omega arith) (omega (arith, e))) (ground (arith, s, e))

mask_lem : (x : ℕ) → (mask x 0 1 ≡ x % 4) × (mask x 2 5 ≡ x / 4 % 16 * 4)
unfolding mask
mask_lem x = (
  rw (bit_range_lem 0 1 (omega arith) (omega arith), bit_and-field 0 2 x) (omega arith),
  rw (bit_range_lem 2 5 (omega arith) (omega arith), bit_and-field 2 4 x) refl,
)

pub compose_3-pieces :
    (imm : ℕ) → IsSigned 12 imm → compose_3 (high imm) (mid imm) (lower_piece imm) ≡ imm
unfolding compose_3
compose_3-pieces imm s =
    let shifted : shl (mid imm) 6 ≡ imm / 64 % 64 * 2 ^ 6 = omega arith in
    rw (shifted, bit_or-low_field 6 (imm / 64 % 64) (lower_piece imm) (omega arith))
      (signed_again_12 imm _ s (omega arith))

pub compose_4-pieces :
    (imm : ℕ) → IsJump 14 imm → compose_4 (high imm) (mid imm) (branch_piece imm) ≡ imm
unfolding compose_4
compose_4-pieces imm (s, whole) =
    let (m1, m2) = mask_lem (branch_piece imm) in
    let e1 : shl (mask (branch_piece imm) 0 1) 12 ≡ imm / 2 ^ 12 % 4 * 2 ^ 12 = omega (arith, m1) in
    let e2 : shl (mid imm) 6 ≡ imm / 64 % 64 * 2 ^ 6 = omega arith in
    let e3 : mask (branch_piece imm) 2 5 ≡ imm / 4 % 16 * 4 = omega (arith, m2) in
    let upper : imm / 2 ^ 12 % 4 * 2 ^ 12 + imm / 64 % 64 * 2 ^ 6
        ≡ (imm / 2 ^ 12 % 4 * 2 ^ 6 + imm / 64 % 64) * 2 ^ 6 =
      omega arith in
    rw
      (
        e1,
        e2,
        e3,
        bit_or-low_field 12 (imm / 2 ^ 12 % 4) (imm / 64 % 64 * 2 ^ 6) (omega arith),
        upper,
        bit_or-low_field 6 (imm / 2 ^ 12 % 4 * 2 ^ 6 + imm / 64 % 64) (imm / 4 % 16 * 4)
            (omega arith),
      )
      (signed_again_14 imm _ s (omega (arith, whole)))

pub compose_6-pieces :
    (imm : ℕ)
    → IsJump 23 imm
    → compose_6
        (high imm)
        (mid imm)
        (branch_piece imm)
        (imm / 2 ^ 17 % 2 ^ 6)
        (imm / 2 ^ 14 % 2 ^ 3)
      ≡ imm
unfolding compose_6
compose_6-pieces imm (s, whole) =
    let (m1, m2) = mask_lem (branch_piece imm) in
    let a = imm / 2 ^ 17 % 2 ^ 6 in
    let b = imm / 2 ^ 14 % 2 ^ 3 in
    let c = imm / 2 ^ 12 % 2 ^ 2 in
    let d = imm / 2 ^ 6 % 2 ^ 6 in
    let e1 : shl (mask (branch_piece imm) 0 1) 12 ≡ c * 2 ^ 12 = omega (arith, m1) in
    let e2 : shl (mid imm) 6 ≡ d * 2 ^ 6 = omega arith in
    let e3 : mask (branch_piece imm) 2 5 ≡ imm / 4 % 16 * 4 = omega (arith, m2) in
    let e4 : shl a 17 ≡ a * 2 ^ 17 = omega arith in
    let e5 : shl b 14 ≡ b * 2 ^ 14 = omega arith in
    let u1 : a * 2 ^ 17 + b * 2 ^ 14 ≡ (a * 2 ^ 3 + b) * 2 ^ 14 = omega arith in
    let u2 : (a * 2 ^ 3 + b) * 2 ^ 14 + c * 2 ^ 12 ≡ ((a * 2 ^ 3 + b) * 2 ^ 2 + c) * 2 ^ 12 =
      omega arith in
    let u3 : ((a * 2 ^ 3 + b) * 2 ^ 2 + c) * 2 ^ 12 + d * 2 ^ 6
        ≡ (((a * 2 ^ 3 + b) * 2 ^ 2 + c) * 2 ^ 6 + d) * 2 ^ 6 =
      omega arith in
    rw
      (
        e1,
        e2,
        e3,
        e4,
        e5,
        bit_or-low_field 17 a (b * 2 ^ 14) (omega arith),
        u1,
        bit_or-low_field 14 (a * 2 ^ 3 + b) (c * 2 ^ 12) (omega arith),
        u2,
        bit_or-low_field 12 ((a * 2 ^ 3 + b) * 2 ^ 2 + c) (d * 2 ^ 6) (omega arith),
        u3,
        bit_or-low_field 6 (((a * 2 ^ 3 + b) * 2 ^ 2 + c) * 2 ^ 6 + d) (imm / 4 % 16 * 4)
            (omega arith),
      )
      (signed_again_23 imm _ s (omega (arith, whole)))

filled : for_below 32 (λ r. bit_or (bit_range 5 31) (32 + r) == 2 ^ 32 - 32 + r) ≡ true
unfolding for_below bit_range
filled = refl

pub p_imm2-piece : (imm : ℕ) → IsSigned 5 imm → p_imm2 (lower_piece imm) ≡ imm
unfolding p_imm2 sign_extend
p_imm2-piece imm (inl below) =
    let sign : bit_at (imm % 2 ^ 6) 5 ≡ 0 =
      omega (arith, bit_at_lem (imm % 2 ^ 6) 5 (omega arith)) in
    rw sign (omega arith)
p_imm2-piece imm (inr (above, fits)) =
    let sign : bit_at (imm % 2 ^ 6) 5 ≡ 1 =
      omega (arith, bit_at_lem (imm % 2 ^ 6) 5 (omega arith), above, fits) in
    let low : imm % 2 ^ 6 ≡ 32 + imm % 32 = omega (arith, above, fits) in
    let sum = (==_iff _ _).0 (for_below-lt 32 _ (imm % 32) filled (omega arith)) in
    rw (sign, low, sum) (omega (arith, above, fits))
