-- ===== src/Bin/Fields.antt =====
-- What the bit ranges of core_sim/src/bin.rs mean as numbers.
use native.Mathlib.Nat.{mul-div_cancel, one-le-pow}
use cpuex2022_7_simulator.Common.{
  ℕ, ◌+◌, ◌-◌, ◌*◌, ◌/◌, ◌%◌, ◌^◌, ◌≤◌, ◌<◌, ◌≡◌, refl, arith, true, Bool, leb, ◌==◌, ==_iff,
  if◌then◌else◌, for_below, for_below-lt,
}
use cpuex2022_7_simulator.Bits.{bit_and-field, bit_and-low, bit_or-low_field}
use cpuex2022_7_simulator.Bin.{
  bit_range, bit_range_lower, mask, mask_lower, extract, bit_at, sign_extend,
}

ones : ℕ → ℕ → ℕ
ones start end = (2 ^ (end + 1 - start) - 1) * 2 ^ start

range_test : ℕ → ℕ → Bool
range_test start end = if leb start end then bit_range start end == ones start end else true

range_table : for_below 32 (λ start. for_below 32 (λ end. range_test start end)) ≡ true
unfolding for_below range_test bit_range ones
range_table = refl

lower_table : for_below 32 (λ index. bit_range_lower index == 2 ^ (index + 1) - 1) ≡ true
unfolding for_below bit_range_lower
lower_table = refl

-- A range of a word is a block of ones from its start on.
pub bit_range_lem :
    (start end : ℕ)
    → start ≤ end
    → end < 32
    → bit_range start end ≡ (2 ^ (end + 1 - start) - 1) * 2 ^ start
unfolding range_test ones
bit_range_lem start end h g =
    let row =
      for_below-lt 32 (λ s. for_below 32 (λ e. range_test s e)) start range_table (omega arith) in
    let cell = for_below-lt 32 (λ e. range_test start e) end row g in ground arith

pub bit_range_lower_lem : (index : ℕ) → index < 32 → bit_range_lower index ≡ 2 ^ (index + 1) - 1
bit_range_lower_lem index h = (==_iff _ _).0 (for_below-lt 32 _ index lower_table h)

pub extract_lem :
    (bin start end : ℕ)
    → start ≤ end
    → end < 32
    → extract bin start end ≡ bin / 2 ^ start % 2 ^ (end + 1 - start)
unfolding extract mask
extract_lem bin start end h g =
    let low : start % 32 ≡ start = omega arith in
    rw (bit_range_lem start end h g, bit_and-field, low)
      (mul-div_cancel _ (one-le-pow start 2 (omega arith)))

pub mask_lower_lem : (bin index : ℕ) → index < 32 → mask_lower bin index ≡ bin % 2 ^ (index + 1)
unfolding mask_lower
mask_lower_lem bin index h = rw (bit_range_lower_lem index h) (bit_and-low (index + 1) bin)

pub bit_at_lem : (bin index : ℕ) → index < 32 → bit_at bin index ≡ bin / 2 ^ index % 2
unfolding bit_at
bit_at_lem bin index h =
    let low : index % 32 ≡ index = omega arith in rw low (bit_and-low 1 (bin / 2 ^ index))

-- Sign extension of a `bit`-bit field, as numbers.
pub sign_extend_sum :
    (bit sign imm : ℕ)
    → bit < 32
    → imm < 2 ^ bit
    → sign_extend bit sign imm ≡ (if sign == 0 then imm else (2 ^ (32 - bit) - 1) * 2 ^ bit + imm)
unfolding sign_extend
sign_extend_sum bit sign imm h fits =
    rw (bit_range_lem bit 31 (omega arith) (omega arith))
      (rw (bit_or-low_field bit (2 ^ (32 - bit) - 1) imm fits) refl)
