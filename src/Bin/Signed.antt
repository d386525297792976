-- ===== src/Bin/Signed.antt =====
-- Sign extension in core_sim/src/bin.rs and the signed numbers of fields.
use native.Mathlib.Nat.{pow-suc, div-eq_of_lt, div-eq_of_lt-le}
use native.Mathlib.Decide.{dec_lt}
use cpuex2022_7_simulator.Common.{
  ℕ, suc, ◌+◌, ◌-◌, ◌*◌, ◌/◌, ◌^◌, ◌≤◌, ◌<◌, ◌≡◌, refl, arith, true, ◌==◌, ==_iff, for_below,
  for_below-lt, signed,
}
use cpuex2022_7_simulator.Bin.{sign_extend}
use cpuex2022_7_simulator.Bin.Fields.{sign_extend_sum}

high_table : for_below 32 (λ bit. (2 ^ (32 - bit) - 1) * 2 ^ bit + 2 ^ bit == 2 ^ 32) ≡ true
unfolding for_below
high_table = refl

high_ones : (bit : ℕ) → bit < 32 → (2 ^ (32 - bit) - 1) * 2 ^ bit + 2 ^ bit ≡ 2 ^ 32
high_ones bit h = (==_iff _ _).0 (for_below-lt 32 _ bit high_table h)

low_table : for_below 31 (λ w. 2 ^ w + (2 ^ 31 - 2 ^ w) == 2 ^ 31) ≡ true
unfolding for_below
low_table = refl

low_fits : (w : ℕ) → w < 31 → 2 ^ w ≤ 2 ^ 31
low_fits w h =
    let e =
      (==_iff _ _).0 (for_below-lt 31 (λ w. 2 ^ w + (2 ^ 31 - 2 ^ w) == 2 ^ 31) w low_table h) in
    omega arith

-- The two signs of a field.
module _ (w imm : ℕ) (h : w < 31) where
  sign_extend_nonneg : imm < 2 ^ w → sign_extend (suc w) (imm / 2 ^ w) imm ≡ imm
  sign_extend_nonneg small =
      let zero_sign : imm / 2 ^ w ≡ 0 = div-eq_of_lt small in
      rw zero_sign (sign_extend_sum (suc w) 0 imm (omega arith) (omega (arith, pow-suc 2 w)))

  sign_extend_neg :
      2 ^ w ≤ imm
      → imm < 2 ^ suc w
      → sign_extend (suc w) (imm / 2 ^ w) imm + 2 ^ suc w ≡ 2 ^ 32 + imm
  sign_extend_neg large fits =
      let one_sign : imm / 2 ^ w ≡ 1 =
        div-eq_of_lt-le (2 ^ w) (omega arith) (omega (arith, pow-suc 2 w)) in
      rw one_sign (
        omega (
          arith,
          sign_extend_sum (suc w) 1 imm (omega arith) fits,
          high_ones (suc w) (omega arith),
        ))

-- Sign extension of a field of `w + 1` bits whose top bit is handed over as the sign gives the
-- word that stands for the same signed number.
pub signed-sign_extend :
    (w imm : ℕ)
    → w < 31
    → imm < 2 ^ suc w
    → signed 31 (sign_extend (suc w) (imm / 2 ^ w) imm) ≡ signed w imm
signed-sign_extend w imm h fits = elim (dec_lt imm (2 ^ w)) [
  | yes small ↦ rw (sign_extend_nonneg w imm h small) (ground (arith, low_fits w h))
  | no large ↦ ground (
    arith,
    sign_extend_neg w imm h (omega arith) fits,
    pow-suc 2 w,
    low_fits w h,
    high_ones (suc w) (omega arith),
  )
]
