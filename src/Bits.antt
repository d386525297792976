-- ===== src/Bits.antt =====
-- Laws of `&` and `|` at variables, for the fields of core_sim/src/bin.rs.
use Prim.Native.Nat.{digits, bitwise, bit_and-bitwise, bit_or-bitwise}
use native.Mathlib.Nat.{pow-suc, one-le-pow, mod-lt, div-add-mod'}
use cpuex2022_7_simulator.Common.{
  ℕ, zero, suc, ◌+◌, ◌-◌, ◌*◌, ◌/◌, ◌%◌, ◌^◌, ◌≤◌, ◌<◌, min, max, bit_and, bit_or, ◌≡◌, refl, sym,
  ap, ◌∙◌, arith,
}

-- `bitwise` recurs on binary digits with its first operand as fuel: any fuel that is enough
-- gives the same digits.
module _ (rest : ℕ → ℕ) (digit : ℕ → ℕ → ℕ) where
  fuel_irrelevant :
      (f g a b : ℕ) → a ≤ f → a ≤ g → digits rest digit f a b ≡ digits rest digit g a b
  fuel_irrelevant zero zero a b p q = refl
  fuel_irrelevant zero (suc g) zero b p q = refl
  fuel_irrelevant zero (suc g) (suc a) b p q = absurd (omega arith)
  fuel_irrelevant (suc f) zero zero b p q = refl
  fuel_irrelevant (suc f) zero (suc a) b p q = absurd (omega arith)
  fuel_irrelevant (suc f) (suc g) zero b p q = refl
  fuel_irrelevant (suc f) (suc g) (suc a) b p q =
      rw (fuel_irrelevant f g (suc a / 2) (b / 2) (omega arith) (omega arith))

  bitwise_low :
      (a b : ℕ)
      → bitwise rest digit (suc a) b
        ≡ bitwise rest digit (suc a / 2) (b / 2) * 2 + digit (suc a % 2) (b % 2)
  bitwise_low a b =
      omega (arith, fuel_irrelevant a (suc a / 2) (suc a / 2) (b / 2) (omega arith) (omega arith))

-- The lowest digit of `&` and of `|`.
pub bit_and_low : (a b : ℕ) → bit_and a b ≡ bit_and (a / 2) (b / 2) * 2 + min (a % 2) (b % 2)
bit_and_low zero b = omega (arith, bit_and-bitwise 0 b, bit_and-bitwise 0 (b / 2))
bit_and_low (suc a) b = omega (
  arith,
  bit_and-bitwise (suc a) b,
  bit_and-bitwise (suc a / 2) (b / 2),
  bitwise_low (λ y. 0) min a b,
)

pub bit_or_low : (a b : ℕ) → bit_or a b ≡ bit_or (a / 2) (b / 2) * 2 + max (a % 2) (b % 2)
bit_or_low zero b = omega (arith, bit_or-bitwise 0 b, bit_or-bitwise 0 (b / 2))
bit_or_low (suc a) b = omega (
  arith,
  bit_or-bitwise (suc a) b,
  bit_or-bitwise (suc a / 2) (b / 2),
  bitwise_low (λ y. y) max a b,
)

and-zero : (n a : ℕ) → a ≤ n → bit_and a 0 ≡ 0
and-zero zero zero h = refl
and-zero zero (suc a) h = absurd (omega arith)
and-zero (suc n) zero h = refl
and-zero (suc n) (suc a) h =
    omega (arith, bit_and_low (suc a) 0, and-zero n (suc a / 2) (omega arith))

mul-two-pow : (q k : ℕ) → q * 2 ^ suc k ≡ 2 * (q * 2 ^ k)
mul-two-pow q k = omega (arith, ap (λ (t : ℕ). q * t) (pow-suc 2 k))

and-low_mask : (k q r : ℕ) → r < 2 ^ k → bit_and (q * 2 ^ k + r) (2 ^ k - 1) ≡ r
and-low_mask zero q r h = omega (arith, and-zero (q * 1 + r) (q * 1 + r))
and-low_mask (suc k) q r h = ground (
  arith,
  bit_and_low (q * 2 ^ suc k + r) (2 ^ suc k - 1),
  mul-two-pow q k,
  pow-suc 2 k,
  and-low_mask k q (r / 2) (omega (arith, pow-suc 2 k)),
)

and-field :
    (lo k q r s : ℕ)
    → r < 2 ^ k
    → s < 2 ^ lo
    → bit_and ((q * 2 ^ k + r) * 2 ^ lo + s) ((2 ^ k - 1) * 2 ^ lo) ≡ r * 2 ^ lo
and-field zero k q r s h g = ground (arith, and-low_mask k q r h)
and-field (suc lo) k q r s h g = ground (
  arith,
  bit_and_low ((q * 2 ^ k + r) * 2 ^ suc lo + s) ((2 ^ k - 1) * 2 ^ suc lo),
  mul-two-pow (q * 2 ^ k + r) lo,
  mul-two-pow (2 ^ k - 1) lo,
  mul-two-pow r lo,
  pow-suc 2 lo,
  and-field lo k q r (s / 2) h (omega (arith, pow-suc 2 lo)),
)

-- A mask of `k` ones from bit `lo` on keeps that field.
pub bit_and-field : (lo k a : ℕ) → bit_and a ((2 ^ k - 1) * 2 ^ lo) ≡ a / 2 ^ lo % 2 ^ k * 2 ^ lo
bit_and-field lo k a =
    ap (λ (t : ℕ). bit_and t ((2 ^ k - 1) * 2 ^ lo)) (sym split)
    ∙ and-field lo k (a / 2 ^ lo / 2 ^ k) (a / 2 ^ lo % 2 ^ k) (a % 2 ^ lo)
        (mod-lt _ (one-le-pow k 2 (omega arith))) (mod-lt _ (one-le-pow lo 2 (omega arith)))
  where
    split : (a / 2 ^ lo / 2 ^ k * 2 ^ k + a / 2 ^ lo % 2 ^ k) * 2 ^ lo + a % 2 ^ lo ≡ a
    split = rw (div-add-mod', div-add-mod') refl

or-zero : (n a : ℕ) → a ≤ n → bit_or a 0 ≡ a
or-zero zero zero h = refl
or-zero zero (suc a) h = absurd (omega arith)
or-zero (suc n) zero h = refl
or-zero (suc n) (suc a) h = omega (arith, bit_or_low (suc a) 0, or-zero n (suc a / 2) (omega arith))

-- Disjoint fields under `|` add up, the low one on either side.
pub bit_or-low_field : (k q r : ℕ) → r < 2 ^ k → bit_or (q * 2 ^ k) r ≡ q * 2 ^ k + r
bit_or-low_field zero q r h = ground (arith, or-zero q q)
bit_or-low_field (suc k) q r h = ground (
  arith,
  bit_or_low (q * 2 ^ suc k) r,
  mul-two-pow q k,
  pow-suc 2 k,
  bit_or-low_field k q (r / 2) (omega (arith, pow-suc 2 k)),
)

pub bit_or-high_field : (k q r : ℕ) → r < 2 ^ k → bit_or r (q * 2 ^ k) ≡ r + q * 2 ^ k
bit_or-high_field zero q r h = ground (arith, bit_or-bitwise 0 q)
bit_or-high_field (suc k) q r h = ground (
  arith,
  bit_or_low r (q * 2 ^ suc k),
  mul-two-pow q k,
  pow-suc 2 k,
  bit_or-high_field k q (r / 2) (omega (arith, pow-suc 2 k)),
)

pub bit_and-low : (k a : ℕ) → bit_and a (2 ^ k - 1) ≡ a % 2 ^ k
bit_and-low k a = ground (arith, bit_and-field 0 k a)
