-- ===== src/Common/Range.antt =====
-- Statements about every number below a bound, by evaluation.
use Prim.Native.Nat.{ℕ, zero, suc, ◌<◌}
use mathlib.Core.Path.{◌≡◌}
use mathlib.Core.Bool.{Bool, true, ◌&&◌}
use native.Mathlib.Omega.{arith}

unfoldable pub for_below : ℕ → (ℕ → Bool) → Bool
for_below zero test = true
for_below (suc n) test = for_below n test && test n

pub for_below-lt :
    (n : ℕ) (test : ℕ → Bool) (x : ℕ) → for_below n test ≡ true → x < n → test x ≡ true
unfolding for_below
for_below-lt zero test x h lt = absurd (omega arith)
for_below-lt (suc n) test x h lt = ground (arith, for_below-lt n test x)
