-- ===== src/BranchPredictor/History.antt =====
-- The branch predictor against the history of the branches it has been told of.
use native.Mathlib.Nat.{mod-lt}
use cpuex2022_7_simulator.Common.{
  zero, ℕ, ◌+◌, ◌-◌, ◌<◌, ◌≤◌, suc, true, false, ◌%◌, ◌≡◌, refl, ◌∙◌, arith, Bool, List, [], ◌∷◌,
  some, get_elem?, set, ◌==◌, leb, if◌then◌else◌, Outcome, done, get_elem?-set_self,
  get_elem?-set_ne, length, length-set, get_elem?-replicate, length-replicate, min,
}
use cpuex2022_7_simulator.BranchPredictor.{
  SaturatingCounter, strongly_untaken, weakly_untaken, weakly_taken, strongly_taken, next, prev,
  BranchPredictor, new, is_taken, predict, moved, update_state,
}

-- The level of a slot after the branches of `history`, latest first, each with its address and
-- whether it was taken: it starts at 2 and counts up to 3 and down to 0.
abbrev pub counted : Bool → ℕ → ℕ
counted taken l = if taken then min 3 (l + 1) else l - 1

abbrev pub level_of : ℕ → ℕ → List (ℕ × Bool) → ℕ
level_of n slot [] = 2
level_of n slot ((addr, taken) ∷ earlier) =
    if addr % n == slot then counted taken (level_of n slot earlier) else level_of n slot earlier

abbrev pub of_level : ℕ → SaturatingCounter
of_level zero = strongly_untaken
of_level (suc zero) = weakly_untaken
of_level (suc (suc zero)) = weakly_taken
of_level (suc (suc (suc l))) = strongly_taken

abbrev pub counter_of : ℕ → ℕ → List (ℕ × Bool) → SaturatingCounter
counter_of n slot history = of_level (level_of n slot history)

too_high : (l : ℕ) → ¬ (suc (suc (suc (suc l))) ≤ 3)
too_high l h = omega (arith, h)

moved-of_level :
    (taken : Bool) (l : ℕ) → l ≤ 3 → moved taken (of_level l) ≡ of_level (counted taken l)
unfolding moved next prev
moved-of_level true zero h = refl
moved-of_level true (suc zero) h = refl
moved-of_level true (suc (suc zero)) h = refl
moved-of_level true (suc (suc (suc zero))) h = refl
moved-of_level false zero h = refl
moved-of_level false (suc zero) h = refl
moved-of_level false (suc (suc zero)) h = refl
moved-of_level false (suc (suc (suc zero))) h = refl
moved-of_level taken (suc (suc (suc (suc l)))) h = elim (too_high l h) [ ]

is_taken-of_level : (l : ℕ) → l ≤ 3 → is_taken (of_level l) ≡ leb 2 l
unfolding is_taken
is_taken-of_level zero h = refl
is_taken-of_level (suc zero) h = refl
is_taken-of_level (suc (suc zero)) h = refl
is_taken-of_level (suc (suc (suc l))) h = ground arith

level_of-le : (n slot : ℕ) (history : List (ℕ × Bool)) → level_of n slot history ≤ 3
level_of-le n slot [] = omega arith
level_of-le n slot ((addr, taken) ∷ earlier) = ground (arith, level_of-le n slot earlier)

pub record Represents (n : ℕ) (history : List (ℕ × Bool)) (b : BranchPredictor) : Type 0 where
  pub size : length b.inner ≡ n
  pub counters : (slot : ℕ) → slot < n → get_elem? b.inner slot ≡ some (counter_of n slot history)

pub new-Represents : (n : ℕ) → Represents n [] (new n)
unfolding new
new-Represents n = record {
  size = length-replicate n weakly_taken;
  counters = λ slot h. get_elem?-replicate n slot weakly_taken h;
}

-- `predict` and `update_state` never panic on a predictor with a counter. The prediction is
-- whether the branches of the same slot, counted up to 3 and down to 0 from 2, stand at 2 or more,
-- and changes nothing; an update appends the branch to the history.
pub predict-update_state :
    {E : Type 0} (n : ℕ) (history : List (ℕ × Bool)) (b : BranchPredictor) (addr : ℕ) (taken : Bool)
    → 0 < n
    → Represents n history b
    → ◌≡◌ {A = Outcome BranchPredictor E Bool}
        (predict n addr b)
        (done (leb 2 (level_of n (addr % n) history)) b)
      × (b' : BranchPredictor) × ◌≡◌ {A = Outcome BranchPredictor E (Unit {0})}
          (update_state n addr taken b)
          (done tt b')
      × Represents n ((addr, taken) ∷ history) b'
unfolding predict update_state
predict-update_state n history b addr taken pos r =
    let inside : addr % n < n = mod-lt addr pos in
    (
      rw
          (
            predict,
            r.counters (addr % n) inside,
            is_taken-of_level (level_of n (addr % n) history) (level_of-le n (addr % n) history),
          )
          refl,
      record b { inner = set b.inner (addr % n) (moved taken (counter_of n (addr % n) history)) },
      rw (r.counters (addr % n) inside, update_state) refl,
      record {
        size = length-set _ _ _ ∙ r.size;
        counters = λ slot h. ground (
          arith,
          r.counters slot h,
          r.size,
          moved-of_level taken (level_of n (addr % n) history) (level_of-le n (addr % n) history),
          get_elem?-set_self b.inner (addr % n) (moved taken (counter_of n (addr % n) history)),
          get_elem?-set_ne b.inner {i = addr % n} {j = slot}
              (moved taken (counter_of n (addr % n) history)),
        );
      },
    )
