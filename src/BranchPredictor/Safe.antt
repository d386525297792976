-- ===== src/BranchPredictor/Safe.antt =====
-- The number of counters under the methods of core_sim/src/branch_predictor.rs.
use cpuex2022_7_simulator.Common.{
  ℕ, ◌<◌, ◌%◌, ◌≡◌, Bool, arith, length, length-set, get_elem?-eq-get_or, Post, returns, ◌∙◌,
}
use cpuex2022_7_simulator.BranchPredictor.{BranchPredictor, predict, update_state, weakly_taken}

abbrev HasCounters : ℕ → BranchPredictor → Type 0
HasCounters ncounters b = length b.inner ≡ ncounters

module _ {E : Type 0} (ncounters addr : ℕ) (b : BranchPredictor) (pos : 0 < ncounters)
    (h : length b.inner ≡ ncounters) where
  pub predict-Post :
      Post
        (λ (_ : Bool). HasCounters ncounters)
        (HasCounters ncounters)
        (predict {E = E} ncounters addr b)
  unfolding predict
  predict-Post =
      rw
        (
          predict,
          get_elem?-eq-get_or b.inner (addr % ncounters) weakly_taken (omega (arith, pos, h)),
        )
        (returns h)

  pub update_state-Post :
      (result : Bool)
      → Post
          (λ (_ : Unit {0}). HasCounters ncounters)
          (HasCounters ncounters)
          (update_state {E = E} ncounters addr result b)
  unfolding update_state
  update_state-Post result =
      rw
        (
          update_state,
          get_elem?-eq-get_or b.inner (addr % ncounters) weakly_taken (omega (arith, pos, h)),
        )
        (returns (length-set _ _ _ ∙ h))
