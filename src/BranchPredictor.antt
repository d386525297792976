-- ===== src/BranchPredictor.antt =====
-- core_sim/src/branch_predictor.rs: two-bit saturating counters, chosen by the address. An index
-- past the end of the vector panics.
pub mod History
pub mod Safe
use cpuex2022_7_simulator.Common.{
  ℕ, ◌%◌, Bool, true, false, List, Option, none, some, get_elem?, set, replicate, if◌then◌else◌,
  ◌||◌, Exec, done, abort, ◌>>=◌, ◌>>◌, gets, Result, ok, panic, lift, ◌==◌,
}

abbrev pub num_counters : ℕ
num_counters = 64

pub data SaturatingCounter : Type 0 where
  strongly_untaken weakly_untaken weakly_taken strongly_taken : SaturatingCounter

unfoldable pub next : SaturatingCounter → SaturatingCounter
next strongly_untaken = weakly_untaken
next weakly_untaken = weakly_taken
next weakly_taken = strongly_taken
next strongly_taken = strongly_taken

unfoldable pub prev : SaturatingCounter → SaturatingCounter
prev strongly_untaken = strongly_untaken
prev weakly_untaken = strongly_untaken
prev weakly_taken = weakly_untaken
prev strongly_taken = weakly_taken

pub record BranchPredictor : Type 0 where
  pub inner : List SaturatingCounter

unfoldable pub new : ℕ → BranchPredictor
new ncounters = record { inner = replicate ncounters weakly_taken }

-- `counter_state == StronglyTaken || counter_state == WeaklyTaken`
unfoldable pub is_taken : SaturatingCounter → Bool
is_taken strongly_taken = true
is_taken weakly_taken = true
is_taken _ = false

unfoldable pub predict : {E : Type 0} → ℕ → ℕ → Exec BranchPredictor E Bool
unfolding is_taken
predict ncounters addr b = elim (get_elem? b.inner (addr % ncounters)) [
  | none ↦ abort
  | some counter ↦ done (is_taken counter) b
]

unfoldable pub moved : Bool → SaturatingCounter → SaturatingCounter
unfolding next prev
moved result counter = if result then next counter else prev counter

unfoldable pub update_state : {E : Type 0} → ℕ → ℕ → Bool → Exec BranchPredictor E (Unit {0})
unfolding moved
update_state ncounters addr result b = elim (get_elem? b.inner (addr % ncounters)) [
  | none ↦ abort
  | some counter ↦
      done tt (record b { inner = set b.inner (addr % ncounters) (moved result counter) })
]
