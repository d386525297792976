-- ===== src/Interactive/Watches.antt =====
-- The lists of what is watched, in cli/src/interactive.rs.
use cpuex2022_7_simulator.Common.{
  ℕ, ◌+◌, ◌-◌, ◌≤◌, ◌≡◌, refl, arith, Bool, true, false, List, [], ◌∷◌, ◌++◌, ◌==◌, if◌then◌else◌,
}
use cpuex2022_7_simulator.Register.{RegId, FRegId}
use cpuex2022_7_simulator.Sim.Options.{Addr, Watchings}
use cpuex2022_7_simulator.Interactive.{
  WatchingKind, reg, freg, mem_addr, Session, contains, push_new, remove_first, watch_add,
  watch_remove,
}

-- How often a number stands in a list.
abbrev pub count : ℕ → List ℕ → ℕ
count k [] = 0
count k (x ∷ xs) = (if x == k then 1 else 0) + count k xs

contains-count : (k : ℕ) (xs : List ℕ) → contains k xs ≡ (if count k xs == 0 then false else true)
unfolding contains
contains-count k [] = refl
contains-count k (x ∷ xs) = ground (arith, contains-count k xs)

count-append :
    (k j : ℕ) (xs : List ℕ) → count k (xs ++ (j ∷ [])) ≡ count k xs + (if j == k then 1 else 0)
count-append k j [] = ground arith
count-append k j (x ∷ xs) = ground (arith, count-append k j xs)

count-push_new :
    (k j : ℕ) (xs : List ℕ)
    → count j xs ≤ 1
    → count k (push_new j xs) ≡ (if j == k then 1 else count k xs)
unfolding push_new
count-push_new k j xs h = ground (arith, contains-count j xs, count-append k j xs)

count-remove_first :
    (k j : ℕ) (xs : List ℕ)
    → count k (remove_first j xs) ≡ (if j == k then count k xs - 1 else count k xs)
unfolding remove_first
count-remove_first k j [] = ground arith
count-remove_first k j (x ∷ xs) = ground (arith, count-remove_first k j xs)

removed_count :
    (k j : ℕ) (xs : List ℕ)
    → count j xs ≤ 1
    → count k (remove_first j xs) ≡ (if j == k then 0 else count k xs)
removed_count k j xs h = ground (arith, count-remove_first k j xs)

-- What can be watched by itself.
pub data Target : Type 0 where
  on_reg : RegId → Target
  on_freg : FRegId → Target
  on_word : Addr → Target

abbrev pub as_kind : Target → WatchingKind
as_kind (on_reg r) = reg r
as_kind (on_freg r) = freg r
as_kind (on_word a) = mem_addr a

abbrev pub same : Target → Target → Bool
same (on_reg r) (on_reg q) = r == q
same (on_freg r) (on_freg q) = r == q
same (on_word a) (on_word b) = a == b
same _ _ = false

-- How often a target stands in its list.
abbrev pub times : Target → Watchings → ℕ
times (on_reg r) w = count r w.reg
times (on_freg r) w = count r w.freg
times (on_word a) w = count a w.memory

module _ {F I O : Type 0} where
  times-watch_add :
      (t u : Target) (s : Session F I O)
      → times t s.opt.watchings ≤ 1
      → times u (watch_add (as_kind t) s).opt.watchings
        ≡ (if same t u then 1 else times u s.opt.watchings)
  unfolding watch_add
  times-watch_add (on_reg r) (on_reg q) s h = count-push_new q r s.opt.watchings.reg h
  times-watch_add (on_freg r) (on_freg q) s h = count-push_new q r s.opt.watchings.freg h
  times-watch_add (on_word a) (on_word b) s h = count-push_new b a s.opt.watchings.memory h
  times-watch_add (on_reg r) (on_freg q) s h = refl
  times-watch_add (on_reg r) (on_word q) s h = refl
  times-watch_add (on_freg r) (on_reg q) s h = refl
  times-watch_add (on_freg r) (on_word q) s h = refl
  times-watch_add (on_word r) (on_reg q) s h = refl
  times-watch_add (on_word r) (on_freg q) s h = refl

  times-watch_remove :
      (t u : Target) (s : Session F I O)
      → times t s.opt.watchings ≤ 1
      → times u (watch_remove (as_kind t) s).opt.watchings
        ≡ (if same t u then 0 else times u s.opt.watchings)
  unfolding watch_remove
  times-watch_remove (on_reg r) (on_reg q) s h = removed_count q r s.opt.watchings.reg h
  times-watch_remove (on_freg r) (on_freg q) s h = removed_count q r s.opt.watchings.freg h
  times-watch_remove (on_word a) (on_word b) s h = removed_count b a s.opt.watchings.memory h
  times-watch_remove (on_reg r) (on_freg q) s h = refl
  times-watch_remove (on_reg r) (on_word q) s h = refl
  times-watch_remove (on_freg r) (on_reg q) s h = refl
  times-watch_remove (on_freg r) (on_word q) s h = refl
  times-watch_remove (on_word r) (on_reg q) s h = refl
  times-watch_remove (on_word r) (on_freg q) s h = refl

  -- Where a register or a word is watched at most once, it is watched once after `watch` and not at
  -- all after `unwatch`, and neither changes whether another one is.
  pub watch_once :
      (t u : Target) (s : Session F I O)
      → times t s.opt.watchings ≤ 1
      → (times u (watch_add (as_kind t) s).opt.watchings
          ≡ (if same t u then 1 else times u s.opt.watchings))
        × (times u (watch_remove (as_kind t) s).opt.watchings
            ≡ (if same t u then 0 else times u s.opt.watchings))
  watch_once t u s h = (times-watch_add t u s h, times-watch_remove t u s h)
