-- ===== src/Interactive/Commands.antt =====
-- The commands of cli/src/interactive.rs that change the options of a run and the spies.
use cpuex2022_7_simulator.Common.{
  ℕ, ◌≤◌, ◌≡◌, refl, ap, sym, ◌∙◌, arith, Bool, true, false, Option, none, some, ◌==◌, ◌&&◌,
  if◌then◌else◌, inl, inr, Bool-cases, lookup, insert, delete, Map, lookup-insert_self,
  lookup-insert_ne, lookup-delete_self, lookup-delete_ne,
}
use cpuex2022_7_simulator.Memory.Watch.{
  SpyUnit, SpyWatchKind, SpyKind, memory, register_i, register_f,
}
use cpuex2022_7_simulator.Sim.Options.{BreakPoint}
use cpuex2022_7_simulator.Interactive.{
  spied_session, is_trace_enabled, all_bp, show_after, added_spy, removed_spy, ShowRegFileKind,
  Operation, add, remove, WatchingKind, reg, freg, mem_addr, reg_file, Spy, ShowKind, StaticCommand,
  update_whether_trace, show, add_bp, remove_bp, watch, spy, Session, spy_on, static_command,
  watch_add, watch_remove,
}
use cpuex2022_7_simulator.Interactive.Watches.{
  Target, on_reg, on_freg, on_word, as_kind, same, times, watch_once,
}

lookup-insert :
    {V : Type 0} (j k : ℕ) (v : V) (m : Map V)
    → lookup k (insert j v m) ≡ (if j == k then some v else lookup k m)
lookup-insert j k v m = elim (Bool-cases (j == k)) [
  | inl same ↦ let eq : j ≡ k = ground arith in rw (same, ← eq) (lookup-insert_self j v m)
  | inr other ↦ rw other (lookup-insert_ne j k v m (ground arith))
]

lookup-delete :
    {V : Type 0} (j k : ℕ) (m : Map V)
    → lookup k (delete j m) ≡ (if j == k then none else lookup k m)
lookup-delete j k m = elim (Bool-cases (j == k)) [
  | inl same ↦ let eq : j ≡ k = ground arith in rw (same, ← eq) (lookup-delete_self j m)
  | inr other ↦ rw other (lookup-delete_ne j k m (ground arith))
]

keyed_insert :
    {F : Type 0} (m : Map (BreakPoint F)) (bp : BreakPoint F)
    → ((k : ℕ) (b : BreakPoint F) → lookup k m ≡ some b → b.addr ≡ k)
    → (k : ℕ) (b : BreakPoint F) → lookup k (insert bp.addr bp m) ≡ some b
    → b.addr ≡ k
keyed_insert m bp h k b e = ground (arith, lookup-insert bp.addr k bp m, h k b)

keyed_delete :
    {F : Type 0} (m : Map (BreakPoint F)) (a : ℕ)
    → ((k : ℕ) (b : BreakPoint F) → lookup k m ≡ some b → b.addr ≡ k)
    → (k : ℕ) (b : BreakPoint F) → lookup k (delete a m) ≡ some b
    → b.addr ≡ k
keyed_delete m a h k b e = ground (arith, lookup-delete a k m, h k b)

if_le : (b : Bool) (m n : ℕ) → m ≤ 1 → n ≤ 1 → (if b then m else n) ≤ 1
if_le true m n h g = h
if_le false m n h g = g

abbrev pub present : {A : Type 0} → Option A → Bool
present none = false
present (some _) = true

spied_add :
    (on : Bool) (u : SpyUnit) (a : ℕ) (m : Map SpyUnit)
    → present (lookup a (if on then insert u.addr u m else m))
      ≡ (if on && (u.addr == a) then true else present (lookup a m))
spied_add true u a m = ground (arith, lookup-insert u.addr a u m)
spied_add false u a m = refl

spied_remove :
    (on : Bool) (u : SpyUnit) (a : ℕ) (m : Map SpyUnit)
    → present (lookup a (if on then delete u.addr m else m))
      ≡ (if on && (u.addr == a) then false else present (lookup a m))
spied_remove true u a m = ground (arith, lookup-delete u.addr a m)
spied_remove false u a m = refl

module _ {F I O : Type 0} where
  -- Nothing is watched twice, and the breakpoints stand under their addresses.
  pub record IsValid (s : Session F I O) : Type 0 where
    pub once : (u : Target) → times u s.opt.watchings ≤ 1
    pub keyed : (k : ℕ) (bp : BreakPoint F) → lookup k s.opt.breakpoints ≡ some bp → bp.addr ≡ k

  -- What a static command answers: a valid session, or a panic where a register is to be spied on.
  pub data Answer : StaticCommand F → Option (Session F I O) → Type 0 where
    keeps : (c : StaticCommand F) (s : Session F I O) → IsValid s → Answer c (some s)
    todo_i :
        (op : Operation) (command : Spy) (r : ℕ)
        → command.target ≡ register_i r
        → Answer (spy op command) none
    todo_f :
        (op : Operation) (command : Spy) (r : ℕ)
        → command.target ≡ register_f r
        → Answer (spy op command) none

  spied-Answer :
      (op : Operation) (command : Spy) (k : ShowKind) (s : Session F I O) (target : SpyKind)
      → command.target ≡ target
      → IsValid s
      → Answer (spy op command) (spied_session k s (spy_on op command.kind target s.sim))
  unfolding spied_session spy_on
  spied-Answer add command k s (memory unit) e v =
      keeps _ _ (record { once = v.once; keyed = v.keyed })
  spied-Answer remove command k s (memory unit) e v =
      keeps _ _ (record { once = v.once; keyed = v.keyed })
  spied-Answer add command k s (register_i r) e v = todo_i add command r e
  spied-Answer remove command k s (register_i r) e v = todo_i remove command r e
  spied-Answer add command k s (register_f r) e v = todo_f add command r e
  spied-Answer remove command k s (register_f r) e v = todo_f remove command r e

  breakpoints-watch :
      (w : WatchingKind) (s : Session F I O)
      → ((watch_add w s).opt.breakpoints ≡ s.opt.breakpoints)
        × ((watch_remove w s).opt.breakpoints ≡ s.opt.breakpoints)
  unfolding watch_add watch_remove
  breakpoints-watch (reg r) s = (refl, refl)
  breakpoints-watch (freg r) s = (refl, refl)
  breakpoints-watch (mem_addr a) s = (refl, refl)
  breakpoints-watch (reg_file k) s = (refl, refl)

  watched-IsValid :
      (t : Target) (s : Session F I O)
      → IsValid s
      → IsValid (watch_add (as_kind t) s) × IsValid (watch_remove (as_kind t) s)
  watched-IsValid t s v = (
    record {
      once =
          λ u. rw ((watch_once t u s (v.once t)).0) (if_le (same t u) 1 _ (omega arith) (v.once u));
      keyed = λ k bp e. v.keyed k bp (ap (lookup k) (sym (breakpoints-watch (as_kind t) s).0) ∙ e);
    },
    record {
      once =
          λ u. rw ((watch_once t u s (v.once t)).1) (if_le (same t u) 0 _ (omega arith) (v.once u));
      keyed = λ k bp e. v.keyed k bp (ap (lookup k) (sym (breakpoints-watch (as_kind t) s).1) ∙ e);
    },
  )

  watch_file-IsValid :
      (k : ShowRegFileKind) (s : Session F I O)
      → IsValid s
      → IsValid (watch_add (reg_file k) s) × IsValid (watch_remove (reg_file k) s)
  unfolding watch_add watch_remove
  watch_file-IsValid k s v =
      (record { once = v.once; keyed = v.keyed }, record { once = v.once; keyed = v.keyed })

  watch-IsValid :
      (w : WatchingKind) (s : Session F I O)
      → IsValid s
      → IsValid (watch_add w s) × IsValid (watch_remove w s)
  watch-IsValid (reg r) s v = watched-IsValid (on_reg r) s v
  watch-IsValid (freg r) s v = watched-IsValid (on_freg r) s v
  watch-IsValid (mem_addr a) s v = watched-IsValid (on_word a) s v
  watch-IsValid (reg_file k) s v = watch_file-IsValid k s v

  shown-IsValid : (k : ShowKind) (s : Session F I O) → IsValid s → IsValid (show_after k s)
  unfolding show_after
  shown-IsValid k s v = record { once = v.once; keyed = v.keyed }

  -- A static command leaves a session in which nothing is watched twice and every breakpoint stands
  -- under its address, if it starts from one. It panics only where a register is to be spied on.
  pub static_command-Answer :
      (c : StaticCommand F) (s : Session F I O) → IsValid s → Answer c (static_command c s)
  unfolding static_command
  static_command-Answer (show k) s v = keeps _ _ (shown-IsValid k s v)
  static_command-Answer (update_whether_trace b) s v = keeps _ _ (
      shown-IsValid is_trace_enabled (record s { opt = record s.opt { do_trace = b } })
        (record { once = v.once; keyed = v.keyed }))
  static_command-Answer (add_bp bp) s v = keeps _ _ (
      shown-IsValid all_bp
        (record s { opt = record s.opt { breakpoints = insert bp.addr bp s.opt.breakpoints } })
        (record { once = v.once; keyed = keyed_insert s.opt.breakpoints bp v.keyed }))
  static_command-Answer (remove_bp a) s v = keeps _ _ (
      shown-IsValid all_bp
        (record s { opt = record s.opt { breakpoints = delete a s.opt.breakpoints } })
        (record { once = v.once; keyed = keyed_delete s.opt.breakpoints a v.keyed }))
  static_command-Answer (watch add w) s v = keeps _ _ (shown-IsValid _ _ (watch-IsValid w s v).0)
  static_command-Answer (watch remove w) s v = keeps _ _ (shown-IsValid _ _ (watch-IsValid w s v).1)
  static_command-Answer (spy add command) s v =
      spied-Answer add command (added_spy command) s command.target refl v
  static_command-Answer (spy remove command) s v =
      spied-Answer remove command (removed_spy command) s command.target refl v

  -- Whether reads and writes of a word are spied on.
  abbrev pub is_spied : ℕ → Option (Session F I O) → Option (Bool × Bool)
  is_spied a none = none
  is_spied a (some s) = some (
    present (lookup a s.sim.cpu.memory.spy.reads),
    present (lookup a s.sim.cpu.memory.spy.writes),
  )

  -- A spy on a word is put in for the accesses that the command names, and taken off for those;
  -- the other accesses, and the other words, are spied on as before. Neither command panics.
  pub spy_commands :
      (s : Session F I O) (kind : SpyWatchKind) (u : SpyUnit) (a : ℕ)
      → (is_spied a (static_command (spy add (record { kind = kind; target = memory u })) s)
          ≡ some (
            (if kind.on_reads && (u.addr == a)
                then true
                else present (lookup a s.sim.cpu.memory.spy.reads)),
            (if kind.on_writes && (u.addr == a)
                then true
                else present (lookup a s.sim.cpu.memory.spy.writes)),
          ))
        × (is_spied a (static_command (spy remove (record { kind = kind; target = memory u })) s)
            ≡ some (
              (if kind.on_reads && (u.addr == a)
                  then false
                  else present (lookup a s.sim.cpu.memory.spy.reads)),
              (if kind.on_writes && (u.addr == a)
                  then false
                  else present (lookup a s.sim.cpu.memory.spy.writes)),
            ))
  unfolding static_command spied_session spy_on
  spy_commands s kind u a = (
    rw
        (
          spied_add kind.on_reads u a s.sim.cpu.memory.spy.reads,
          spied_add kind.on_writes u a s.sim.cpu.memory.spy.writes,
        )
        refl,
    rw
        (
          spied_remove kind.on_reads u a s.sim.cpu.memory.spy.reads,
          spied_remove kind.on_writes u a s.sim.cpu.memory.spy.writes,
        )
        refl,
  )
