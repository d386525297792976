-- ===== src/Sim/Steps.antt =====
-- The mode `RunStep` of core_sim/src/sim.rs, in which a run makes a number of steps and stops.
use cpuex2022_7_simulator.Common.{
  ℕ, zero, suc, ◌+◌, ◌≡◌, ◌≢◌, refl, ap, ◌∙◌, sym, arith, Bool, true, false, Option, some, none,
  ◌>>=◌, Outcome, done, fail, abort, lookup, Map, [],
}
use mathlib.Core.Path.{subst}
use cpuex2022_7_simulator.Float.{Float32}
use cpuex2022_7_simulator.Cpu.{cycle_one_full}
use cpuex2022_7_simulator.Cpu.State.{Cpu, Ports, RuntimeError, CycleResult}
use cpuex2022_7_simulator.Cpu.State as CpuState
use cpuex2022_7_simulator.Sim.Options.{BreakPoint, run_step, SimulationOption, get_step}
use cpuex2022_7_simulator.Sim.State.{
  Instant, Simulator, step_ended, ControlFlow, break, exit, OnBreak, no_values,
}
use cpuex2022_7_simulator.Sim.{
  settle, execute_cycle, at_breakpoint, execute, round, rounds, run_mode, unless_left, unless_fatal,
  single_cycle, after_cycle, leave, break_sim, count_cycle,
}

module _ (fl : Float32) (size nlines : ℕ) {I O : Type 0} (ports : Ports fl.F I O) (now : Instant)
    (do_trace : Bool) (breakpoints : Map (BreakPoint fl.F)) where
  open fl use {F}

  abbrev Sim : Type 0
  Sim = Simulator F I O

  abbrev Answer : Type 0
  Answer = Outcome Sim RuntimeError (Option (ControlFlow F))

  -- `n` steps, with nothing watched.
  abbrev pub stepping : ℕ → SimulationOption F
  stepping n = record {
    do_trace = do_trace;
    mode = run_step (record { step = some n });
    breakpoints = breakpoints;
    watchings = record { reg = []; freg = []; memory = [] };
  }

  abbrev pub steps : ℕ → ℕ → Sim → Answer
  steps n fuel = single_cycle fl size nlines ports (stepping n) now fuel

  abbrev loop : ℕ → ℕ → Bool → Sim → Answer
  loop k n = rounds fl size nlines ports (stepping k) now (stepping k).mode n

  -- Nothing has ended the steps: an error that was kept before is kept, and another is not; or
  -- something but their number has.
  abbrev Inner : Option RuntimeError → Answer → Type 0
  Inner kept (done none s') = s'.fatal_error ≡ kept
  Inner kept (done (some (break on)) s') = on.reason ≢ step_ended
  Inner kept (done (some exit) s') = Unit {0}
  Inner kept (fail e s') = Unit {0}
  Inner kept abort = Unit {0}

  abbrev Same : Option RuntimeError → (ℕ → Answer) → Type 0
  Same kept o = ((j k : ℕ) → o j ≡ o k) × ((k : ℕ) → Inner kept (o k))

  after_cycle_lem :
      (s : Sim) (flow : CpuState.ControlFlow)
      → Same s.fatal_error (λ k. after_cycle fl size nlines ports (stepping k) now flow s)
  unfolding after_cycle leave break_sim
  after_cycle_lem s CpuState.continue = (λ j k. refl, λ k. refl)
  after_cycle_lem s (CpuState.break_spy spied) = (λ j k. refl, λ k e. cc)
  after_cycle_lem s CpuState.exit = (λ j k. refl, λ k. tt)

  settle_lem :
      (s : Sim) (o : Outcome (Cpu F I O) RuntimeError CycleResult)
      → Same s.fatal_error (λ k. settle fl size nlines ports (stepping k) now o s)
  unfolding settle leave break_sim count_cycle
  settle_lem s (done r c) = after_cycle_lem (count_cycle r.cycles (record s { cpu = c })) r.flow
  settle_lem s (fail e c) = (λ j k. refl, λ k e. cc)
  settle_lem s abort = (λ j k. refl, λ k. tt)

  at_breakpoint_lem :
      (s : Sim) (bp : Option (BreakPoint F))
      → Same s.fatal_error (λ k. at_breakpoint fl size nlines ports (stepping k) now bp s)
  unfolding at_breakpoint execute_cycle leave break_sim
  at_breakpoint_lem s none = settle_lem s (cycle_one_full fl size nlines ports do_trace s.cpu)
  at_breakpoint_lem s (some bp) = (λ j k. refl, λ k e. cc)

  round_lem :
      (is_enter : Bool) (s : Sim)
      → Same s.fatal_error
          (λ k. round fl size nlines ports (stepping k) now (stepping k).mode is_enter s)
  unfolding round execute execute_cycle
  round_lem true s = settle_lem s (cycle_one_full fl size nlines ports do_trace s.cpu)
  round_lem false s = at_breakpoint_lem s (lookup s.cpu.pc breakpoints)

  -- What follows, unless the loop is left.
  abbrev after : Answer → (Sim → Answer) → Answer
  after (done left s) next = unless_left left next s
  after (fail e s) next = fail e s
  after abort next = abort

  after_lem :
      (o : Answer) (kept : Option RuntimeError) (next : ℕ → Sim → Answer)
      → Inner kept o
      → ((s : Sim) → Same s.fatal_error (λ k. next k s))
      → Same kept (λ k. after o (next k))
  unfolding unless_left
  after_lem (done none s) kept next h ih =
      ((ih s).0, λ k. subst (λ e. Inner e (next k s)) h ((ih s).1 k))
  after_lem (done (some (break on)) s) kept next h ih = (λ j k. refl, λ k. h)
  after_lem (done (some exit) s) kept next h ih = (λ j k. refl, λ k. tt)
  after_lem (fail e s) kept next h ih = (λ j k. refl, λ k. tt)
  after_lem abort kept next h ih = (λ j k. refl, λ k. tt)

  after-bind :
      (o : Answer) (next : Sim → Answer)
      → ((λ (_ : Sim). o) >>= λ left. unless_left left next) ≡ (λ (_ : Sim). after o next)
  after-bind (done left s) next = refl
  after-bind (fail e s) next = refl
  after-bind abort next = refl

  abbrev first : ℕ → Bool → Sim → Answer
  first k is_enter = round fl size nlines ports (stepping k) now (stepping k).mode is_enter

  loop-suc :
      (k n : ℕ) (is_enter : Bool) (s : Sim)
      → loop k (suc n) is_enter s ≡ after (first k is_enter s) (loop k n false)
  unfolding rounds
  loop-suc k n is_enter s =
      ap (λ (m : Sim → Answer). m s) (after-bind (first k is_enter s) (loop k n false))

  -- The loop does not depend on the number of steps in the options.
  loop_lem : (n : ℕ) (is_enter : Bool) (s : Sim) → Same s.fatal_error (λ k. loop k n is_enter s)
  unfolding rounds
  loop_lem zero is_enter s = (λ j k. refl, λ k. refl)
  loop_lem (suc n) is_enter s =
      let first_round = round_lem is_enter s in
      (
        λ j k.
            loop-suc j n is_enter s
            ∙ (ap (λ o. after o (loop j n false)) (first_round.0 j k)
                ∙ ((after_lem (first k is_enter s) s.fatal_error (λ i. loop i n false)
                        (first_round.1 k) (loop_lem n false)).0
                      j k
                    ∙ sym (loop-suc k n is_enter s))),
        λ k. subst (Inner s.fatal_error) (sym (loop-suc k n is_enter s)) (
            (after_lem (first k is_enter s) s.fatal_error (λ i. loop i n false) (first_round.1 k)
                (loop_lem n false)).1
              k),
      )

  first-entered :
      (k : ℕ) (is_enter : Bool) (s : Sim)
      → lookup s.cpu.pc breakpoints ≡ none
      → first k is_enter s ≡ first k true s
  unfolding round execute at_breakpoint
  first-entered k true s e = refl
  first-entered k false s e = ap (λ bp. at_breakpoint fl size nlines ports (stepping k) now bp s) e

  -- Where no breakpoint stands, it makes no difference whether the run has just been entered.
  entered_lem :
      (k n : ℕ) (is_enter : Bool) (s : Sim)
      → lookup s.cpu.pc breakpoints ≡ none
      → loop k n is_enter s ≡ loop k n true s
  unfolding rounds
  entered_lem k zero is_enter s e = refl
  entered_lem k (suc n) is_enter s e =
      loop-suc k n is_enter s
      ∙ (ap (λ o. after o (loop k n false)) (first-entered k is_enter s e)
          ∙ sym (loop-suc k n true s))

  after-loop :
      (k n m total : ℕ) (o : Answer) (s' : Sim)
      → ((s1 : Sim) → loop k n false s1 ≡ done none s' → loop k total false s1 ≡ loop k m true s')
      → after o (loop k n false) ≡ done none s'
      → after o (loop k total false) ≡ loop k m true s'
  unfolding unless_left
  after-loop k n m total (done none s1) s' ih e = ih s1 e
  after-loop k n m total (done (some flow) s1) s' ih e = absurd (cc e)
  after-loop k n m total (fail err s1) s' ih e = absurd (cc e)
  after-loop k n m total abort s' ih e = absurd (cc e)

  -- A loop that is not left, and then another, are one.
  loop-loop :
      (n k m total : ℕ) (is_enter : Bool) (s s' : Sim)
      → total ≡ n + m
      → loop k n is_enter s ≡ done none s'
      → lookup s'.cpu.pc breakpoints ≡ none
      → loop k total is_enter s ≡ loop k m true s'
  unfolding rounds
  loop-loop zero k m total is_enter s s' t e b =
      let same : s ≡ s' = cc e in
      let count : total ≡ m = omega (arith, t) in rw (count, same) (entered_lem k m is_enter s' b)
  loop-loop (suc n) k m zero is_enter s s' t e b = absurd (omega (arith, t))
  loop-loop (suc n) k m (suc total) is_enter s s' t e b =
      loop-suc k total is_enter s
      ∙ after-loop k n m total (first k is_enter s) s'
          (λ s1 e1. loop-loop n k m total false s1 s' (omega (arith, t)) e1 b)
          (sym (loop-suc k n is_enter s) ∙ e)

  -- The answer when all the steps have been made.
  abbrev pub stop : OnBreak F
  stop = record { watchings = no_values; reason = step_ended }

  steps-none :
      (n fuel : ℕ) (s : Sim)
      → s.fatal_error ≡ none
      → steps n fuel s ≡ after (loop n n true s) (λ s1. done (some (break stop)) s1)
  unfolding single_cycle unless_fatal run_mode get_step leave break_sim
  steps-none n fuel s e =
      ap (λ err. unless_fatal fl size nlines ports (stepping n) now err fuel s) e
      ∙ ap (λ (m : Sim → Answer). m s)
          (after-bind (loop n n true s) (leave size (stepping n) step_ended))

  ended :
      (o : Answer) (s' : Sim)
      → Inner none o
      → after o (λ s1. done (some (break stop)) s1) ≡ done (some (break stop)) s'
      → (o ≡ done none s') × (s'.fatal_error ≡ none)
  unfolding unless_left
  ended (done none s1) s' h e =
      let same : s1 ≡ s' = cc e in
      (ap (done none) same, sym (ap (λ (x : Sim). x.fatal_error) same) ∙ h)
  ended (done (some (break on)) s1) s' h e =
      let same : on ≡ stop = cc e in absurd (h (ap (λ (x : OnBreak F). x.reason) same))
  ended (done (some exit) s1) s' h e = absurd (cc e)
  ended (fail err s1) s' h e = absurd (cc e)
  ended abort s' h e = absurd (cc e)

  no_error :
      (n fuel : ℕ) (s s' : Sim) (err : Option RuntimeError)
      → s.fatal_error ≡ err
      → steps n fuel s ≡ done (some (break stop)) s'
      → s.fatal_error ≡ none
  unfolding single_cycle unless_fatal leave break_sim
  no_error n fuel s s' none h e = h
  no_error n fuel s s' (some err) h e =
      let refused : ◌≡◌ {A = Answer}
          (unless_fatal fl size nlines ports (stepping n) now (some err) fuel s)
          (done (some (break stop)) s') =
        sym (ap (λ x. unless_fatal fl size nlines ports (stepping n) now x fuel s) h) ∙ e in
      absurd (cc refused)

  -- With nothing watched: `n` steps of `RunStep` that end because they have been made, at an address
  -- with no breakpoint, and then `m` more, are `n + m` steps. They give the same answer and leave the
  -- same simulator. The fuel is the same; this mode does not use it.
  pub steps-steps :
      (n m fuel : ℕ) (s s' : Sim)
      → steps n fuel s ≡ done (some (break stop)) s'
      → lookup s'.cpu.pc breakpoints ≡ none
      → steps m fuel s' ≡ steps (n + m) fuel s
  steps-steps n m fuel s s' e b =
      let kept = no_error n fuel s s' s.fatal_error refl e in
      let counted = loop_lem n true s in
      let (run, kept') =
        ended (loop n n true s) s' (subst (λ err. Inner err (loop n n true s)) kept (counted.1 n))
          (sym (steps-none n fuel s kept) ∙ e) in
      let all : loop (n + m) (n + m) true s ≡ loop (n + m) m true s' =
        loop-loop n (n + m) m (n + m) true s s' refl (counted.0 (n + m) n ∙ run) b in
      steps-none m fuel s' kept'
      ∙ (ap (λ o. after o (λ s1. done (some (break stop)) s1))
            ((loop_lem m true s').0 m (n + m) ∙ sym all)
          ∙ sym (steps-none (n + m) fuel s kept))
