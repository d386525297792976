-- ===== src/Sim/Rounds.antt =====
-- The rounds of the loops of core_sim/src/sim.rs, one after the other.
use cpuex2022_7_simulator.Common.{
  ℕ, zero, suc, ◌+◌, ◌<◌, ◌≤◌, ◌≡◌, ◌⊎◌, refl, ◌∙◌, ap, arith, Bool, true, false, inl, inr, Option,
  some, none, lookup, Outcome, done, fail, abort, Post, returns, fails,
}
use cpuex2022_7_simulator.Float.{Float32}
use cpuex2022_7_simulator.Memory.{Memory}
use cpuex2022_7_simulator.Cpu.State.{Cpu, Ports, RuntimeError, CycleResult, continue, break_spy}
use cpuex2022_7_simulator.Cpu.State as CpuState
use cpuex2022_7_simulator.Cpu.Valid.{IsValid}
use cpuex2022_7_simulator.Cpu.ExecuteSafe.{NoPanic}
use cpuex2022_7_simulator.Cpu.CycleSafe.{Decodes}
use cpuex2022_7_simulator.Cpu.CycleLaws.{cycle_one_full-IsValid}
use cpuex2022_7_simulator.Sim.Options.{BreakPoint, ExecuteMode, SimulationOption}
use cpuex2022_7_simulator.Sim.State.{
  Instant, SimStatBuilder, Simulator, failed, break_point, spy, ControlFlow,
}
use cpuex2022_7_simulator.Sim.Watching.{CanWatch, Held, leave-Post}
use cpuex2022_7_simulator.Sim.Runs.{Ran, Ran-Held, Answer, running, broken, spied, died, ended}
use cpuex2022_7_simulator.Sim.{
  count_cycle, after_cycle, settle, execute_cycle, at_breakpoint, execute, round,
}

-- the rounds that look for no breakpoint
abbrev pub entered : Bool → ℕ
entered true = 1
entered false = 0

module _ (fl : Float32) (size nlines : ℕ) {I O : Type 0} (ports : Ports fl.F I O)
    (opt : SimulationOption fl.F) (now : Instant) where
  -- The fetch and the decoder do not panic on any instruction that the rounds come to.
  pub data Fetches (mode : ExecuteMode) : ℕ → Bool → Simulator fl.F I O → Type 0 where
    over : (is_enter : Bool) (s : Simulator fl.F I O) → Fetches mode zero is_enter s
    next :
        (n : ℕ) (is_enter : Bool) (s : Simulator fl.F I O)
        → Decodes s.cpu
        → ((s' : Simulator fl.F I O)
            → round fl size nlines ports opt now mode is_enter s ≡ done none s'
            → Fetches mode n false s')
        → Fetches mode (suc n) is_enter s

module _ (fl : Float32) (size nlines : ℕ) (text : Memory) {I O : Type 0} (ports : Ports fl.F I O)
    (np : NoPanic ports) (pos : 0 < nlines) (opt : SimulationOption fl.F)
    (can : CanWatch size text opt.watchings) (now : Instant) (mode : ExecuteMode) where
  open fl use {F}

  abbrev Valid : Cpu F I O → Type 0
  Valid c = IsValid fl.zero size nlines text c

  clocked :
      (flow : CpuState.ControlFlow) (cycles clocks : ℕ)
      → ¬ (flow ≡ CpuState.exit)
      → (flow ≡ CpuState.exit) ⊎ (1 ≤ cycles)
      → clocks + 1 ≤ clocks + cycles
  clocked flow cycles clocks h (inl e) = absurd (h e)
  clocked flow cycles clocks h (inr p) = omega (arith, p)

  module _ (least : ℕ) (s : Simulator F I O) where
    abbrev One : Option (ControlFlow F) → Simulator F I O → Type 0
    One = Answer fl size nlines text opt mode 1 least s

    after_cycle-Answer :
        (flow : CpuState.ControlFlow) (cycles : ℕ) (c : Cpu F I O)
        → (flow ≡ CpuState.exit) ⊎ (1 ≤ cycles)
        → Valid c
        → Post One
            (λ _. ⊥)
            (after_cycle fl size nlines ports opt now flow
              (count_cycle cycles (record s { cpu = c })))
    unfolding after_cycle count_cycle
    after_cycle-Answer continue cycles c h v = returns (
        running _
          (record {
            valid = v;
            cycle = refl;
            elapsed = clocked continue cycles s.elapsed_clocks (λ e. cc) h;
            file_len = refl;
          })
          refl)
    after_cycle-Answer (break_spy result) cycles c h v =
        leave-Post fl size nlines text opt can _ v (spy result) (λ on s' e held.
          spied on s' 0 result (omega arith)
            (Ran-Held fl size nlines text 1 1 s _ s'
              (record {
                valid = v;
                cycle = refl;
                elapsed = clocked (break_spy result) cycles s.elapsed_clocks (λ e. cc) h;
                file_len = refl;
              })
              held)
            held.fatal_error e)
    after_cycle-Answer CpuState.exit cycles c h v = returns (
        ended _ 0 (omega arith)
          (record { valid = v; cycle = refl; elapsed = omega arith; file_len = refl }) refl refl
          refl (_, refl))

    settle-Answer :
        (o : Outcome (Cpu F I O) RuntimeError CycleResult)
        → Post (λ res c. ((res.flow ≡ CpuState.exit) ⊎ (1 ≤ res.cycles)) × Valid c) Valid o
        → Post One (λ _. ⊥) (settle fl size nlines ports opt now o s)
    unfolding settle
    settle-Answer (done r c) (returns q) = after_cycle-Answer r.flow r.cycles c q.0 q.1
    settle-Answer (fail err c) (fails v) =
        leave-Post fl size nlines text opt can _ v failed (λ on s' e held.
          died on s' 0 err (omega arith)
            (Ran-Held fl size nlines text 0 0 s _ s'
              (record { valid = v; cycle = omega arith; elapsed = omega arith; file_len = refl })
              held)
            held.fatal_error e)
    settle-Answer abort q = elim q [ ]

    module _ (d : Decodes s.cpu) (v : Valid s.cpu) where
      execute_cycle-Answer : Post One (λ _. ⊥) (execute_cycle fl size nlines ports opt now s)
      unfolding execute_cycle
      execute_cycle-Answer =
          settle-Answer _
            (cycle_one_full-IsValid fl size nlines text ports np pos s.cpu opt.do_trace d v)

  pub Ran-zero :
      (s s' : Simulator F I O) → Held fl size nlines text s s' → Ran fl size nlines text 0 0 s s'
  Ran-zero s s' held = record {
    valid = held.valid;
    cycle = omega (arith, held.cycle);
    elapsed = omega (arith, held.elapsed_clocks);
    file_len = ap (λ (b : SimStatBuilder). b.instr_file_len) held.stat_builder;
  }

  module _ (s : Simulator F I O) (d : Decodes s.cpu) (v : Valid s.cpu) where
    at_breakpoint-Answer :
        (bp : Option (BreakPoint F))
        → lookup s.cpu.pc opt.breakpoints ≡ bp
        → Post (One 0 s) (λ _. ⊥) (at_breakpoint fl size nlines ports opt now bp s)
    unfolding at_breakpoint
    at_breakpoint-Answer none e = execute_cycle-Answer 0 s d v
    at_breakpoint-Answer (some bp) e =
        leave-Post fl size nlines text opt can s v (break_point bp.addr) (λ on s' r held.
          broken on s' 0 bp (omega arith) (omega arith) (Ran-zero s s' held) held.fatal_error
            (ap (λ pc. lookup pc opt.breakpoints) held.pc ∙ e) r)

    pub execute-Answer :
        (is_enter : Bool)
        → Post (One (entered is_enter) s) (λ _. ⊥) (execute fl size nlines ports opt now is_enter s)
    unfolding execute
    execute-Answer true = execute_cycle-Answer 1 s d v
    execute-Answer false = at_breakpoint-Answer (lookup s.cpu.pc opt.breakpoints) refl
