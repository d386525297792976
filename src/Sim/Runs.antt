-- ===== src/Sim/Runs.antt =====
-- The loops of core_sim/src/sim.rs: what a run answers, and the state that it leaves.
use cpuex2022_7_simulator.Common.{
  ℕ, suc, ◌+◌, ◌<◌, ◌≤◌, ◌≡◌, ◌∙◌, ap, arith, Option, some, none, lookup,
}
use cpuex2022_7_simulator.Float.{Float32}
use cpuex2022_7_simulator.Memory.{Memory}
use cpuex2022_7_simulator.Cpu.State.{RuntimeError}
use cpuex2022_7_simulator.Cpu.Valid.{IsValid}
use cpuex2022_7_simulator.Memory.Watch.{SpyResult}
use cpuex2022_7_simulator.Sim.Options.{BreakPoint, ExecuteMode, skip_until, SimulationOption}
use cpuex2022_7_simulator.Sim.State.{
  Duration, SimStatBuilder, Simulator, failed, reached, break_point, spy, OnBreak, ControlFlow,
  break, exit,
}
use cpuex2022_7_simulator.Sim.Watching.{Stops, Held}

module _ (fl : Float32) (size nlines : ℕ) (text : Memory) {I O : Type 0} where
  open fl use {F}

  -- From `s` to `s'`, `k` instructions have been counted, and at least `clocks` clock cycles.
  pub record Ran (k clocks : ℕ) (s s' : Simulator F I O) : Type 0 where
    pub valid : IsValid fl.zero size nlines text s'.cpu
    pub cycle : s'.cycle ≡ s.cycle + k
    pub elapsed : s.elapsed_clocks + clocks ≤ s'.elapsed_clocks
    pub file_len : s'.stat_builder.instr_file_len ≡ s.stat_builder.instr_file_len

  -- What at most `n` rounds of a loop answer, of which the first `least` do not look for breakpoints.
  pub data Answer (opt : SimulationOption F) (mode : ExecuteMode) (n least : ℕ)
      (s : Simulator F I O) : Option (ControlFlow F) → Simulator F I O → Type 0 where
    -- All have been made, and none has left the loop.
    running :
        (s' : Simulator F I O)
        → Ran n n s s'
        → s'.fatal_error ≡ s.fatal_error
        → Answer opt mode n least s none s'
    -- The program counter is at a breakpoint.
    broken :
        (on : OnBreak F) (s' : Simulator F I O) (k : ℕ) (bp : BreakPoint F)
        → least ≤ k
        → k < n
        → Ran k k s s'
        → s'.fatal_error ≡ s.fatal_error
        → lookup s'.cpu.pc opt.breakpoints ≡ some bp
        → Stops opt (break_point bp.addr) on
        → Answer opt mode n least s (some (break on)) s'
    -- The program counter is at the goal of the mode.
    arrived :
        (on : OnBreak F) (s' : Simulator F I O) (k : ℕ)
        → least ≤ k
        → k < n
        → Ran k k s s'
        → s'.fatal_error ≡ s.fatal_error
        → mode ≡ skip_until s'.cpu.pc
        → Stops opt (reached s'.cpu.pc) on
        → Answer opt mode n least s (some (break on)) s'
    -- The last instruction has met a spy.
    spied :
        (on : OnBreak F) (s' : Simulator F I O) (k : ℕ) (result : SpyResult)
        → k < n
        → Ran (suc k) (suc k) s s'
        → s'.fatal_error ≡ s.fatal_error
        → Stops opt (spy result) on
        → Answer opt mode n least s (some (break on)) s'
    -- The instruction after `k` has failed, and its error is kept.
    died :
        (on : OnBreak F) (s' : Simulator F I O) (k : ℕ) (e : RuntimeError)
        → k < n
        → Ran k k s s'
        → s'.fatal_error ≡ some e
        → Stops opt failed on
        → Answer opt mode n least s (some (break on)) s'
    -- The program has ended, and the counts are handed to the statistics.
    ended :
        (s' : Simulator F I O) (k : ℕ)
        → k < n
        → Ran (suc k) k s s'
        → s'.fatal_error ≡ s.fatal_error
        → s'.stat_builder.cycle ≡ some s'.cycle
        → s'.stat_builder.elapsed_clocks ≡ some s'.elapsed_clocks
        → (d : Duration) × (s'.stat_builder.elapsed ≡ some d)
        → Answer opt mode n least s (some exit) s'

  pub Ran-Held :
      (k clocks : ℕ) (s s1 s' : Simulator F I O)
      → Ran k clocks s s1
      → Held fl size nlines text s1 s'
      → Ran k clocks s s'
  Ran-Held k clocks s s1 s' r h = record {
    valid = h.valid;
    cycle = h.cycle ∙ r.cycle;
    elapsed = omega (arith, r.elapsed, h.elapsed_clocks);
    file_len = ap (λ (b : SimStatBuilder). b.instr_file_len) h.stat_builder ∙ r.file_len;
  }

  Ran-Ran :
      (k clocks : ℕ) (s s1 s' : Simulator F I O)
      → Ran 1 1 s s1
      → Ran k clocks s1 s'
      → Ran (suc k) (suc clocks) s s'
  Ran-Ran k clocks s s1 s' r h = record {
    valid = h.valid;
    cycle = omega (arith, r.cycle, h.cycle);
    elapsed = omega (arith, r.elapsed, h.elapsed);
    file_len = h.file_len ∙ r.file_len;
  }

  -- A round before the others.
  pub Answer-suc :
      {opt : SimulationOption F} {mode : ExecuteMode} {n least : ℕ} {s s1 s' : Simulator F I O}
      {r : Option (ControlFlow F)}
      → least ≤ 1
      → Ran 1 1 s s1
      → s1.fatal_error ≡ s.fatal_error
      → Answer opt mode n 0 s1 r s'
      → Answer opt mode (suc n) least s r s'
  Answer-suc l r0 e0 (running s' r e) = running s' (Ran-Ran _ _ _ _ _ r0 r) (e ∙ e0)
  Answer-suc l r0 e0 (broken on s' k bp h g r e p q) =
      broken on s' (suc k) bp (omega arith) (omega arith) (Ran-Ran _ _ _ _ _ r0 r) (e ∙ e0) p q
  Answer-suc l r0 e0 (arrived on s' k h g r e p q) =
      arrived on s' (suc k) (omega arith) (omega arith) (Ran-Ran _ _ _ _ _ r0 r) (e ∙ e0) p q
  Answer-suc l r0 e0 (spied on s' k result g r e p) =
      spied on s' (suc k) result (omega arith) (Ran-Ran _ _ _ _ _ r0 r) (e ∙ e0) p
  Answer-suc l r0 e0 (died on s' k e g r p q) =
      died on s' (suc k) e (omega arith) (Ran-Ran _ _ _ _ _ r0 r) p q
  Answer-suc l r0 e0 (ended s' k g r e p q t) =
      ended s' (suc k) (omega arith) (Ran-Ran _ _ _ _ _ r0 r) (e ∙ e0) p q t

  -- A loop that has been left within a round has been left within more.
  pub Answer-left :
      {opt : SimulationOption F} {mode : ExecuteMode} (n : ℕ) {least : ℕ} {s s' : Simulator F I O}
      {flow : ControlFlow F}
      → Answer opt mode 1 least s (some flow) s'
      → Answer opt mode (suc n) least s (some flow) s'
  Answer-left n (broken on s' k bp h g r e p q) = broken on s' k bp h (omega arith) r e p q
  Answer-left n (arrived on s' k h g r e p q) = arrived on s' k h (omega arith) r e p q
  Answer-left n (spied on s' k result g r e p) = spied on s' k result (omega arith) r e p
  Answer-left n (died on s' k err g r p q) = died on s' k err (omega arith) r p q
  Answer-left n (ended s' k g r e p q t) = ended s' k (omega arith) r e p q t
