-- ===== src/Sim/Answers.antt =====
-- `single_cycle` of core_sim/src/sim.rs in each mode.
use cpuex2022_7_simulator.Common.{
  ℕ, ◌<◌, ◌≡◌, refl, ◌∙◌, true, Option, some, none, Post, Post-bind, Post-weaken, returns,
}
use cpuex2022_7_simulator.Float.{Float32}
use cpuex2022_7_simulator.Memory.{Memory}
use cpuex2022_7_simulator.Cpu.State.{Cpu, Ports, RuntimeError}
use cpuex2022_7_simulator.Cpu.Valid.{IsValid}
use cpuex2022_7_simulator.Cpu.ExecuteSafe.{NoPanic}
use cpuex2022_7_simulator.Sim.Options.{
  RunStep, ExecuteMode, run, skip_until, run_step, get_step, SimulationOption,
}
use cpuex2022_7_simulator.Sim.State.{
  Instant, Simulator, cannot_restart, step_ended, OnBreak, ControlFlow, break,
}
use cpuex2022_7_simulator.Sim.Watching.{Stops, CanWatch, Held, leave-Post}
use cpuex2022_7_simulator.Sim.Runs.{Ran, Ran-Held, Answer, running}
use cpuex2022_7_simulator.Sim.Rounds.{Fetches}
use cpuex2022_7_simulator.Sim.{rounds, leave, run_mode, unless_left, unless_fatal, single_cycle}
use cpuex2022_7_simulator.Sim.Loop.{rounds-Answer}

-- The modes whose loop has no bound.
pub data IsUnbounded : ExecuteMode → Type 0 where
  running_on : IsUnbounded run
  skipping : (pc : ℕ) → IsUnbounded (skip_until pc)

-- The rounds that a mode is given.
abbrev pub limit : ExecuteMode → ℕ → ℕ
limit run fuel = fuel
limit (skip_until pc) fuel = fuel
limit (run_step r) fuel = get_step r

module _ (fl : Float32) (size nlines : ℕ) (text : Memory) {I O : Type 0} where
  open fl use {F}

  -- What `single_cycle` answers.
  pub data Report (opt : SimulationOption F) (mode : ExecuteMode) (fuel : ℕ) (s : Simulator F I O)
      : Option (ControlFlow F) → Simulator F I O → Type 0 where
    -- An earlier error is fatal: nothing runs.
    refused :
        (on : OnBreak F) (s' : Simulator F I O) (e : RuntimeError)
        → s.fatal_error ≡ some e
        → Held fl size nlines text s s'
        → Stops opt cannot_restart on
        → Report opt mode fuel s (some (break on)) s'
    -- Exactly the steps asked for have been made.
    stepped :
        (on : OnBreak F) (s' : Simulator F I O) (r : RunStep)
        → mode ≡ run_step r
        → Ran fl size nlines text (get_step r) (get_step r) s s'
        → s'.fatal_error ≡ none
        → Stops opt step_ended on
        → Report opt mode fuel s (some (break on)) s'
    still_running :
        (s' : Simulator F I O)
        → IsUnbounded mode
        → Ran fl size nlines text fuel fuel s s'
        → s'.fatal_error ≡ none
        → Report opt mode fuel s none s'
    -- The loop has been left.
    left :
        (flow : ControlFlow F) (s' : Simulator F I O)
        → s.fatal_error ≡ none
        → Answer fl size nlines text opt mode (limit mode fuel) 1 s (some flow) s'
        → Report opt mode fuel s (some flow) s'

module _ (fl : Float32) (size nlines : ℕ) (text : Memory) {I O : Type 0} (ports : Ports fl.F I O)
    (np : NoPanic ports) (pos : 0 < nlines) (opt : SimulationOption fl.F)
    (can : CanWatch size text opt.watchings) (now : Instant) where
  open fl use {F}

  abbrev Valid : Cpu F I O → Type 0
  Valid c = IsValid fl.zero size nlines text c

  abbrev Rounds :
      ExecuteMode → ℕ → ℕ → Simulator F I O → Option (ControlFlow F) → Simulator F I O → Type 0
  Rounds = Answer fl size nlines text opt

  abbrev Reported :
      ExecuteMode → ℕ → Simulator F I O → Option (ControlFlow F) → Simulator F I O → Type 0
  Reported = Report fl size nlines text opt

  module _ (fuel : ℕ) (s : Simulator F I O) (v : Valid s.cpu) where
    unbounded-Report :
        (mode : ExecuteMode)
        → IsUnbounded mode
        → limit mode fuel ≡ fuel
        → s.fatal_error ≡ none
        → (r : Option (ControlFlow F)) (s' : Simulator F I O) → Rounds mode fuel 1 s r s'
        → Reported mode fuel s r s'
    unbounded-Report mode u same ok none s' (running _ r err) = still_running s' u r (err ∙ ok)
    unbounded-Report mode u same ok (some flow) s' a = left flow s' ok (rw same a)

    after_steps :
        (r : RunStep)
        → s.fatal_error ≡ none
        → (flow : Option (ControlFlow F)) (s1 : Simulator F I O)
        → Rounds (run_step r) (get_step r) 1 s flow s1
        → Post
            (Reported (run_step r) fuel s)
            (λ _. ⊥)
            (unless_left flow (leave size opt step_ended) s1)
    unfolding unless_left
    after_steps r ok none s1 (running _ ran err) =
        leave-Post fl size nlines text opt can s1 ran.valid step_ended (λ on s' e held.
          stepped on s' r refl (Ran-Held fl size nlines text _ _ s s1 s' ran held)
            (held.fatal_error ∙ (err ∙ ok)) e)
    after_steps r ok (some flow) s1 a = returns (left flow s1 ok a)

    run_mode-Report :
        (mode : ExecuteMode)
        → Fetches fl size nlines ports opt now mode (limit mode fuel) true s
        → s.fatal_error ≡ none
        → Post (Reported mode fuel s) (λ _. ⊥) (run_mode fl size nlines ports opt now mode fuel s)
    unfolding run_mode
    run_mode-Report run f ok =
        Post-weaken (rounds-Answer fl size nlines text ports np pos opt can now run fuel true s f v)
          (λ r s' a. unbounded-Report run running_on refl ok r s' a) (λ _ b. b)
    run_mode-Report (skip_until pc) f ok =
        Post-weaken
          (rounds-Answer fl size nlines text ports np pos opt can now (skip_until pc) fuel true s f
            v)
          (λ r s' a. unbounded-Report (skip_until pc) (skipping pc) refl ok r s' a) (λ _ b. b)
    run_mode-Report (run_step r) f ok =
        Post-bind (rounds fl size nlines ports opt now (run_step r) (get_step r) true) _ s
          (rounds-Answer fl size nlines text ports np pos opt can now (run_step r) (get_step r) true
            s f v)
          (λ flow s1 a. after_steps r ok flow s1 a)

    unless_fatal-Report :
        (e : Option RuntimeError)
        → s.fatal_error ≡ e
        → Fetches fl size nlines ports opt now opt.mode (limit opt.mode fuel) true s
        → Post
            (Reported opt.mode fuel s)
            (λ _. ⊥)
            (unless_fatal fl size nlines ports opt now e fuel s)
    unfolding unless_fatal
    unless_fatal-Report none ok f = run_mode-Report opt.mode f ok
    unless_fatal-Report (some e) err f =
        leave-Post fl size nlines text opt can s v cannot_restart
          (λ on s' r held. refused on s' e err held r)

    -- A run does not panic. It refuses a simulator with an earlier error; `RunStep` makes the steps
    -- asked for or leaves its loop before; `Run` and `SkipUntil` leave their loop or are still
    -- running after `fuel` instructions. At a breakpoint, which the first instruction does not look
    -- for, and at the goal of `SkipUntil` the program counter stands there; an error is kept; at the
    -- end of the program the counts are handed to the statistics. The processor stays valid, every
    -- instruction is counted once, and at least as many clock cycles are, save for the one that ends
    -- the program. The processor is valid, none of the fetches and decodings panics, the ports do
    -- not panic, the cache has a line, and what is watched exists.
    pub single_cycle-Report :
        Fetches fl size nlines ports opt now opt.mode (limit opt.mode fuel) true s
        → Post
            (Reported opt.mode fuel s)
            (λ _. ⊥)
            (single_cycle fl size nlines ports opt now fuel s)
    unfolding single_cycle
    single_cycle-Report f = unless_fatal-Report s.fatal_error refl f
