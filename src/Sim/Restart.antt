-- ===== src/Sim/Restart.antt =====
-- Runs of core_sim/src/sim.rs after a failure.
use cpuex2022_7_simulator.Common.{
  returned, ℕ, ◌<◌, ◌≡◌, refl, ◌∙◌, true, Option, some, none, done, Post,
}
use cpuex2022_7_simulator.Float.{Float32}
use cpuex2022_7_simulator.Memory.{Memory}
use cpuex2022_7_simulator.Cpu.State.{Ports, RuntimeError}
use cpuex2022_7_simulator.Cpu.Valid.{IsValid}
use cpuex2022_7_simulator.Cpu.ExecuteSafe.{NoPanic}
use cpuex2022_7_simulator.Sim.Options.{ExecuteMode, SimulationOption}
use cpuex2022_7_simulator.Sim.State.{
  Instant, Simulator, cannot_restart, OnBreak, ControlFlow, break, failure, exit_code,
}
use cpuex2022_7_simulator.Sim.Watching.{CanWatch, Held, leave-Post}
use cpuex2022_7_simulator.Sim.Rounds.{Fetches}
use cpuex2022_7_simulator.Sim.Runs.{Answer, broken, arrived, spied, died, ended}
use cpuex2022_7_simulator.Sim.Answers.{limit, single_cycle-Report, Report, refused, stepped, left}
use cpuex2022_7_simulator.Sim.{unless_fatal, single_cycle}

module _ (fl : Float32) (size nlines : ℕ) (text : Memory) {I O : Type 0} where
  open fl use {F}

  -- An error is kept, and the processor is valid.
  abbrev pub Kept : Simulator F I O → Type 0
  Kept s = ((e : RuntimeError) × (s.fatal_error ≡ some e)) × IsValid fl.zero size nlines text s.cpu

  Answer-Kept :
      (opt : SimulationOption F) (mode : ExecuteMode) (n : ℕ) (s s' : Simulator F I O)
      (flow : ControlFlow F)
      → Answer fl size nlines text opt mode n 1 s (some flow) s'
      → exit_code flow ≡ some failure
      → Kept s'
  unfolding exit_code
  Answer-Kept opt mode n s s' _ (broken on _ k bp h g r err p q) = rw q.same_reason (λ e. cc)
  Answer-Kept opt mode n s s' _ (arrived on _ k h g r err p q) = rw q.same_reason (λ e. cc)
  Answer-Kept opt mode n s s' _ (spied on _ k result g r err p) = rw p.same_reason (λ e. cc)
  Answer-Kept opt mode n s s' _ (died on _ k err g r p q) = λ e. ((err, p), r.valid)
  Answer-Kept opt mode n s s' _ (ended _ k g r err p q t) = λ e. cc

  pub Report-Kept :
      (opt : SimulationOption F) (mode : ExecuteMode) (fuel : ℕ) (s s' : Simulator F I O)
      (flow : ControlFlow F)
      → Report fl size nlines text opt mode fuel s (some flow) s'
      → exit_code flow ≡ some failure
      → Kept s'
  unfolding exit_code
  Report-Kept opt mode fuel s s' _ (refused on _ err q held r) =
      λ e. ((err, held.fatal_error ∙ q), held.valid)
  Report-Kept opt mode fuel s s' _ (stepped on _ r same ran ok q) = rw q.same_reason (λ e. cc)
  Report-Kept opt mode fuel s s' _ (left flow _ ok a) = λ e. Answer-Kept opt mode _ s s' flow a e

  -- The answer `CannotRestart`, and nothing but counts of accesses and types of words has changed.
  abbrev pub Refusal : Simulator F I O → Option (ControlFlow F) → Simulator F I O → Type 0
  Refusal s r s' =
      ((on : OnBreak F) × (r ≡ some (break on)) × (on.reason ≡ cannot_restart))
      × Held fl size nlines text s s'

  module _ (ports : Ports F I O) (opt : SimulationOption F) (can : CanWatch size text opt.watchings)
      (now : Instant) (fuel : ℕ) (s : Simulator F I O) where
    Kept-refused :
        (err : Option RuntimeError)
        → Kept s
        → s.fatal_error ≡ err
        → Post (Refusal s) (λ _. ⊥) (unless_fatal fl size nlines ports opt now err fuel s)
    unfolding unless_fatal
    Kept-refused none k e = absurd (cc (k.0.1, e))
    Kept-refused (some err) k e =
        leave-Post fl size nlines text opt can s k.1 cannot_restart
          (λ on s' r held. ((on, refl, r.same_reason), held))

    single_cycle-refused :
        Kept s → Post (Refusal s) (λ _. ⊥) (single_cycle fl size nlines ports opt now fuel s)
    unfolding single_cycle
    single_cycle-refused k = Kept-refused s.fatal_error k refl

  -- A valid simulator, none of whose fetches or decodings panics, is run and answers with the exit
  -- code of a failure. Whatever is asked of it then, it answers `CannotRestart`, and the
  -- simulator stays as it was but for counts of accesses and types of words. The ports do not panic, the cache
  -- has a line, and what is watched exists.
  pub failure_is_final :
      (ports : Ports F I O) (np : NoPanic ports) (pos : 0 < nlines) (opt : SimulationOption F)
      (can : CanWatch size text opt.watchings) (now : Instant) (fuel : ℕ) (s : Simulator F I O)
      (v : IsValid fl.zero size nlines text s.cpu)
      (f : Fetches fl size nlines ports opt now opt.mode (limit opt.mode fuel) true s)
      (flow : ControlFlow F) (s' : Simulator F I O)
      → single_cycle fl size nlines ports opt now fuel s ≡ done (some flow) s'
      → exit_code flow ≡ some failure
      → (opt' : SimulationOption F) → CanWatch size text opt'.watchings
      → (now' : Instant) (fuel' : ℕ)
      → Post (Refusal s') (λ _. ⊥) (single_cycle fl size nlines ports opt' now' fuel' s')
  failure_is_final ports np pos opt can now fuel s v f flow s' e failed opt' can' now' fuel' =
      let report : Post {E = RuntimeError} (Report fl size nlines text opt opt.mode fuel s) (λ _. ⊥)
          (done (some flow) s') =
        rw (← e) (single_cycle-Report fl size nlines text ports np pos opt can now fuel s v f) in
      single_cycle-refused ports opt' can' now' fuel' s'
        (Report-Kept opt opt.mode fuel s s' flow (returned report) failed)
