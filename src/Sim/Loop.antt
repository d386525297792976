-- ===== src/Sim/Loop.antt =====
-- The loops of core_sim/src/sim.rs in each mode, and `single_cycle`.
use cpuex2022_7_simulator.Common.{
  ℕ, zero, suc, ◌<◌, ◌≤◌, ◌≡◌, refl, ◌∙◌, sym, ap, arith, Bool, true, false, inl, inr, Option, some,
  none, done, Post, Post-bind, Post-weaken, Post-returned, returns, Bool-cases, ◌==◌, ==_iff,
}
use cpuex2022_7_simulator.Float.{Float32}
use cpuex2022_7_simulator.Memory.{Memory}
use cpuex2022_7_simulator.Cpu.State.{Cpu, Ports}
use cpuex2022_7_simulator.Cpu.Valid.{IsValid}
use cpuex2022_7_simulator.Cpu.ExecuteSafe.{NoPanic}
use cpuex2022_7_simulator.Cpu.CycleSafe.{Decodes}
use cpuex2022_7_simulator.Sim.Options.{ExecuteMode, run, skip_until, run_step, SimulationOption}
use cpuex2022_7_simulator.Sim.State.{Instant, Simulator, reached, ControlFlow}
use cpuex2022_7_simulator.Sim.Watching.{CanWatch, leave-Post}
use cpuex2022_7_simulator.Sim.Runs.{Answer, Answer-suc, Answer-left, running, arrived}
use cpuex2022_7_simulator.Sim.Rounds.{entered, Fetches, next, Ran-zero, execute-Answer}
use cpuex2022_7_simulator.Sim.{round, rounds, unless_left}

module _ (fl : Float32) (size nlines : ℕ) (text : Memory) {I O : Type 0} (ports : Ports fl.F I O)
    (np : NoPanic ports) (pos : 0 < nlines) (opt : SimulationOption fl.F)
    (can : CanWatch size text opt.watchings) (now : Instant) where
  open fl use {F}

  abbrev Valid : Cpu F I O → Type 0
  Valid c = IsValid fl.zero size nlines text c

  abbrev Rounds :
      ExecuteMode → ℕ → ℕ → Simulator F I O → Option (ControlFlow F) → Simulator F I O → Type 0
  Rounds = Answer fl size nlines text opt

  goal-Answer :
      (pc : ℕ) (s : Simulator F I O)
      → Decodes s.cpu
      → Valid s.cpu
      → Post
          (Rounds (skip_until pc) 1 0 s)
          (λ _. ⊥)
          (round fl size nlines ports opt now (skip_until pc) false s)
  unfolding round
  goal-Answer pc s d v = elim (Bool-cases (pc == s.cpu.pc)) [
    | inr further ↦
        rw further
          (execute-Answer fl size nlines text ports np pos opt can now (skip_until pc) s d v false)
    | inl there ↦
        let at : pc ≡ s.cpu.pc = (==_iff pc s.cpu.pc).0 there in
        rw there (
          leave-Post fl size nlines text opt can s v (reached pc) (λ on s' r held.
            let at' : pc ≡ s'.cpu.pc = at ∙ sym held.pc in
            arrived on s' 0 (omega arith) (omega arith)
              (Ran-zero fl size nlines text ports np pos opt can now (skip_until pc) s s' held)
              held.fatal_error (ap skip_until at')
              (record { same_reason = r.same_reason ∙ ap reached at'; gathered = r.gathered })))
  ]

  round-Answer :
      (mode : ExecuteMode) (is_enter : Bool) (s : Simulator F I O)
      → Decodes s.cpu
      → Valid s.cpu
      → Post
          (Rounds mode 1 (entered is_enter) s)
          (λ _. ⊥)
          (round fl size nlines ports opt now mode is_enter s)
  unfolding round
  round-Answer run is_enter s d v =
      execute-Answer fl size nlines text ports np pos opt can now run s d v is_enter
  round-Answer (run_step r) is_enter s d v =
      execute-Answer fl size nlines text ports np pos opt can now (run_step r) s d v is_enter
  round-Answer (skip_until pc) true s d v =
      execute-Answer fl size nlines text ports np pos opt can now (skip_until pc) s d v true
  round-Answer (skip_until pc) false s d v = goal-Answer pc s d v

  entered-le : (is_enter : Bool) → entered is_enter ≤ 1
  entered-le true = omega arith
  entered-le false = omega arith

  module _ (mode : ExecuteMode) where
    -- A round, and the others if it has not left the loop.
    further-Answer :
        (n : ℕ) (is_enter : Bool) (s : Simulator F I O) (r : Option (ControlFlow F))
        (s1 : Simulator F I O)
        → Rounds mode 1 (entered is_enter) s r s1
        → (r ≡ none
            → Valid s1.cpu
            → Post
                (Rounds mode n 0 s1)
                (λ _. ⊥)
                (rounds fl size nlines ports opt now mode n false s1))
        → Post
            (Rounds mode (suc n) (entered is_enter) s)
            (λ _. ⊥)
            (unless_left r (rounds fl size nlines ports opt now mode n false) s1)
    unfolding unless_left
    further-Answer n is_enter s none s1 (running _ r err) rest =
        Post-weaken (rest refl r.valid)
          (λ r' s' a. Answer-suc fl size nlines text (entered-le is_enter) r err a) (λ _ b. b)
    further-Answer n is_enter s (some flow) s1 a rest =
        returns (Answer-left fl size nlines text n a)

    pub rounds-Answer :
        (n : ℕ) (is_enter : Bool) (s : Simulator F I O)
        → Fetches fl size nlines ports opt now mode n is_enter s
        → Valid s.cpu
        → Post
            (Rounds mode n (entered is_enter) s)
            (λ _. ⊥)
            (rounds fl size nlines ports opt now mode n is_enter s)
    unfolding rounds
    rounds-Answer zero is_enter s f v = returns (
        running s
          (record { valid = v; cycle = omega arith; elapsed = omega arith; file_len = refl }) refl)
    rounds-Answer (suc n) is_enter s (next _ _ _ d f) v =
        Post-bind (round fl size nlines ports opt now mode is_enter) _ s
          (Post-returned _ (round-Answer mode is_enter s d v))
          (λ r s1 q.
            further-Answer n is_enter s r s1 q.1
              (λ e v1. rounds-Answer n false s1 (f s1 (q.0 ∙ ap (λ r'. done r' s1) e)) v1))
