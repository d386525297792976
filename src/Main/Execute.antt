-- ===== src/Main/Execute.antt =====
-- `execute` of cli/src/main.rs without the prompt: its loop, and what it leaves to the statistics.
use cpuex2022_7_simulator.Common.{
  ℕ, zero, suc, ◌<◌, ◌≡◌, refl, sym, [], ◌∷◌, get_elem?, get_or, get_elem?-eq-get_or, arith, List,
  Bool, Bool-cases, ◌≢◌, panic, true, false, Option, none, some, Outcome, done, fail, abort, Post,
  returns, fails, ok, inl, inr, map_err, ◌>>=◌,
}
use cpuex2022_7_simulator.Float.{Float32}
use cpuex2022_7_simulator.Memory.{Memory}
use cpuex2022_7_simulator.Cpu.State.{Ports, RuntimeError}
use cpuex2022_7_simulator.Cpu.Valid.{IsValid}
use cpuex2022_7_simulator.Cpu.ExecuteSafe.{NoPanic}
use cpuex2022_7_simulator.Sim.Options.{run, default_option}
use cpuex2022_7_simulator.Sim.State.{
  Instant, Simulator, ControlFlow, ExitCode, success, failure, exit_code,
}
use cpuex2022_7_simulator.Sim.Watching.{CanWatch}
use cpuex2022_7_simulator.Sim.Rounds.{Fetches}
use cpuex2022_7_simulator.Sim.Answers.{Report, single_cycle-Report}
use cpuex2022_7_simulator.Sim.Restart.{Report-Kept}
use cpuex2022_7_simulator.Sim.{single_cycle}
use cpuex2022_7_simulator.Interactive.Stops.{Report-IsValid}
use cpuex2022_7_simulator.Interactive.{Command}
use cpuex2022_7_simulator.Main.{
  Outside, MainError, simulator_error, prompt_failed, report_error, after_answer, on_flow, run_on,
  execute,
}
use cpuex2022_7_simulator.RegFile.Region
use cpuex2022_7_simulator.Stat.{
  of_simulator, of_memory, of_regions, of_registers, of_instrs, of_branches, of_cache, Stat,
  collect_stat, add_cpu, add_reg_file,
}
use cpuex2022_7_simulator.Main.Commands.{after_execution, output_stat}
use cpuex2022_7_simulator.Main.Complete.{Measured, Complete, Report-Measured, Report-Complete}

nothing-CanWatch :
    (size : ℕ) (text : Memory) → CanWatch size text (record { reg = []; freg = []; memory = [] })
nothing-CanWatch size text = record { regs = tt; fregs = tt; addrs = tt }

module _ (P : Type 0) (fl : Float32) (size nlines : ℕ) (text : Memory) {I O : Type 0}
    (ports : Ports fl.F I O) (np : NoPanic ports) (pos : 0 < nlines) (now : Instant)
    (fuel : ℕ) where
  open fl use {F}

  abbrev One : Simulator F I O → Outcome (Simulator F I O) RuntimeError (Option (ControlFlow F))
  One = single_cycle fl size nlines ports default_option now fuel

  -- The fetch and the decoder do not panic in any run that the loop comes to.
  pub data Turns : ℕ → Simulator F I O → Type 0 where
    no_turns : (s : Simulator F I O) → Turns zero s
    one_turn :
        (n : ℕ) (s : Simulator F I O)
        → Fetches fl size nlines ports default_option now run fuel true s
        → ((flow : ControlFlow F) (s' : Simulator F I O)
            → single_cycle fl size nlines ports default_option now fuel s ≡ done (some flow) s'
            → exit_code flow ≡ none
            → Turns n s')
        → Turns (suc n) s

  -- How the command ends: still running, with an end of the program after which the statistics can
  -- be collected, or with the error that the simulator has kept.
  pub data Executed : Outcome (Simulator F I O) (MainError P) (Option (Unit {0})) → Type 0 where
    waiting :
        (s' : Simulator F I O) → IsValid fl.zero size nlines text s'.cpu → Executed (done none s')
    completed :
        (s' : Simulator F I O)
        → IsValid fl.zero size nlines text s'.cpu
        → Complete fl size nlines text (MainError P) s'
        → Executed (done (some tt) s')
    reported :
        (e : RuntimeError) (s' : Simulator F I O)
        → s'.fatal_error ≡ some e
        → Executed (fail (simulator_error e) s')

  abbrev Told : Simulator F I O → Option (ControlFlow F) → Simulator F I O → Type 0
  Told s = Report fl size nlines text default_option run fuel s

  module _ (n : ℕ) (s s' : Simulator F I O) (m : Measured fl size nlines text s) where
    after_answer-Executed :
        (flow : ControlFlow F) (code : Option ExitCode)
        → exit_code flow ≡ code
        → Told s (some flow) s'
        → (code ≡ none → Executed (run_on P fl size nlines ports now fuel n s'))
        → Executed (
            after_answer P fl size nlines ports now code
              (run_on P fl size nlines ports now fuel n)
              s')
    unfolding after_answer report_error
    after_answer-Executed flow none e r go = go refl
    after_answer-Executed flow (some success) e r go =
        completed s' (Report-IsValid fl size nlines text r) (
          Report-Complete fl size nlines text (MainError P) default_option run fuel s s' flow r m e)
    after_answer-Executed flow (some failure) e r go =
        let ((err, kept), v) =
          Report-Kept fl size nlines text default_option run fuel s s' flow r e in
        rw (report_error, kept) (reported err s' kept)

  on_flow-Executed :
      (n : ℕ) (s s' : Simulator F I O) (flow : Option (ControlFlow F))
      → Measured fl size nlines text s
      → Told s flow s'
      → ((f : ControlFlow F)
          → flow ≡ some f
          → exit_code f ≡ none
          → Executed (run_on P fl size nlines ports now fuel n s'))
      → Executed
          (on_flow P fl size nlines ports now flow (run_on P fl size nlines ports now fuel n) s')
  unfolding on_flow
  on_flow-Executed n s s' none m r go = waiting s' (Report-IsValid fl size nlines text r)
  on_flow-Executed n s s' (some f) m r go =
      after_answer-Executed n s s' m f (exit_code f) refl r (go f refl)

  answered :
      (n : ℕ) (s : Simulator F I O)
      (o : Outcome (Simulator F I O) RuntimeError (Option (ControlFlow F)))
      → Measured fl size nlines text s
      → Post (Told s) (λ _. ⊥) o
      → ((f : ControlFlow F) (s' : Simulator F I O)
          → o ≡ done (some f) s'
          → Told s (some f) s'
          → exit_code f ≡ none
          → Executed (run_on P fl size nlines ports now fuel n s'))
      → Executed (
          (map_err prompt_failed (λ (_ : Simulator F I O). o) >>= λ flow.
          on_flow P fl size nlines ports now flow (run_on P fl size nlines ports now fuel n))
            s)
  answered n s (done flow s') m (returns r) again = on_flow-Executed n s s' flow m r (λ f e c.
      let same : ◌≡◌ {A = Outcome (Simulator F I O) RuntimeError (Option (ControlFlow F))}
          (done flow s') (done (some f) s') =
        rw e refl in
      again f s' same (rw (sym e) r) c)
  answered n s (fail err s') m (fails q) again = absurd q
  answered n s abort m q again = elim q [ ]

  run_on-Executed :
      (turns : ℕ) (s : Simulator F I O)
      → IsValid fl.zero size nlines text s.cpu
      → Measured fl size nlines text s
      → Turns turns s
      → Executed (run_on P fl size nlines ports now fuel turns s)
  unfolding run_on
  run_on-Executed zero s v m t = waiting s v
  run_on-Executed (suc n) s v m (one_turn _ _ fetches later) =
      answered n s (single_cycle fl size nlines ports default_option now fuel s) m
        (single_cycle-Report fl size nlines text ports np pos default_option
          (nothing-CanWatch size text) now fuel s v fetches)
        (λ f s' e r c.
          run_on-Executed n s' (Report-IsValid fl size nlines text r)
            (Report-Measured fl size nlines text default_option run fuel s s' _ r m)
            (later f s' e c))

  -- The statistics can be collected.
  collect_stat-total :
      (s' : Simulator F I O)
      → IsValid fl.zero size nlines text s'.cpu
      → Complete fl size nlines text (MainError P) s'
      → (stats : List Stat) × (collect_stat {E = MainError P} s' ≡ ok stats)
  unfolding collect_stat add_cpu add_reg_file
  collect_stat-total s' v (stat, e) =
      let hp : get_elem? s'.cpu.reg_file.inner 4 ≡ some (get_or s'.cpu.reg_file.inner 4 0) =
        get_elem?-eq-get_or s'.cpu.reg_file.inner 4 0 (omega (arith, v.registers.regs)) in
      (
        of_simulator stat
            ∷ of_memory s'.cpu.memory.stat_mem
            ∷ of_regions
                (Region.finish (get_or s'.cpu.reg_file.inner 4 0) s'.cpu.reg_file.stat_memregion)
            ∷ of_registers s'.cpu.reg_file.stat_i s'.cpu.reg_file.stat_f
            ∷ of_instrs s'.cpu.i_stat
            ∷ of_branches s'.cpu.b_stat
            ∷ of_cache s'.cpu.c_stat
            ∷ [],
        rw (collect_stat, e, add_cpu, add_reg_file, hp) refl,
      )

  -- What the command does behind `execute`, with the statistics printed or not.
  after_execution-total :
      {T : Type 0} (outside : Outside P T) (typed : List (Command F)) (turns : ℕ) (verbose : Bool)
      (o : Outcome (Simulator F I O) (MainError P) (Option (Unit {0})))
      → Executed o
      → after_execution outside fl size nlines now typed fuel turns verbose o ≢ panic
  unfolding after_execution output_stat
  after_execution-total outside typed turns verbose _ (waiting s' v) = λ e. cc
  after_execution-total outside typed turns verbose _ (completed s' v c) =
      let (stats, e) = collect_stat-total s' v c in
      elim (Bool-cases (outside.logs_info verbose)) [
        | inl logs ↦ rw (output_stat, logs, e) (λ q. cc)
        | inr quiet ↦ rw (output_stat, quiet) (λ q. cc)
      ]
  after_execution-total outside typed turns verbose _ (reported err s' e) = λ q. cc

  -- Without the prompt, the command does not panic, also not where it asks for the message of an
  -- error: it is still running, or it has ended as the program has, and then the statistics can be
  -- collected, or it reports the error that the simulator has kept. What it does then with the
  -- statistics and the output does not panic either. The processor is valid, none of the fetches
  -- and decodings panics, the ports do not panic, the cache has a line, and the length of the file
  -- has been handed to the statistics.
  pub execute-Executed :
      {T : Type 0} (outside : Outside P T) (typed : List (Command F)) (turns : ℕ) (verbose : Bool)
      (s : Simulator F I O)
      → IsValid fl.zero size nlines text s.cpu
      → Measured fl size nlines text s
      → Turns turns s
      → Executed (execute P fl size nlines ports now typed fuel turns false s)
        × (after_execution outside fl size nlines now typed fuel turns verbose
              (execute P fl size nlines ports now typed fuel turns false s)
            ≢ panic)
  unfolding execute
  execute-Executed outside typed turns verbose s v m t =
      let r = run_on-Executed turns s v m t in
      (r, after_execution-total outside typed turns verbose _ r)
