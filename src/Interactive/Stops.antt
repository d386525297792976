-- ===== src/Interactive/Stops.antt =====
-- A stop that cli/src/interactive.rs is told of by core_sim/src/sim.rs.

use cpuex2022_7_simulator.Common.{
  ℕ, ◌<◌, ◌≡◌, refl, sym, ◌∙◌, Bool, true, false, List, [], ◌∷◌, Option, none, some, done, Post,
  returns, Post-bind, Post-within, Post-weaken, returned, Has, Map, lookup,
}
use cpuex2022_7_simulator.Float.{Float32}
use cpuex2022_7_simulator.Memory.{Memory}
use cpuex2022_7_simulator.Cpu.State.{Ports, RuntimeError}
use cpuex2022_7_simulator.Cpu.Valid.{IsValid}
use cpuex2022_7_simulator.Cpu.ExecuteSafe.{NoPanic}
use cpuex2022_7_simulator.Sim.Options.{SimulationOption, BreakPoint, ExecuteMode}
use cpuex2022_7_simulator.Sim.State.{
  Instant, Simulator, BreakReason, cannot_restart, failed, reached, step_ended, break_point, spy,
  OnBreak, ControlFlow, break, exit, exit_code, failure,
}
use cpuex2022_7_simulator.Sim.Watching.{CanWatch, Each, HasWatched}
use cpuex2022_7_simulator.Sim.Rounds.{Fetches}
use cpuex2022_7_simulator.Sim.Runs.{Answer, running, broken, arrived, spied, died, ended}
use cpuex2022_7_simulator.Sim.Answers.{
  limit, Report, single_cycle-Report, refused, stepped, still_running, left,
}
use cpuex2022_7_simulator.Sim.Restart.{Report-Kept}
use cpuex2022_7_simulator.Sim.{single_cycle}
use cpuex2022_7_simulator.Interactive.{Session}
use cpuex2022_7_simulator.Interactive.Turns.{
  in_sim, nothing, cannot_restart_due_to, failed_at, reached_breakpoint, detected, Told, Printed,
  values, tell, unless_shown, shown_files, print_stop, after_run, start,
}

module _ (fl : Float32) (size nlines : ℕ) (text : Memory) {I O : Type 0} where
  open fl use {F}

  Answer-HasWatched :
      {opt : SimulationOption F} {mode : ExecuteMode} {n : ℕ} {s s' : Simulator F I O}
      {on : OnBreak F}
      → Answer fl size nlines text opt mode n 1 s (some (break on)) s'
      → HasWatched opt.watchings on.watchings
  Answer-HasWatched (broken on s' k bp h g r err p q) = q.gathered
  Answer-HasWatched (arrived on s' k h g r err p q) = q.gathered
  Answer-HasWatched (spied on s' k result g r err p) = p.gathered
  Answer-HasWatched (died on s' k err g r p q) = q.gathered

  Report-HasWatched :
      {opt : SimulationOption F} {mode : ExecuteMode} {fuel : ℕ} {s s' : Simulator F I O}
      {on : OnBreak F}
      → Report fl size nlines text opt mode fuel s (some (break on)) s'
      → HasWatched opt.watchings on.watchings
  Report-HasWatched (refused on s' e err held q) = q.gathered
  Report-HasWatched (stepped on s' r same ran ok q) = q.gathered
  Report-HasWatched (left flow s' ok a) = Answer-HasWatched a

  Answer-pc :
      {opt : SimulationOption F} {mode : ExecuteMode} {n : ℕ} {s s' : Simulator F I O}
      {on : OnBreak F} (a : ℕ)
      → Answer fl size nlines text opt mode n 1 s (some (break on)) s'
      → on.reason ≡ break_point a
      → (bp : BreakPoint F) × (lookup s'.cpu.pc opt.breakpoints ≡ some bp) × (bp.addr ≡ a)
  Answer-pc a (broken on s' k bp h g r err p q) e = (bp, p, cc (q.same_reason, e))
  Answer-pc a (arrived on s' k h g r err p q) e = absurd (cc (q.same_reason, e))
  Answer-pc a (spied on s' k result g r err p) e = absurd (cc (p.same_reason, e))
  Answer-pc a (died on s' k err g r p q) e = absurd (cc (q.same_reason, e))

  Report-pc :
      {opt : SimulationOption F} {mode : ExecuteMode} {fuel : ℕ} {s s' : Simulator F I O}
      {on : OnBreak F} (a : ℕ)
      → Report fl size nlines text opt mode fuel s (some (break on)) s'
      → on.reason ≡ break_point a
      → (bp : BreakPoint F) × (lookup s'.cpu.pc opt.breakpoints ≡ some bp) × (bp.addr ≡ a)
  Report-pc a (refused on s' err p held q) e = absurd (cc (q.same_reason, e))
  Report-pc a (stepped on s' r same ran ok q) e = absurd (cc (q.same_reason, e))
  Report-pc a (left flow s' ok ans) e = Answer-pc a ans e

module _ (fl : Float32) (size nlines : ℕ) (text : Memory) {I O : Type 0} where
  open fl use {F}

  Answer-IsValid :
      {opt : SimulationOption F} {mode : ExecuteMode} {n : ℕ} {s s' : Simulator F I O}
      {flow : Option (ControlFlow F)}
      → Answer fl size nlines text opt mode n 1 s flow s'
      → IsValid fl.zero size nlines text s'.cpu
  Answer-IsValid (running s' r err) = r.valid
  Answer-IsValid (broken on s' k bp h g r err p q) = r.valid
  Answer-IsValid (arrived on s' k h g r err p q) = r.valid
  Answer-IsValid (spied on s' k result g r err p) = r.valid
  Answer-IsValid (died on s' k err g r p q) = r.valid
  Answer-IsValid (ended s' k g r err p q t) = r.valid

  pub Report-IsValid :
      {opt : SimulationOption F} {mode : ExecuteMode} {fuel : ℕ} {s s' : Simulator F I O}
      {flow : Option (ControlFlow F)}
      → Report fl size nlines text opt mode fuel s flow s'
      → IsValid fl.zero size nlines text s'.cpu
  Report-IsValid (refused on s' e err held q) = held.valid
  Report-IsValid (stepped on s' r same ran ok q) = ran.valid
  Report-IsValid (still_running s' u ran ok) = ran.valid
  Report-IsValid (left flow s' ok a) = Answer-IsValid a

values_total :
    {V : Type 0} (ks : List ℕ) (m : Map V)
    → Each (λ k. Has k m) ks
    → (vs : List (ℕ × V)) × (values ks m ≡ some vs)
unfolding values
values_total [] m h = ([], refl)
values_total (k ∷ ks) m ((v, e), h) =
    let (vs, p) = values_total ks m h in ((k, v) ∷ vs, unfold values in rw (values, e, p) refl)

unless_shown_total :
    {V : Type 0} (shown : Bool) (ks : List ℕ) (m : Map V)
    → Each (λ k. Has k m) ks
    → (vs : List (ℕ × V)) × (unless_shown shown ks m ≡ some vs)
unfolding unless_shown
unless_shown_total true ks m h = ([], refl)
unless_shown_total false ks m h = values_total ks m h

module _ {F I O : Type 0} where
  -- An error stands where a stop is a failure.
  tell_total :
      (on : OnBreak F) (sim : Simulator F I O)
      → (exit_code (break on) ≡ some failure → (e : RuntimeError) × (sim.fatal_error ≡ some e))
      → (told : Told) × (tell on.reason sim ≡ some told)
  unfolding exit_code
  tell_total on sim h = by_reason on.reason h
    where
      by_reason :
          (reason : BreakReason)
          → (exit_code {F = F} (break (record on { reason = reason })) ≡ some failure
              → (e : RuntimeError) × (sim.fatal_error ≡ some e))
          → (told : Told) × (tell reason sim ≡ some told)
      by_reason cannot_restart h =
          let (e, p) = h refl in (cannot_restart_due_to e, unfold tell in rw (tell, p) refl)
      by_reason failed h =
          let (e, p) = h refl in (failed_at sim.cycle e, unfold tell in rw (tell, p) refl)
      by_reason (reached a) h = (nothing, unfold tell in refl)
      by_reason step_ended h = (nothing, unfold tell in refl)
      by_reason (break_point a) h = (reached_breakpoint a, unfold tell in refl)
      by_reason (spy result) h = (detected result, unfold tell in refl)

  print_stop_total :
      (s : Session F I O) (on : OnBreak F)
      → HasWatched s.opt.watchings on.watchings
      → (exit_code (break on) ≡ some failure → (e : RuntimeError) × (s.sim.fatal_error ≡ some e))
      → (p : Printed F) × (print_stop s on ≡ some p)
  print_stop_total s on has h =
      let (told, t) = tell_total on s.sim h in
      let (regs, r) =
        unless_shown_total s.watching_regfile.integers s.opt.watchings.reg on.watchings.reg_map
          has.0 in
      let (fregs, f) =
        unless_shown_total s.watching_regfile.floats s.opt.watchings.freg on.watchings.freg_map
          has.1 in
      let (words, w) = values_total s.opt.watchings.memory on.watchings.memory_map has.2 in
      (
        record {
          told = told;
          files = shown_files s.watching_regfile.integers s.watching_regfile.floats;
          regs = regs;
          fregs = fregs;
          words = words;
        },
        unfold print_stop in rw (print_stop, t, r, f, w) refl,
      )

module _ (fl : Float32) (size nlines : ℕ) (text : Memory) {I O : Type 0} (ports : Ports fl.F I O)
    (np : NoPanic ports) (pos : 0 < nlines) (now : Instant) (fuel : ℕ) (s : Session fl.F I O)
    (can : CanWatch size text s.opt.watchings) where
  open fl use {F}

  abbrev Ran : Option (ControlFlow F) → Session F I O → Type 0
  Ran flow s1 =
      Report fl size nlines text s.opt s.opt.mode fuel s.sim flow s1.sim × (s1.opt ≡ s.opt)

  after_run-Post :
      (flow : Option (ControlFlow F)) (s1 : Session F I O)
      → Ran flow s1
      → Post {E = RuntimeError}
          (λ _ s'. IsValid fl.zero size nlines text s'.sim.cpu)
          (λ _. ⊥)
          (after_run flow s1)
  unfolding after_run
  after_run-Post none s1 q = returns (Report-IsValid fl size nlines text q.0)
  after_run-Post (some exit) s1 q = returns (Report-IsValid fl size nlines text q.0)
  after_run-Post (some (break on)) s1 q =
      let has : HasWatched s1.opt.watchings on.watchings =
        rw q.1 (Report-HasWatched fl size nlines text q.0) in
      let (p, e) = print_stop_total s1 on has (λ failed.
        (Report-Kept fl size nlines text s.opt s.opt.mode fuel s.sim s1.sim (break on) q.0
          failed).0) in
      rw (after_run, e) (returns (Report-IsValid fl size nlines text q.0))

  -- A run that the prompt starts does not panic, and neither does telling of its stop: there is an
  -- error where one is told of, and every value that is printed has been gathered. It leaves a valid
  -- processor. The processor is valid, none of the fetches and decodings panics, the ports do not
  -- panic, the cache has a line, and what is watched exists.
  pub start-Post :
      (v : IsValid fl.zero size nlines text s.sim.cpu)
      → Fetches fl size nlines ports s.opt now s.opt.mode (limit s.opt.mode fuel) true s.sim
      → Post
          (λ _ s'. IsValid fl.zero size nlines text s'.sim.cpu)
          (λ _. ⊥)
          (start fl size nlines ports now fuel s)
  unfolding start
  start-Post v f =
      Post-bind {Q = Ran} (in_sim (single_cycle fl size nlines ports s.opt now fuel)) _ s
        (Post-within (λ s1. s1.sim) (λ part s1. record s1 { sim = part })
          (single_cycle fl size nlines ports s.opt now fuel) s
          (Post-weaken
            (single_cycle-Report fl size nlines text ports np pos s.opt can now fuel s.sim v f)
            (λ flow t q. (q, refl)) (λ _ b. b)))
        (λ flow s1 q. after_run-Post flow s1 q)

  -- Where the breakpoints are kept under their addresses, a run that stops at the breakpoint `a`
  -- stops with the program counter at `a`, under the same conditions.
  pub breakpoint_at :
      (v : IsValid fl.zero size nlines text s.sim.cpu)
      → Fetches fl size nlines ports s.opt now s.opt.mode (limit s.opt.mode fuel) true s.sim
      → ((k : ℕ) (bp : BreakPoint F) → lookup k s.opt.breakpoints ≡ some bp → bp.addr ≡ k)
      → (on : OnBreak F) (sim' : Simulator F I O) (a : ℕ)
      → single_cycle fl size nlines ports s.opt now fuel s.sim ≡ done (some (break on)) sim'
      → on.reason ≡ break_point a
      → sim'.cpu.pc ≡ a
  breakpoint_at v f keyed on sim' a e r =
      let report : Post {E = RuntimeError} (Report fl size nlines text s.opt s.opt.mode fuel s.sim)
          (λ _. ⊥) (done (some (break on)) sim') =
        rw (← e)
          (single_cycle-Report fl size nlines text ports np pos s.opt can now fuel s.sim v f) in
      let (bp, found, same) = Report-pc fl size nlines text a (returned report) r in
      sym (keyed sim'.cpu.pc bp found) ∙ same
