-- ===== src/Main/Complete.antt =====
-- A run of core_sim/src/sim.rs that ends leaves all that cli/src/main.rs prints as statistics.
use cpuex2022_7_simulator.Common.{ℕ, ◌≡◌, ◌∙◌, ap, refl, Option, some, ok}
use cpuex2022_7_simulator.Float.{Float32}
use cpuex2022_7_simulator.Memory.{Memory}
use cpuex2022_7_simulator.Sim.Options.{ExecuteMode, SimulationOption}
use cpuex2022_7_simulator.Sim.State.{
  Duration, SimStatBuilder, Simulator, SimStat, ControlFlow, success, exit_code, finish,
}
use cpuex2022_7_simulator.Sim.Runs.{Ran, Answer, running, broken, arrived, spied, died, ended}
use cpuex2022_7_simulator.Sim.Answers.{Report, refused, stepped, still_running, left}

all_set :
    (E : Type 0) (b : SimStatBuilder) (len clocks cycle : ℕ) (elapsed : Duration)
    → b.instr_file_len ≡ some len
    → b.elapsed_clocks ≡ some clocks
    → b.cycle ≡ some cycle
    → b.elapsed ≡ some elapsed
    → (stat : SimStat) × (finish {E = E} b ≡ ok stat)
unfolding finish
all_set E b len clocks cycle elapsed e1 e2 e3 e4 = (
  record { instr_file_len = len; elapsed_clocks = clocks; cycle = cycle; elapsed = elapsed },
  rw (finish, e1, e2, e3, e4) refl,
)

module _ (fl : Float32) (size nlines : ℕ) (text : Memory) {I O : Type 0} where
  open fl use {F}

  -- The length of the file is known.
  abbrev pub Measured : Simulator F I O → Type 0
  Measured s = (len : ℕ) × (s.stat_builder.instr_file_len ≡ some len)

  -- The statistics can be collected without a panic.
  abbrev pub Complete : Type 0 → Simulator F I O → Type 0
  Complete E s = (stat : SimStat) × (finish {E = E} s.stat_builder ≡ ok stat)

  moved :
      (k clocks : ℕ) (s s' : Simulator F I O)
      → Ran fl size nlines text k clocks s s'
      → Measured s
      → Measured s'
  moved k clocks s s' r (len, e) = (len, r.file_len ∙ e)

  Answer-Measured :
      (opt : SimulationOption F) (mode : ExecuteMode) (n least : ℕ) (s s' : Simulator F I O)
      (flow : Option (ControlFlow F))
      → Answer fl size nlines text opt mode n least s flow s'
      → Measured s
      → Measured s'
  Answer-Measured opt mode n least s s' _ (running _ r e) = moved _ _ s s' r
  Answer-Measured opt mode n least s s' _ (broken on _ k bp h g r e p q) = moved _ _ s s' r
  Answer-Measured opt mode n least s s' _ (arrived on _ k h g r e p q) = moved _ _ s s' r
  Answer-Measured opt mode n least s s' _ (spied on _ k result g r e p) = moved _ _ s s' r
  Answer-Measured opt mode n least s s' _ (died on _ k err g r p q) = moved _ _ s s' r
  Answer-Measured opt mode n least s s' _ (ended _ k g r e p q t) = moved _ _ s s' r

  pub Report-Measured :
      (opt : SimulationOption F) (mode : ExecuteMode) (fuel : ℕ) (s s' : Simulator F I O)
      (flow : Option (ControlFlow F))
      → Report fl size nlines text opt mode fuel s flow s'
      → Measured s
      → Measured s'
  Report-Measured opt mode fuel s s' _ (refused on _ e err held q) =
      λ m. (m.0, ap (λ (b : SimStatBuilder). b.instr_file_len) held.stat_builder ∙ m.1)
  Report-Measured opt mode fuel s s' _ (stepped on _ r same ran none_yet q) = moved _ _ s s' ran
  Report-Measured opt mode fuel s s' _ (still_running _ u ran none_yet) = moved _ _ s s' ran
  Report-Measured opt mode fuel s s' _ (left flow _ none_yet a) =
      Answer-Measured opt mode _ 1 s s' _ a

  Answer-Complete :
      (E : Type 0) (opt : SimulationOption F) (mode : ExecuteMode) (n : ℕ) (s s' : Simulator F I O)
      (flow : ControlFlow F)
      → Answer fl size nlines text opt mode n 1 s (some flow) s'
      → Measured s
      → exit_code flow ≡ some success
      → Complete E s'
  unfolding exit_code
  Answer-Complete E opt mode n s s' _ (broken on _ k bp h g r err p q) m =
      rw q.same_reason (λ e. absurd cc)
  Answer-Complete E opt mode n s s' _ (arrived on _ k h g r err p q) m =
      rw q.same_reason (λ e. absurd cc)
  Answer-Complete E opt mode n s s' _ (spied on _ k result g r err p) m =
      rw p.same_reason (λ e. absurd cc)
  Answer-Complete E opt mode n s s' _ (died on _ k err g r p q) m =
      rw q.same_reason (λ e. absurd cc)
  Answer-Complete E opt mode n s s' _ (ended _ k g r err p q (d, t)) m = λ e.
      let (len, same) = moved _ _ s s' r m in
      all_set E s'.stat_builder len s'.elapsed_clocks s'.cycle d same q p t

  pub Report-Complete :
      (E : Type 0) (opt : SimulationOption F) (mode : ExecuteMode) (fuel : ℕ)
      (s s' : Simulator F I O) (flow : ControlFlow F)
      → Report fl size nlines text opt mode fuel s (some flow) s'
      → Measured s
      → exit_code flow ≡ some success
      → Complete E s'
  unfolding exit_code
  Report-Complete E opt mode fuel s s' _ (refused on _ err q held r) m =
      rw r.same_reason (λ e. absurd cc)
  Report-Complete E opt mode fuel s s' _ (stepped on _ r same ran none_yet q) m =
      rw q.same_reason (λ e. absurd cc)
  Report-Complete E opt mode fuel s s' _ (left flow _ none_yet a) m =
      Answer-Complete E opt mode _ s s' flow a m
