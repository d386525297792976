-- ===== src/Sim/State.antt =====
-- The state of core_sim/src/sim.rs and its answers. `F` is `f32`.
use cpuex2022_7_simulator.Common.{
  ℕ, ◌-◌, [], Option, none, some, Exec, within, Map, Result, ok, panic,
}
use cpuex2022_7_simulator.Ty.{TypedU32}
use cpuex2022_7_simulator.Memory.Watch.{SpyResult}
use cpuex2022_7_simulator.DebugSymbol.{DebugSymbol}
use cpuex2022_7_simulator.Cpu.State.{Cpu, RuntimeError}
use cpuex2022_7_simulator.Sim.Options.{Addr}

-- `Instant` and `Duration`, in nanoseconds
abbrev pub Instant : Type 0
Instant = ℕ

abbrev pub Duration : Type 0
Duration = ℕ

pub record SimStatBuilder : Type 0 where
  pub begin : Instant
  pub instr_file_len : Option ℕ
  pub elapsed_clocks : Option ℕ
  pub cycle : Option ℕ
  pub elapsed : Option Duration

unfoldable pub new_builder : Instant → SimStatBuilder
new_builder now = record {
  begin = now;
  instr_file_len = none;
  elapsed_clocks = none;
  cycle = none;
  elapsed = none;
}

-- `Instant::now() - self.begin`
unfoldable pub stop_timer : Instant → SimStatBuilder → SimStatBuilder
stop_timer now b = record b { elapsed = some (now - b.begin) }

pub record SimStat : Type 0 where
  pub instr_file_len : ℕ
  pub elapsed_clocks : ℕ
  pub cycle : ℕ
  pub elapsed : Duration

-- The `unwrap`s panic on what has not been set.
unfoldable pub finish : {E : Type 0} → SimStatBuilder → Result E SimStat
finish b = elim b.instr_file_len [
  | none ↦ panic
  | some len ↦ elim b.elapsed_clocks [
    | none ↦ panic
    | some clocks ↦ elim b.cycle [
      | none ↦ panic
      | some cycle ↦ elim b.elapsed [
        | none ↦ panic
        | some elapsed ↦ ok (record {
          instr_file_len = len;
          elapsed_clocks = clocks;
          cycle = cycle;
          elapsed = elapsed;
        })
      ]
    ]
  ]
]

pub record Simulator (F I O : Type 0) : Type 0 where
  pub cpu : Cpu F I O
  pub elapsed_clocks : ℕ
  pub cycle : ℕ
  pub debug_symbol : DebugSymbol
  pub fatal_error : Option RuntimeError
  pub stat_builder : SimStatBuilder

pub data BreakReason : Type 0 where
  cannot_restart : BreakReason
  failed : BreakReason
  reached : Addr → BreakReason
  step_ended : BreakReason
  break_point : Addr → BreakReason
  spy : SpyResult → BreakReason

pub record WatchingValues (F : Type 0) : Type 0 where
  pub reg_map : Map TypedU32
  pub freg_map : Map F
  pub memory_map : Map TypedU32

-- `WatchingValues::default()`
abbrev pub no_values : {F : Type 0} → WatchingValues F
no_values = record { reg_map = []; freg_map = []; memory_map = [] }

pub record OnBreak (F : Type 0) : Type 0 where
  pub watchings : WatchingValues F
  pub reason : BreakReason

pub data ControlFlow (F : Type 0) : Type 0 where
  break : OnBreak F → ControlFlow F
  exit : ControlFlow F

pub data ExitCode : Type 0 where
  success failure : ExitCode

unfoldable pub exit_code : {F : Type 0} → ControlFlow F → Option ExitCode
exit_code exit = some success
exit_code (break on) = elim on.reason [
  | cannot_restart ↦ some failure
  | failed ↦ some failure
  | reached _ ↦ none
  | step_ended ↦ none
  | break_point _ ↦ none
  | spy _ ↦ none
]

-- Methods of the processor.
abbrev pub in_cpu : {F I O E A : Type 0} → Exec (Cpu F I O) E A → Exec (Simulator F I O) E A
in_cpu m = within (λ s. s.cpu) (λ part s. record s { cpu = part }) m
