-- ===== src/Main.antt =====
-- cli/src/main.rs: the two commands. The parser of the arguments is made by the library clap: this
-- begins at what it returns. The files, the logger and what is typed at the prompt are parameters.
pub mod Commands
pub mod Complete
pub mod Execute
use Prim.Native.String.{String}
use cpuex2022_7_simulator.Common.{
  ℕ, zero, suc, Bool, true, false, List, [], ◌∷◌, Option, none, some, if◌then◌else◌, Exec, Outcome,
  done, fail, abort, Result, ok, err, panic, ◌>>=◌, pure, map_err,
}
use cpuex2022_7_simulator.Float.{Float32}
use cpuex2022_7_simulator.Cpu.State.{Ports, RuntimeError, AnyhowError, message}
use cpuex2022_7_simulator.DebugSymbol.{DebugSymbol, DebugSymbolRaw, no_symbols, of_raw}
use cpuex2022_7_simulator.Io
use cpuex2022_7_simulator.Sld
use cpuex2022_7_simulator.Sld.{Scanner, SldData, ReadError, parse_sld}
use cpuex2022_7_simulator.Ppm
use cpuex2022_7_simulator.Ppm.{PpmDataV6, HeaderScanner, into_inner, verify_header}
use cpuex2022_7_simulator.Sim.Options.{default_option}
use cpuex2022_7_simulator.Sim.State.{
  Instant, Simulator, ControlFlow, ExitCode, success, failure, exit_code, SimStat, finish,
}
use cpuex2022_7_simulator.Sim
use cpuex2022_7_simulator.Sim.{single_cycle, provide_dbg_symb}
use cpuex2022_7_simulator.Interactive.{Command}
use cpuex2022_7_simulator.Interactive.Turns.{execute_interactive}

pub record CommonArgs (P : Type 0) : Type 0 where
  pub input : P
  pub interactive : Bool
  pub verbose : Bool
  pub debug_symbol : Option P

pub record RtArgs (P : Type 0) : Type 0 where
  pub delegate : CommonArgs P
  pub sld : P
  pub ppm : P

pub record ExeArgs (P : Type 0) : Type 0 where
  pub delegate : CommonArgs P
  pub stdin : Option P
  pub stdout : Option P

-- the errors, by what has failed
pub data MainError (P : Type 0) : Type 0 where
  cannot_open : P → MainError P
  not_symbols : P → MainError P
  not_scene : ReadError → MainError P
  prompt_failed : RuntimeError → MainError P
  simulator_error : RuntimeError → MainError P
  invalid_header : MainError P

-- The files by their paths `P`, with texts in `T`; whether `log::info!` prints, by `verbose`; and the
-- text of an error of the scene.
pub record Outside (P T : Type 0) : Type 0 where
  pub read_to_end : P → Option (List ℕ)
  pub read_to_string : P → Option T
  pub deserialize : P → Option DebugSymbolRaw
  pub can_write : P → Bool
  pub logs_info : Bool → Bool
  pub describe : Sld.TypeError → String

-- A file that is left behind.
pub record Written (P : Type 0) : Type 0 where
  pub path : P
  pub bytes : List ℕ

-- `?` on results; `none` in a result says that the program is still running.
abbrev pub and_then : {E A B : Type 0} → Result E A → (A → Result E B) → Result E B
and_then (ok a) f = f a
and_then (err e) f = err e
and_then panic f = panic

abbrev pub if_ended :
    {E A B : Type 0} → Result E (Option A) → (A → Result E (Option B)) → Result E (Option B)
if_ended (ok none) f = ok none
if_ended (ok (some a)) f = f a
if_ended (err e) f = err e
if_ended panic f = panic

unfoldable pub or_error : {E A : Type 0} → E → Option A → Result E A
or_error e none = err e
or_error e (some a) = ok a

module _ {P T : Type 0} (outside : Outside P T) where
  unfoldable pub read_input : P → Result (MainError P) (List ℕ)
  unfolding or_error
  read_input input = or_error (cannot_open input) (outside.read_to_end input)

  unfoldable pub read_dbg_symb : Option P → Result (MainError P) DebugSymbol
  unfolding or_error of_raw
  read_dbg_symb none = ok no_symbols
  read_dbg_symb (some p) =
      and_then (or_error (not_symbols p) (outside.deserialize p)) (λ raw. ok (of_raw raw))

  -- `File::create` and `write_all`
  unfoldable pub write_file : P → List ℕ → Result (MainError P) (Option (Written P))
  write_file path bytes =
      if outside.can_write path
      then ok (some (record { path = path; bytes = bytes }))
      else err (cannot_open path)

module _ (P : Type 0) (fl : Float32) (size nlines : ℕ) {I O : Type 0} (ports : Ports fl.F I O)
    (now : Instant) where
  open fl use {F}

  -- `get_error_msg().unwrap()`
  unfoldable pub report_error : Exec (Simulator F I O) (MainError P) (Option (Unit {0}))
  report_error s = elim s.fatal_error [ none ↦ abort | some e ↦ fail (simulator_error e) s ]

  -- The loop of `execute` behind a call of `single_cycle`.
  unfoldable pub after_answer :
      Option ExitCode
      → Exec (Simulator F I O) (MainError P) (Option (Unit {0}))
      → Exec (Simulator F I O) (MainError P) (Option (Unit {0}))
  unfolding report_error
  after_answer (some success) next = pure (some tt)
  after_answer (some failure) next = report_error
  after_answer none next = next

  unfoldable pub on_flow :
      Option (ControlFlow F)
      → Exec (Simulator F I O) (MainError P) (Option (Unit {0}))
      → Exec (Simulator F I O) (MainError P) (Option (Unit {0}))
  unfolding after_answer exit_code
  on_flow none next = pure none
  on_flow (some flow) next = after_answer (exit_code flow) next

  -- At most `turns` runs, each of at most `fuel` instructions.
  unfoldable pub run_on : ℕ → ℕ → Exec (Simulator F I O) (MainError P) (Option (Unit {0}))
  unfolding single_cycle on_flow
  run_on fuel zero = pure none
  run_on fuel (suc turns) = do
    flow ← map_err prompt_failed (single_cycle fl size nlines ports default_option now fuel)
    on_flow flow (run_on fuel turns)

  unfoldable pub execute :
      List (Command F) → ℕ → ℕ → Bool → Exec (Simulator F I O) (MainError P) (Option (Unit {0}))
  unfolding execute_interactive run_on
  execute typed fuel turns true =
      map_err prompt_failed (execute_interactive fl size nlines ports now fuel typed)
  execute typed fuel turns false = run_on fuel turns
