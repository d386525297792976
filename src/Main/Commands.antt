-- ===== src/Main/Commands.antt =====
-- The two commands of cli/src/main.rs, from their arguments to the file that they leave behind.
use cpuex2022_7_simulator.Common.{
  ℕ, Bool, List, Option, none, some, if◌then◌else◌, Exec, Outcome, done, fail, abort, Result, ok,
  err, panic, map_err,
}
use cpuex2022_7_simulator.Float.{Float32}
use cpuex2022_7_simulator.Cpu.State.{AnyhowError, Ports, message}
use cpuex2022_7_simulator.DebugSymbol.{DebugSymbol}
use cpuex2022_7_simulator.Io
use cpuex2022_7_simulator.Io.{BinaryInput, BinaryOutput, new_input, new_output, empty_io}
use cpuex2022_7_simulator.Sld
use cpuex2022_7_simulator.Sld.{Scanner, SldData, parse_sld}
use cpuex2022_7_simulator.Ppm
use cpuex2022_7_simulator.Ppm.{PpmDataV6, HeaderScanner, into_inner, verify_header}
use cpuex2022_7_simulator.Sim.State.{Instant, Simulator}
use cpuex2022_7_simulator.Stat.{Stat, collect_stat}
use cpuex2022_7_simulator.Sim
use cpuex2022_7_simulator.Sim.{provide_dbg_symb}
use cpuex2022_7_simulator.Interactive.{Command}
use cpuex2022_7_simulator.Main.{
  CommonArgs, RtArgs, ExeArgs, MainError, cannot_open, not_scene, invalid_header, Outside, Written,
  and_then, if_ended, or_error, read_input, read_dbg_symb, write_file, execute,
}

module _ {P T : Type 0} (outside : Outside P T) (fl : Float32) (size nlines : ℕ) (now : Instant)
    (typed : List (Command fl.F)) (fuel turns : ℕ) where
  open fl use {F}

  -- Where the statistics are not printed, they are not collected. Their text is left out.
  unfoldable pub output_stat :
      {I O : Type 0} → Bool → Simulator F I O → Result (MainError P) (Option (List Stat))
  unfolding collect_stat
  output_stat verbose sim =
      if outside.logs_info verbose
      then and_then (collect_stat sim) (λ stats. ok (some stats))
      else ok none

  unfoldable pub after_execution :
      {I O : Type 0}
      → Bool
      → Outcome (Simulator F I O) (MainError P) (Option (Unit {0}))
      → Result (MainError P) (Option O)
  unfolding output_stat
  after_execution verbose (done none sim) = ok none
  after_execution verbose (done (some _) sim) =
      and_then (output_stat verbose sim) (λ _. ok (some sim.cpu.output))
  after_execution verbose (fail e sim) = err e
  after_execution verbose abort = panic

  -- from `Simulator::new` to `into_output`, which each of the five places repeats
  unfoldable pub simulate :
      {I O : Type 0}
      → Ports F I O
      → CommonArgs P
      → List ℕ
      → DebugSymbol
      → I
      → O
      → Result (MainError P) (Option O)
  unfolding execute after_execution provide_dbg_symb Sim.new
  simulate ports args mem symbols input output =
      elim (Sim.new fl size nlines mem input output now) [
        | none ↦ panic
        | some sim ↦ after_execution args.verbose (
            execute P fl size nlines ports now typed fuel turns args.interactive
              (provide_dbg_symb symbols sim))
      ]

  unfoldable pub rt_ports : Ports F SldData PpmDataV6
  unfolding Sld.inw Sld.finw Ppm.outb
  rt_ports = record {
    inw = map_err (λ e. message (outside.describe e)) Sld.inw;
    finw = map_err (λ e. message (outside.describe e)) (Sld.finw fl.from_bits);
    outb = Ppm.outb;
  }

  -- Scenes and headers are read by the parsers of nom.
  module _ {N : Type 0} (scan : Scanner T N F) (header : HeaderScanner) where
    unfoldable pub scene_of : T → Result (MainError P) SldData
    unfolding parse_sld
    scene_of text = elim (parse_sld scan text) [
      | done scene _ ↦ ok scene
      | fail e _ ↦ err (not_scene e)
      | abort ↦ panic
    ]

    unfoldable pub save_image : P → PpmDataV6 → Result (MainError P) (Option (Written P))
    unfolding verify_header write_file
    save_image path image = elim (verify_header header image) [
      | none ↦ err invalid_header
      | some _ ↦ write_file outside path (into_inner image)
    ]

    -- the arm `Command::Rt`
    unfoldable pub run_rt : RtArgs P → Result (MainError P) (Option (Written P))
    unfolding read_input read_dbg_symb scene_of simulate rt_ports save_image
    run_rt args = and_then (read_input outside args.delegate.input) (λ mem.
        and_then (or_error (cannot_open args.sld) (outside.read_to_string args.sld)) (λ text.
          and_then (read_dbg_symb outside args.delegate.debug_symbol) (λ symbols.
            and_then (scene_of text) (λ scene.
              if_ended (simulate rt_ports args.delegate mem symbols scene Ppm.new)
                (λ image. save_image args.ppm image)))))

  -- The input and the output of `Command::Exe` may each be a file or empty.
  unfoldable pub exe_ports :
      {I O : Type 0}
      → Exec I AnyhowError ℕ
      → Exec I AnyhowError F
      → (ℕ → Exec O AnyhowError (Unit {0}))
      → Ports F I O
  exe_ports inw finw outb = record { inw = inw; finw = finw; outb = outb }

  abbrev nothing : Ports F (Unit {0}) (Unit {0})
  nothing = empty_io

  -- `b_out!`
  unfoldable pub simulate_from :
      {O : Type 0}
      → (ℕ → Exec O AnyhowError (Unit {0}))
      → CommonArgs P
      → List ℕ
      → DebugSymbol
      → Option P
      → O
      → Result (MainError P) (Option O)
  unfolding simulate exe_ports empty_io read_input new_input Io.inw Io.finw
  simulate_from to args mem symbols (some stdin) output =
      and_then (read_input outside stdin) (λ content.
        simulate (exe_ports Io.inw (Io.finw fl.from_bits) to) args mem symbols (new_input content)
          output)
  simulate_from to args mem symbols none output =
      simulate (exe_ports nothing.inw nothing.finw to) args mem symbols tt output

  unfoldable pub to_stdout :
      ExeArgs P
      → List ℕ
      → DebugSymbol
      → Option P
      → Result (MainError P) (Option (Option (Written P)))
  unfolding simulate_from empty_io Io.outb write_file new_output
  to_stdout args mem symbols (some stdout) =
      if_ended (simulate_from Io.outb args.delegate mem symbols args.stdin new_output)
        (λ out. if_ended (write_file outside stdout out.content) (λ file. ok (some (some file))))
  to_stdout args mem symbols none =
      if_ended (simulate_from nothing.outb args.delegate mem symbols args.stdin tt)
        (λ _. ok (some none))

  -- the arm `Command::Exe`
  unfoldable pub run_exe : ExeArgs P → Result (MainError P) (Option (Option (Written P)))
  unfolding read_input read_dbg_symb to_stdout
  run_exe args = and_then (read_input outside args.delegate.input) (λ mem.
      and_then (read_dbg_symb outside args.delegate.debug_symbol)
        (λ symbols. to_stdout args mem symbols args.stdout))
