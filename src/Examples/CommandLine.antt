-- ===== src/Examples/CommandLine.antt =====
-- cli/src/main.rs: a program that fails at once, run without the prompt.
use cpuex2022_7_simulator.Common.{ℕ, ◌≢◌, refl, arith, Bool, true, false, [], none, some, panic}
use cpuex2022_7_simulator.Sim.Rounds.{over, next}
use cpuex2022_7_simulator.Sim.State.{Simulator, new_builder}
use cpuex2022_7_simulator.Main.{Outside, execute}
use cpuex2022_7_simulator.Main.Commands.{after_execution}
use cpuex2022_7_simulator.Main.Execute.{Turns, no_turns, one_turn, Executed, execute-Executed}
use cpuex2022_7_simulator.Examples.{two_floats}
use cpuex2022_7_simulator.Examples.Processor.{ports, ports-NoPanic, program}
use cpuex2022_7_simulator.Examples.Simulation.{lost, lost-IsValid, lost-Decodes}

-- no files, and a logger that prints what is verbose
abbrev no_files : Outside ℕ ℕ
no_files = record {
  read_to_end = λ p. none;
  read_to_string = λ p. none;
  deserialize = λ p. none;
  can_write = λ p. false;
  logs_info = λ verbose. verbose;
  describe = λ e. "";
}

abbrev measured : Simulator Bool (Unit {0}) (Unit {0})
measured = record lost { stat_builder = record (new_builder 7) { instr_file_len = some 2 } }

measured-Turns : Turns ℕ two_floats 16 4 program ports ports-NoPanic (omega arith) 8 1 1 measured
measured-Turns =
    one_turn 0 measured (next _ _ _ lost-Decodes (λ s' e. over _ _)) (λ flow s' e c. no_turns s')

execute-Executed_example :
    Executed ℕ two_floats 16 4 program ports ports-NoPanic
      (omega arith)
      8
      1
      (execute ℕ two_floats 16 4 ports 8 [] 1 1 false measured)
    × (after_execution no_files two_floats 16 4 8 [] 1 1 true
          (execute ℕ two_floats 16 4 ports 8 [] 1 1 false measured)
        ≢ panic)
execute-Executed_example =
    execute-Executed ℕ two_floats 16 4 program ports ports-NoPanic (omega arith) 8 1 no_files [] 1
      true measured lost-IsValid (2, refl) measured-Turns
