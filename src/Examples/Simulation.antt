-- ===== src/Examples/Simulation.antt =====
-- Simulators on which the theorems apply.
use cpuex2022_7_simulator.Common.{
  ◌≡◌, refl, arith, Bool, false, [], ◌∷◌, none, some, done, Post, fails, Outcome, fail, abort,
  lookup, Map,
}
use cpuex2022_7_simulator.DebugSymbol.{no_symbols}
use cpuex2022_7_simulator.Memory.{out_of_range, pc_out_of_bounds, get_from_pc}
use cpuex2022_7_simulator.Cpu.State.{memory_access_error}
use cpuex2022_7_simulator.Cpu.CycleSafe.{Decodes}
use cpuex2022_7_simulator.Cpu.Valid.{IsValid}
use cpuex2022_7_simulator.Cpu.Start.{build}
use cpuex2022_7_simulator.Cpu.{cycle_one_full}
use cpuex2022_7_simulator.Sim.Options.{
  run_step, get_step, SimulationOption, new_breakpoint, default_option, BreakPoint,
}
use cpuex2022_7_simulator.Sim.State.{
  Simulator, new_builder, ControlFlow, break, failed, step_ended, no_values, exit_code, failure,
}
use cpuex2022_7_simulator.Bytes.{word_at}
use cpuex2022_7_simulator.Bin.{mask_lower, bit_range_lower, extract, mask, bit_range}
use cpuex2022_7_simulator.Decode.Formats.{decode_i}
use cpuex2022_7_simulator.Cpu.Operands.{fetch}
use cpuex2022_7_simulator.RegFile
use cpuex2022_7_simulator.Sim.Steps.{steps, steps-steps}
use cpuex2022_7_simulator.Sim.Watching.{CanWatch}
use cpuex2022_7_simulator.Sim.Rounds.{over, next}
use cpuex2022_7_simulator.Sim.Answers.{Report, single_cycle-Report}
use cpuex2022_7_simulator.Sim.Restart.{failure_is_final, Refusal}
use cpuex2022_7_simulator.Sim.{single_cycle, leave, break_sim}
use cpuex2022_7_simulator.Examples.{two_floats}
use cpuex2022_7_simulator.Examples.Processor.{
  ports, ports-NoPanic, program, processor, processor-IsValid, processor-Decodes,
}

abbrev pub simulator : Simulator Bool (Unit {0}) (Unit {0})
simulator = record {
  cpu = processor;
  elapsed_clocks = 0;
  cycle = 0;
  debug_symbol = no_symbols;
  fatal_error = none;
  stat_builder = new_builder 7;
}

-- A register, a float register and a word of the memory are watched, and one step is made.
abbrev pub one_step : SimulationOption Bool
one_step = record {
  do_trace = false;
  mode = run_step (record { step = none });
  breakpoints = (4, new_breakpoint 4) ∷ [];
  watchings = record { reg = 1 ∷ []; freg = 1 ∷ []; memory = 2 ∷ [] };
}

pub one_step-CanWatch : CanWatch 16 program one_step.watchings
unfolding out_of_range
one_step-CanWatch = record {
  regs = (omega arith, tt);
  fregs = (omega arith, tt);
  addrs = (refl, tt);
}

single_cycle-Report_example :
    Post
      (Report two_floats 16 4 program one_step one_step.mode 9 simulator)
      (λ _. ⊥)
      (single_cycle two_floats 16 4 ports one_step 8 9 simulator)
unfolding get_step
single_cycle-Report_example =
    single_cycle-Report two_floats 16 4 program ports ports-NoPanic (omega arith) one_step
      one_step-CanWatch 8 9 simulator processor-IsValid
      (next _ _ _ processor-Decodes (λ s' e. over _ _))

-- The program counter is past the instruction memory: the first fetch fails.
abbrev pub lost : Simulator Bool (Unit {0}) (Unit {0})
lost = record simulator { cpu = record processor { pc = 4 } }

abbrev quiet : SimulationOption Bool
quiet = default_option

abbrev stopped : Simulator Bool (Unit {0}) (Unit {0})
stopped = record lost { fatal_error = some (memory_access_error (pc_out_of_bounds 4)) }

abbrev failure_flow : ControlFlow Bool
failure_flow = break (record { watchings = no_values; reason = failed })

lost_run : single_cycle two_floats 16 4 ports quiet 8 1 lost ≡ done (some failure_flow) stopped
unfolding single_cycle cycle_one_full build leave break_sim
lost_run = refl

pub lost-IsValid : IsValid false 16 4 program lost.cpu
lost-IsValid = processor-IsValid

pub lost-Decodes : Decodes lost.cpu
unfolding get_from_pc build
lost-Decodes = fails tt

failure_flow-code : exit_code failure_flow ≡ some failure
unfolding exit_code
failure_flow-code = refl

nothing-CanWatch : CanWatch 16 program quiet.watchings
nothing-CanWatch = record { regs = tt; fregs = tt; addrs = tt }

failure_is_final_example :
    Post
      (Refusal two_floats 16 4 program stopped)
      (λ _. ⊥)
      (single_cycle two_floats 16 4 ports one_step 9 3 stopped)
failure_is_final_example =
    failure_is_final two_floats 16 4 program ports ports-NoPanic (omega arith) quiet
      nothing-CanWatch 8 1 lost lost-IsValid (next _ _ _ lost-Decodes (λ s' e. over _ _))
      failure_flow stopped lost_run failure_flow-code one_step one_step-CanWatch 9 3

abbrev pub state_of :
    {E A : Type 0}
    → Outcome (Simulator Bool (Unit {0}) (Unit {0})) E A
    → Simulator Bool (Unit {0}) (Unit {0})
state_of (done _ s) = s
state_of (fail _ s) = s
state_of abort = simulator

-- A breakpoint where the first run is entered, which passes it.
abbrev at_entry : Map (BreakPoint Bool)
at_entry = (0, new_breakpoint 0) ∷ []

abbrev stepped : Simulator Bool (Unit {0}) (Unit {0})
stepped = state_of (steps two_floats 16 4 ports 8 false at_entry 1 0 simulator)

one_step_made :
    steps two_floats 16 4 ports 8 false at_entry 1 0 simulator
    ≡ done (some (break (record { watchings = no_values; reason = step_ended }))) stepped
unfolding single_cycle cycle_one_full build leave break_sim word_at mask_lower bit_range_lower
    decode_i extract mask bit_range fetch RegFile.new get_step new_breakpoint
one_step_made = refl

none_there : lookup stepped.cpu.pc at_entry ≡ none
unfolding lookup new_breakpoint single_cycle cycle_one_full build word_at mask_lower bit_range_lower
    decode_i extract mask bit_range fetch RegFile.get RegFile.new leave break_sim
none_there = refl

steps-steps_example :
    steps two_floats 16 4 ports 8 false at_entry 2 0 stepped
    ≡ steps two_floats 16 4 ports 8 false at_entry 3 0 simulator
steps-steps_example =
    steps-steps two_floats 16 4 ports 8 false at_entry 1 2 0 simulator stepped one_step_made
      none_there
