-- ===== src/Examples/Prompt.antt =====
-- Sessions and label tables on which the theorems apply.
use Prim.Native.Nat.{ℕ}
use cpuex2022_7_simulator.Common.{
  ◌≤◌, ◌≡◌, refl, ap, arith, Bool, true, false, [], Option, none, some, Outcome, done, Post, fails,
  lookup,
}
use cpuex2022_7_simulator.Bytes.{word_at}
use cpuex2022_7_simulator.Bin.{mask_lower, bit_range_lower, extract, mask, bit_range}
use cpuex2022_7_simulator.Decode.Formats.{decode_i}
use cpuex2022_7_simulator.Cpu.Operands.{fetch}
use cpuex2022_7_simulator.RegFile
use cpuex2022_7_simulator.Memory.{get_from_pc}
use cpuex2022_7_simulator.Memory.Watch.{memory}
use cpuex2022_7_simulator.Cpu.State.{RuntimeError}
use cpuex2022_7_simulator.Cpu.CycleSafe.{Decodes}
use cpuex2022_7_simulator.Cpu.Valid.{IsValid}
use cpuex2022_7_simulator.Cpu.Start.{build}
use cpuex2022_7_simulator.Cpu.{cycle_one_full}
use cpuex2022_7_simulator.Sim.Options.{run, BreakPoint, new_breakpoint, get_step}
use cpuex2022_7_simulator.Sim.State.{Simulator, ControlFlow, OnBreak, break, break_point, no_values}
use cpuex2022_7_simulator.Sim.Rounds.{Fetches, over, next}
use cpuex2022_7_simulator.Sim.{single_cycle, round, leave, break_sim}
use cpuex2022_7_simulator.Interactive.{
  Session, reg, spy, watch, add, remove, static_command, watch_add, watch_remove, no_file,
}
use cpuex2022_7_simulator.Interactive.Turns.{start}
use cpuex2022_7_simulator.Interactive.Stops.{start-Post, breakpoint_at}
use cpuex2022_7_simulator.Interactive.Watches.{
  Target, on_freg, on_word, times, as_kind, on_reg, watch_once,
}
use cpuex2022_7_simulator.Interactive.Commands as Commands
use cpuex2022_7_simulator.Interactive.Commands.{
  static_command-Answer, spy_commands, is_spied, present,
}
use cpuex2022_7_simulator.Examples.{two_floats}
use cpuex2022_7_simulator.Examples.Processor.{
  ports, ports-NoPanic, program, processor-IsValid, processor-Decodes,
}
use cpuex2022_7_simulator.Examples.Simulation.{state_of, simulator, one_step, one_step-CanWatch}

abbrev session : Session Bool (Unit {0}) (Unit {0})
session = record { sim = simulator; opt = one_step; watching_regfile = no_file; show_next = none }

start-Post_example :
    Post
      (λ _ s'. IsValid false 16 4 program s'.sim.cpu)
      (λ _. ⊥)
      (start two_floats 16 4 ports 8 3 session)
unfolding get_step
start-Post_example =
    start-Post two_floats 16 4 program ports ports-NoPanic (omega arith) 8 3 session
      one_step-CanWatch processor-IsValid (next _ _ _ processor-Decodes (λ s' e. over _ _))

-- The program runs until the breakpoint behind its first instruction.
abbrev to_breakpoint : Session Bool (Unit {0}) (Unit {0})
to_breakpoint = record session {
  opt = record one_step { mode = run; watchings = record { reg = []; freg = []; memory = [] } };
}

abbrev first_round :
    Outcome (Simulator Bool (Unit {0}) (Unit {0})) RuntimeError (Option (ControlFlow Bool))
first_round = round two_floats 16 4 ports to_breakpoint.opt 8 run true simulator

second-Decodes : Decodes (state_of first_round).cpu
unfolding round cycle_one_full build get_from_pc word_at mask_lower bit_range_lower decode_i extract
    mask bit_range fetch RegFile.get RegFile.new
second-Decodes = fails tt

fetches : Fetches two_floats 16 4 ports to_breakpoint.opt 8 run 2 true simulator
fetches =
    next _ _ _ processor-Decodes
      (λ s' e. next _ _ _ (rw (← (ap state_of e)) second-Decodes) (λ s'' e'. over _ _))

abbrev at_break : OnBreak Bool
at_break = record { watchings = no_values; reason = break_point 4 }

abbrev after_break : Simulator Bool (Unit {0}) (Unit {0})
after_break = state_of (single_cycle two_floats 16 4 ports to_breakpoint.opt 8 2 simulator)

broke :
    single_cycle two_floats 16 4 ports to_breakpoint.opt 8 2 simulator
    ≡ done (some (break at_break)) after_break
unfolding single_cycle cycle_one_full build leave break_sim lookup new_breakpoint word_at mask_lower
    bit_range_lower decode_i extract mask bit_range fetch RegFile.new
broke = refl

only_four : (k : ℕ) (bp : BreakPoint Bool) → lookup k one_step.breakpoints ≡ some bp → bp.addr ≡ k
unfolding lookup new_breakpoint
only_four k bp e = ground arith

breakpoint_at_example : after_break.cpu.pc ≡ 4
breakpoint_at_example =
    breakpoint_at two_floats 16 4 program ports ports-NoPanic (omega arith) 8 2 to_breakpoint
      (record { regs = tt; fregs = tt; addrs = tt }) processor-IsValid fetches only_four at_break
      after_break 4 broke refl

session_once : (u : Target) → times u one_step.watchings ≤ 1
session_once (on_reg r) = ground arith
session_once (on_freg r) = ground arith
session_once (on_word a) = ground arith

session-IsValid : Commands.IsValid session
session-IsValid = record { once = session_once; keyed = only_four }

static_command-Answer_example :
    Commands.Answer (watch add (reg 3)) (static_command (watch add (reg 3)) session)
static_command-Answer_example = static_command-Answer (watch add (reg 3)) session session-IsValid

watch_once_example :
    (times (on_reg 1) (watch_add (as_kind (on_reg 1)) session).opt.watchings ≡ 1)
    × (times (on_reg 1) (watch_remove (as_kind (on_reg 1)) session).opt.watchings ≡ 0)
watch_once_example = watch_once (on_reg 1) (on_reg 1) session (omega arith)

spy_commands_example :
    (is_spied 3 (
        static_command
          (spy add (record {
            kind = record { on_reads = true; on_writes = false };
            target = memory (record { addr = 3; expire_at = none });
          }))
          session)
      ≡ some (true, present (lookup 3 simulator.cpu.memory.spy.writes)))
    × (is_spied 3 (
          static_command
            (spy remove (record {
              kind = record { on_reads = true; on_writes = false };
              target = memory (record { addr = 3; expire_at = none });
            }))
            session)
        ≡ some (false, present (lookup 3 simulator.cpu.memory.spy.writes)))
spy_commands_example =
    spy_commands session (record { on_reads = true; on_writes = false })
      (record { addr = 3; expire_at = none }) 3
