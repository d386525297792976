-- ===== src/Examples/Processor.antt =====
-- A processor on which the theorems apply: its program is `addi x1, x0, 5`.
use cpuex2022_7_simulator.Common.{
  none, ℕ, ◌/◌, ◌%◌, ◌^◌, ◌≡◌, ◌⊎◌, ◌≤◌, refl, arith, Bool, true, false, List, [], ◌∷◌, drop, some,
  Post, returns, fails,
}
use mathlib.Core.Option
use cpuex2022_7_simulator.Bytes.{word_at}
use cpuex2022_7_simulator.Memory
use cpuex2022_7_simulator.Memory.{Memory, get_from_pc, contains, get_raw_addr}
use cpuex2022_7_simulator.Memory.Safe.{IsSound}
use cpuex2022_7_simulator.Memory.Protect.{SameText-refl}
use cpuex2022_7_simulator.Cpu.State.{load_i, RuntimeError, Ports, Cpu, exit}
use cpuex2022_7_simulator.Cpu.Start.{new, build}
use cpuex2022_7_simulator.Cpu.StartLaws.{new-IsValid, no_stage}
use cpuex2022_7_simulator.Cache
use cpuex2022_7_simulator.BranchPredictor
use cpuex2022_7_simulator.Cpu.Valid.{IsValid}
use cpuex2022_7_simulator.Cpu.ExecuteSafe.{NoPanic}
use cpuex2022_7_simulator.Cpu.Targets.{WriteExists}
use cpuex2022_7_simulator.Cpu.Pipeline.{calc_stall_cycles}
use cpuex2022_7_simulator.Cpu.PipelineSafe.{calc_stall_cycles-Post}
use cpuex2022_7_simulator.Cpu.MemoryAccess.{memory_access}
use cpuex2022_7_simulator.Cpu.MemorySafe.{memory_access-Post}
use cpuex2022_7_simulator.Cpu.CycleSafe.{Decodes}
use cpuex2022_7_simulator.Cpu.CycleLaws.{cycle_one_full-IsValid}
use cpuex2022_7_simulator.Cpu.{cycle_one_full}
use cpuex2022_7_simulator.Io.{empty_io}
use cpuex2022_7_simulator.Examples.{two_floats}
use cpuex2022_7_simulator.Examples.Parts.{
  addi_instr, addi_word_decodes, registers, registers-IsValid,
}

abbrev pub ports : Ports Bool (Unit {0}) (Unit {0})
ports = empty_io

pub ports-NoPanic : NoPanic ports
unfolding empty_io
ports-NoPanic = record { inw = λ i. fails tt; finw = λ i. fails tt; outb = λ byte o. fails tt }

-- Four bytes of instructions and twelve of data.
abbrev pub program : Memory
program = record (Memory.new 16) {
  inner = 0x93 ∷ 0x00 ∷ 0x50 ∷ 0x00 ∷ drop 4 (Memory.new 16).inner;
  instr_mem_range = record { start = 0; end = 4 };
}

abbrev pub processor : Cpu Bool (Unit {0}) (Unit {0})
processor = build two_floats 16 4 registers program 0 tt tt

program-IsSound : IsSound 16 program program
unfolding Memory.new
program-IsSound = record {
  valid = record { bytes = refl; types = refl };
  aligned = record { start_aligned = refl; end_aligned = refl };
  same_text = SameText-refl program;
}

pub processor-IsValid : IsValid false 16 4 program processor
unfolding build Cache.new BranchPredictor.new
processor-IsValid = record {
  registers = registers-IsValid;
  memory = program-IsSound;
  lines = refl;
  counters = refl;
  stages = record { five = refl; accessed = λ st e. elim (no_stage st e) [ ] };
  instr_counts = refl;
}

pub processor-Decodes : Decodes processor
unfolding build get_from_pc contains get_raw_addr word_at Memory.new
processor-Decodes = returns addi_word_decodes

cycle_one_full-IsValid_example :
    Post
      (λ res c. ((res.flow ≡ exit) ⊎ (1 ≤ res.cycles)) × IsValid false 16 4 program c)
      (λ c. IsValid false 16 4 program c)
      (cycle_one_full two_floats 16 4 ports true processor)
cycle_one_full-IsValid_example =
    cycle_one_full-IsValid two_floats 16 4 program ports ports-NoPanic (omega arith) processor true
      processor-Decodes processor-IsValid

-- An executable file: no data, one word of instructions.
abbrev file : List ℕ
file = 0 ∷ 0 ∷ 0 ∷ 0 ∷ 1 ∷ 0 ∷ 0 ∷ 0 ∷ 0x93 ∷ 0x00 ∷ 0x50 ∷ 0x00 ∷ []

new-IsValid_example :
    (c : Cpu Bool (Unit {0}) (Unit {0})) × (new two_floats 16 4 file tt tt ≡ some c)
    × IsValid false 16 4 c.memory c
    × (some (c.pc / 4) ≡ Option.map (λ (d : ℕ). d % 2 ^ 30) (word_at file 0))
new-IsValid_example = new-IsValid two_floats 16 4 tt tt refl file (omega arith) (omega arith)

calc_stall_cycles-Post_example :
    Post
      (λ stall c. (stall ≤ 2) × IsValid false 16 4 program c)
      (λ c. IsValid false 16 4 program c)
      (calc_stall_cycles {E = RuntimeError} addi_instr processor)
calc_stall_cycles-Post_example =
    calc_stall_cycles-Post false 16 4 program addi_instr processor processor-IsValid

memory_access-Post_example :
    Post
      (λ out c. WriteExists out.0.wb_in × (1 ≤ out.0.cycles) × IsValid false 16 4 program c)
      (λ c. IsValid false 16 4 program c)
      (memory_access two_floats 16 4 (load_i 5 2) none processor)
memory_access-Post_example =
    memory_access-Post two_floats 16 4 program (load_i 5 2) none processor (omega arith)
      (omega arith) processor-IsValid
