-- ===== src/Cpu/Valid.antt =====
-- The well-formed states of core_sim/src/cpu.rs.
use cpuex2022_7_simulator.Common.{ℕ, ◌≤◌, ◌≡◌, List, Option, some, length, get_elem?}
use cpuex2022_7_simulator.RegFile.{RegFile}
use cpuex2022_7_simulator.RegFile.Access
use cpuex2022_7_simulator.Memory.{Memory}
use cpuex2022_7_simulator.Memory.Safe.{IsSound}
use cpuex2022_7_simulator.Cache.{Cache}
use cpuex2022_7_simulator.BranchPredictor.{BranchPredictor, num_counters}
use cpuex2022_7_simulator.Instr.Id.{max_id}
use cpuex2022_7_simulator.Cpu.Stat.{InstrStat}
use cpuex2022_7_simulator.Cpu.State.{Cpu, PipelineStat}

-- There are five stages, and the last instruction spent at least one cycle on its memory access.
pub record PipelineValid (pipeline : List (Option PipelineStat)) : Type 0 where
  pub five : length pipeline ≡ 5
  pub accessed : (st : PipelineStat) → get_elem? pipeline 0 ≡ some (some st) → 1 ≤ st.ma_cycles

-- Each part has its size, and the instruction memory holds what that of `text` holds.
pub record PartsValid {F : Type 0} (zero_f : F) (size nlines : ℕ) (text : Memory) (rf : RegFile F)
    (m : Memory) (cache : Cache) (b : BranchPredictor) (pipeline : List (Option PipelineStat))
    (i_stat : InstrStat) : Type 0 where
  pub registers : Access.IsValid zero_f rf
  pub memory : IsSound size text m
  pub lines : length cache.inner ≡ nlines
  pub counters : length b.inner ≡ num_counters
  pub stages : PipelineValid pipeline
  pub instr_counts : length i_stat.instr_executed ≡ max_id

abbrev pub IsValid : {F I O : Type 0} → F → ℕ → ℕ → Memory → Cpu F I O → Type 0
IsValid zero_f size nlines text c =
    PartsValid zero_f size nlines text c.reg_file c.memory c.cache c.branch_predictor
      c.pipeline_state c.i_stat

module _ {F : Type 0} {zero_f : F} {size nlines : ℕ} {text : Memory} {rf : RegFile F} {m : Memory}
    {cache : Cache} {b : BranchPredictor} {pipeline : List (Option PipelineStat)}
    {i_stat : InstrStat} (v : PartsValid zero_f size nlines text rf m cache b pipeline i_stat) where
  pub with_registers :
      {rf' : RegFile F}
      → Access.IsValid zero_f rf'
      → PartsValid zero_f size nlines text rf' m cache b pipeline i_stat
  with_registers h = record {
    registers = h;
    memory = v.memory;
    lines = v.lines;
    counters = v.counters;
    stages = v.stages;
    instr_counts = v.instr_counts;
  }

  pub with_memory :
      {m' : Memory}
      → IsSound size text m'
      → PartsValid zero_f size nlines text rf m' cache b pipeline i_stat
  with_memory h = record {
    registers = v.registers;
    memory = h;
    lines = v.lines;
    counters = v.counters;
    stages = v.stages;
    instr_counts = v.instr_counts;
  }

  pub with_cache :
      {cache' : Cache}
      → length cache'.inner ≡ nlines
      → PartsValid zero_f size nlines text rf m cache' b pipeline i_stat
  with_cache h = record {
    registers = v.registers;
    memory = v.memory;
    lines = h;
    counters = v.counters;
    stages = v.stages;
    instr_counts = v.instr_counts;
  }

  pub with_predictor :
      {b' : BranchPredictor}
      → length b'.inner ≡ num_counters
      → PartsValid zero_f size nlines text rf m cache b' pipeline i_stat
  with_predictor h = record {
    registers = v.registers;
    memory = v.memory;
    lines = v.lines;
    counters = h;
    stages = v.stages;
    instr_counts = v.instr_counts;
  }

  pub with_pipeline :
      {pipeline' : List (Option PipelineStat)}
      → PipelineValid pipeline'
      → PartsValid zero_f size nlines text rf m cache b pipeline' i_stat
  with_pipeline h = record {
    registers = v.registers;
    memory = v.memory;
    lines = v.lines;
    counters = v.counters;
    stages = h;
    instr_counts = v.instr_counts;
  }

  pub with_counts :
      {i_stat' : InstrStat}
      → length i_stat'.instr_executed ≡ max_id
      → PartsValid zero_f size nlines text rf m cache b pipeline i_stat'
  with_counts h = record {
    registers = v.registers;
    memory = v.memory;
    lines = v.lines;
    counters = v.counters;
    stages = v.stages;
    instr_counts = h;
  }
