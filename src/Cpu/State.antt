-- ===== src/Cpu/State.antt =====
-- The state of core_sim/src/cpu.rs and what its stages hand on. The features `stat` and
-- `time_predict` are on and `isa_2nd` is off, as by default. The types `I` and `O` of the input and
-- the output are the source's type parameters; `F` is `f32`.
use Prim.Native.String.{String}
use cpuex2022_7_simulator.Common.{ℕ, Bool, false, List, Option, none, Exec, within, wrapping_add}
use cpuex2022_7_simulator.Register.{RegId, FRegId}
use cpuex2022_7_simulator.Instr.{Instr, DecodedInstr}
use cpuex2022_7_simulator.Decode.Formats.{DecodeError}
use cpuex2022_7_simulator.Memory.{Memory, MemoryAccessError}
use cpuex2022_7_simulator.Memory.Watch.{SpyResult}
use cpuex2022_7_simulator.RegFile.{RegFile}
use cpuex2022_7_simulator.Cache.{Cache}
use cpuex2022_7_simulator.BranchPredictor.{BranchPredictor}
use cpuex2022_7_simulator.Cpu.Stat.{InstrStat, BranchStat, CacheStat}

abbrev pub Pc : Type 0
Pc = ℕ

-- `Pc::incr`
unfoldable pub pc_incr : Pc → Pc
pc_incr pc = wrapping_add pc 4

-- the `anyhow::Error`s: of the decoder, and of the input and the output
pub data AnyhowError : Type 0 where
  decode_error : DecodeError → AnyhowError
  message : String → AnyhowError

pub data RuntimeError : Type 0 where
  memory_access_error : MemoryAccessError → RuntimeError
  anyhow : AnyhowError → RuntimeError

-- The traits `Input` and `Output`.
pub record Ports (F I O : Type 0) : Type 0 where
  pub inw : Exec I AnyhowError ℕ
  pub finw : Exec I AnyhowError F
  pub outb : ℕ → Exec O AnyhowError (Unit {0})

pub data PipelineStage : Type 0 where
  instr_fetch_stage instr_decode_stage execute_stage memory_access_stage write_back_stage :
      PipelineStage

pub record PipelineStat : Type 0 where
  pub ex_cycles : ℕ
  pub ma_cycles : ℕ
  pub result_ready_stage : Option PipelineStage
  pub write_back_id : Option RegId
  pub float_write_back_id : Option FRegId

pub record InstrFetchOutput : Type 0 where
  pub bin : ℕ
  pub old_pc : Pc
  pub pc_plus4 : Pc

pub record RegFetchInput : Type 0 where
  pub instr : DecodedInstr
  pub old_pc : ℕ
  pub pc_plus4 : ℕ

pub record ExecuteInput (F : Type 0) : Type 0 where
  pub instr : Instr ℕ RegId F FRegId
  pub old_pc : ℕ
  pub pc_plus4 : ℕ

pub data MemoryAccessInput (F : Type 0) : Type 0 where
  store_i : ℕ → ℕ → MemoryAccessInput F
  store_f : ℕ → F → MemoryAccessInput F
  load_i : RegId → ℕ → MemoryAccessInput F
  load_f : FRegId → ℕ → MemoryAccessInput F

pub data WriteBackInput (F : Type 0) : Type 0 where
  write_i : RegId → ℕ → WriteBackInput F
  write_f : FRegId → F → WriteBackInput F

pub record ExecuteOutput (F : Type 0) : Type 0 where
  pub ma_in : Option (MemoryAccessInput F)
  pub wb_in : Option (WriteBackInput F)
  pub new_pc : Option ℕ
  pub use_fpu : Bool
  pub flush : Bool
  pub cycles : ℕ
  pub ends : Bool

-- `ExecuteOutput::default()`
abbrev pub default_output : {F : Type 0} → ExecuteOutput F
default_output = record {
  ma_in = none;
  wb_in = none;
  new_pc = none;
  use_fpu = false;
  flush = false;
  cycles = 0;
  ends = false;
}

pub record MemoryAccessOutput (F : Type 0) : Type 0 where
  pub cycles : ℕ
  pub cache_hit : Bool
  pub use_bram : Bool
  pub wb_in : Option (WriteBackInput F)

pub record ExecutionTrace : Type 0 where
  pub pc : Pc
  pub undecoded_instr : ℕ
  pub decoded_instr : DecodedInstr

-- `Break(BreakReason::Spy(_))` is `break_spy`.
pub data ControlFlow : Type 0 where
  continue : ControlFlow
  break_spy : SpyResult → ControlFlow
  exit : ControlFlow

pub record CycleResult : Type 0 where
  pub cycles : ℕ
  pub trace : Option ExecutionTrace
  pub flow : ControlFlow

pub record Cpu (F I O : Type 0) : Type 0 where
  pub reg_file : RegFile F
  pub memory : Memory
  pub cache : Cache
  pub pc : Pc
  pub input : I
  pub output : O
  pub branch_predictor : BranchPredictor
  pub pipeline_state : List (Option PipelineStat)
  pub i_stat : InstrStat
  pub c_stat : CacheStat
  pub b_stat : BranchStat

-- Methods of the parts.
module _ {F I O E A : Type 0} where
  abbrev pub in_reg_file : Exec (RegFile F) E A → Exec (Cpu F I O) E A
  in_reg_file m = within (λ c. c.reg_file) (λ part c. record c { reg_file = part }) m

  abbrev pub in_memory : Exec Memory E A → Exec (Cpu F I O) E A
  in_memory m = within (λ c. c.memory) (λ part c. record c { memory = part }) m

  abbrev pub in_cache : Exec Cache E A → Exec (Cpu F I O) E A
  in_cache m = within (λ c. c.cache) (λ part c. record c { cache = part }) m

  abbrev pub in_predictor : Exec BranchPredictor E A → Exec (Cpu F I O) E A
  in_predictor m =
      within (λ c. c.branch_predictor) (λ part c. record c { branch_predictor = part }) m

  abbrev pub in_i_stat : Exec InstrStat E A → Exec (Cpu F I O) E A
  in_i_stat m = within (λ c. c.i_stat) (λ part c. record c { i_stat = part }) m

  abbrev pub in_input : Exec I E A → Exec (Cpu F I O) E A
  in_input m = within (λ c. c.input) (λ part c. record c { input = part }) m

  abbrev pub in_output : Exec O E A → Exec (Cpu F I O) E A
  in_output m = within (λ c. c.output) (λ part c. record c { output = part }) m
