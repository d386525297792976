-- ===== src/Cpu.antt =====
-- core_sim/src/cpu.rs: the processor. `cycle_one_full` runs one instruction through fetch, decode,
-- register fetch, execution, memory access and write back, and predicts its cycles.
pub mod Stat
pub mod State
pub mod Start
pub mod Operands
pub mod Pipeline
pub mod Execute
pub mod MemoryAccess
pub mod Targets
pub mod OperandsSafe
pub mod Valid
pub mod ExecuteSafe
pub mod MemorySafe
pub mod PipelineSafe
pub mod CycleSafe
pub mod CycleLaws
pub mod StartLaws
pub mod Inspect
use cpuex2022_7_simulator.Common.{
  ℕ, zero, suc, ◌+◌, ◌-◌, ◌/◌, ◌^◌, Bool, true, false, List, [], ◌∷◌, Option, none, some, drop,
  if◌then◌else◌, Result, ok, err, panic, Exec, Outcome, done, fail, abort, ◌>>=◌, ◌>>◌, pure, lift,
  modify, map_err, wrapping_add, shl,
}
use cpuex2022_7_simulator.Bytes.{word_at}
use cpuex2022_7_simulator.Float.{Float32}
use cpuex2022_7_simulator.Register.{RegId, FRegId}
use cpuex2022_7_simulator.RegFile
use cpuex2022_7_simulator.RegFile.{RegFile, set_sp, set_hp, end_init}
use cpuex2022_7_simulator.Memory
use cpuex2022_7_simulator.Memory.{Memory, Range, init_from_slice, get_from_pc}
use cpuex2022_7_simulator.Memory.Watch.{SpyResult}
use cpuex2022_7_simulator.Cache
use cpuex2022_7_simulator.BranchPredictor
use cpuex2022_7_simulator.BranchPredictor.{num_counters}
use cpuex2022_7_simulator.Decode.{decode_from}
use cpuex2022_7_simulator.Instr.{DecodedInstr}
use Stat.{new_instr_stat, new_branch_stat, new_cache_stat, encounter_instr}
use State.{
  Pc, pc_incr, RuntimeError, memory_access_error, anyhow, decode_error, Ports, PipelineStage,
  execute_stage, memory_access_stage, write_back_stage, PipelineStat, InstrFetchOutput,
  MemoryAccessInput, WriteBackInput, write_i, write_f, ExecuteOutput, ExecutionTrace, ControlFlow,
  continue, break_spy, exit, CycleResult, Cpu, in_memory, in_i_stat,
}
use Operands.{reg_fetch}
use Pipeline.{calc_stall_cycles, push_instr_to_pipeline_and_get_cycles, push_bubbles}
use Execute.{execute}
use MemoryAccess.{memory_access, write_back}

module _ {F I O : Type 0} where
  unfoldable pub instr_fetch : Exec (Cpu F I O) RuntimeError InstrFetchOutput
  unfolding get_from_pc pc_incr
  instr_fetch c =
      (do
        bin ← map_err memory_access_error (in_memory (get_from_pc c.pc))
        modify (λ c'. record c' { pc = pc_incr c'.pc })
        pure (record { bin = bin; old_pc = c.pc; pc_plus4 = pc_incr c.pc }))
        c

  unfoldable pub instr_decode : ℕ → Exec (Cpu F I O) RuntimeError DecodedInstr
  unfolding decode_from
  instr_decode bin = map_err (λ e. anyhow (decode_error e)) (lift (decode_from bin))

  -- `if let Some(val) = new_pc { self.pc = Pc::new(val as u32) }`
  unfoldable pub jump : Option ℕ → Cpu F I O → Cpu F I O
  jump none c = c
  jump (some val) c = record c { pc = val }

  unfoldable pub write_back_of :
      {E : Type 0} → Option (WriteBackInput F) → Exec (Cpu F I O) E (Unit {0})
  unfolding write_back
  write_back_of none = pure tt
  write_back_of (some wb_in) = write_back wb_in

-- What the memory stage leaves in the locals of `cycle_one_full`.
pub record Stage (F : Type 0) : Type 0 where
  pub wb_in : Option (WriteBackInput F)
  pub ma_cycles : ℕ
  pub result_ready_stage : PipelineStage
  pub flow : ControlFlow

id_of_i : {F : Type 0} → Option (WriteBackInput F) → Option RegId
id_of_i (some (write_i id _)) = some id
id_of_i _ = none

id_of_f : {F : Type 0} → Option (WriteBackInput F) → Option FRegId
id_of_f (some (write_f id _)) = some id
id_of_f _ = none

flow_of : Option SpyResult → ControlFlow
flow_of none = continue
flow_of (some spied) = break_spy spied

module _ {F : Type 0} where
  -- A load replaces the value to be written back and the stage at which it is ready.
  unfoldable pub loaded :
      ExecuteOutput F → Bool → Option (WriteBackInput F) → Option (WriteBackInput F) × PipelineStage
  loaded out bram none = (out.wb_in, if out.use_fpu then memory_access_stage else execute_stage)
  loaded out bram (some wb) = (some wb, if bram then write_back_stage else memory_access_stage)

  -- The pipeline statistics of the instruction.
  unfoldable pub stat_of : ExecuteOutput F → Stage F → PipelineStat
  unfolding id_of_i id_of_f
  stat_of out st = record {
    ex_cycles = out.cycles;
    ma_cycles = st.ma_cycles;
    result_ready_stage = some st.result_ready_stage;
    write_back_id = id_of_i st.wb_in;
    float_write_back_id = id_of_f st.wb_in;
  }

module _ {F I O : Type 0} where
  -- `// Update pipeline state`
  unfoldable pub update_pipeline :
      {E : Type 0} → DecodedInstr → Bool → PipelineStat → Exec (Cpu F I O) E ℕ
  unfolding calc_stall_cycles push_instr_to_pipeline_and_get_cycles push_bubbles
  update_pipeline instr flush st = do
    stall_cycles ← calc_stall_cycles instr
    stalled ← push_bubbles stall_cycles 0
    pushed ← push_instr_to_pipeline_and_get_cycles (some st)
    push_bubbles (if flush then 2 else 0) (stalled + pushed)

module _ (fl : Float32) (size nlines : ℕ) {I O : Type 0} (ports : Ports fl.F I O) where
  open fl use {F}

  unfoldable pub memory_stage : ExecuteOutput F → Exec (Cpu F I O) RuntimeError (Stage F)
  unfolding memory_access loaded flow_of
  memory_stage out = elim out.ma_in [
    | none ↦ pure (record {
      wb_in = out.wb_in;
      ma_cycles = 1;
      result_ready_stage = if out.use_fpu then memory_access_stage else execute_stage;
      flow = continue;
    })
    | some ma_in ↦ do
      (ma_out, spied) ← memory_access fl size nlines ma_in none
      let (wb_in, stage) = loaded out ma_out.use_bram ma_out.wb_in
      pure (record {
        wb_in = wb_in;
        ma_cycles = ma_out.cycles;
        result_ready_stage = stage;
        flow = flow_of spied;
      })
  ]

  -- what follows the test of `end`
  unfoldable pub finish_cycle :
      DecodedInstr
      → Option ExecutionTrace
      → ExecuteOutput F
      → Exec (Cpu F I O) RuntimeError CycleResult
  unfolding jump memory_stage write_back_of stat_of update_pipeline
  finish_cycle instr trace out = do
    modify (jump out.new_pc)
    st ← memory_stage out
    write_back_of st.wb_in
    cycles ← update_pipeline instr out.flush (stat_of out st)
    pure (record { cycles = cycles; trace = trace; flow = st.flow })

  unfoldable pub after_execute :
      DecodedInstr
      → Option ExecutionTrace
      → ExecuteOutput F
      → Exec (Cpu F I O) RuntimeError CycleResult
  unfolding finish_cycle
  after_execute instr trace out c = elim out.ends [
    | true ↦ done (record { cycles = 0; trace = trace; flow = exit }) c
    | false ↦ finish_cycle instr trace out c
  ]

  unfoldable pub cycle_one_full : Bool → Exec (Cpu F I O) RuntimeError CycleResult
  unfolding instr_fetch instr_decode encounter_instr reg_fetch execute after_execute
  cycle_one_full do_trace = do
    fetched ← instr_fetch
    instr ← instr_decode fetched.bin
    in_i_stat (encounter_instr instr)
    ex_in ←
        reg_fetch (record { instr = instr; old_pc = fetched.old_pc; pc_plus4 = fetched.pc_plus4 })
    out ← execute fl ports ex_in
    after_execute instr
        (if do_trace
          then some
              (record { pc = fetched.old_pc; undecoded_instr = fetched.bin; decoded_instr = instr })
          else none)
        out
