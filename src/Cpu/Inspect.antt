-- ===== src/Cpu/Inspect.antt =====
-- The accessors of core_sim/src/cpu.rs that the simulator calls between cycles.
use cpuex2022_7_simulator.Common.{ℕ, none, Exec, ◌>>=◌, pure, map_err}
use cpuex2022_7_simulator.Ty.{TypedU32}
use cpuex2022_7_simulator.Register.{RegId, FRegId}
use cpuex2022_7_simulator.RegFile
use cpuex2022_7_simulator.Memory
use cpuex2022_7_simulator.Memory.{MemoryAccessError, get_from_pc, add_spy, remove_spy}
use cpuex2022_7_simulator.Memory.Watch.{SpyUnit, SpyWatchKind}
use cpuex2022_7_simulator.Cpu.State.{
  Pc, Cpu, RuntimeError, memory_access_error, in_reg_file, in_memory,
}

module _ {F I O : Type 0} where
  unfoldable pub get_freg : {E : Type 0} → FRegId → Exec (Cpu F I O) E F
  unfolding RegFile.get_f
  get_freg id = in_reg_file (RegFile.get_f id)

  unfoldable pub get_reg : {E : Type 0} → RegId → Exec (Cpu F I O) E ℕ
  unfolding RegFile.get
  get_reg id = in_reg_file (RegFile.get id)

  -- `&mut None`: what a spy notes is dropped.
  unfoldable pub get_mem : ℕ → ℕ → Exec (Cpu F I O) MemoryAccessError TypedU32
  unfolding Memory.get
  get_mem size addr c =
      (do
        (word, spied) ← in_memory (Memory.get size c.reg_file.stat_memregion addr none)
        pure word)
        c

  unfoldable pub get_mem_pc : Pc → Exec (Cpu F I O) RuntimeError ℕ
  unfolding get_from_pc
  get_mem_pc addr = map_err memory_access_error (in_memory (get_from_pc addr))

  unfoldable pub add_mem_spy : SpyWatchKind → SpyUnit → Cpu F I O → Cpu F I O
  unfolding add_spy
  add_mem_spy k u c = record c { memory = add_spy k u c.memory }

  unfoldable pub remove_mem_spy : SpyWatchKind → SpyUnit → Cpu F I O → Cpu F I O
  unfolding remove_spy
  remove_mem_spy k u c = record c { memory = remove_spy k u c.memory }
