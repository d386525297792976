-- ===== src/Cpu/MemoryAccess.antt =====
-- `memory_access` and `write_back` of core_sim/src/cpu.rs, with a memory of `size` bytes and a
-- cache of `nlines` lines for the source's RAM_BYTE_SIZE and CACHE_NUM_LINES.
use cpuex2022_7_simulator.Common.{
  ℕ, ◌-◌, ◌/◌, ◌^◌, Bool, true, false, not, Option, none, some, if◌then◌else◌, Exec, done, ◌>>=◌,
  ◌>>◌, pure, modify, map_err,
}
use cpuex2022_7_simulator.Float.{Float32}
use cpuex2022_7_simulator.Memory.{contains, set_word, set_f, get_i, get_f}
use cpuex2022_7_simulator.Memory.Watch.{SpyResult}
use cpuex2022_7_simulator.Cache.{access_cache}
use cpuex2022_7_simulator.RegFile
use cpuex2022_7_simulator.RegFile.{set_reg}
use cpuex2022_7_simulator.Cpu.State.{
  RuntimeError, memory_access_error, MemoryAccessInput, store_i, store_f, load_i, load_f,
  MemoryAccessOutput, WriteBackInput, write_i, write_f, Cpu, in_reg_file, in_memory, in_cache,
}
use cpuex2022_7_simulator.Cpu.Stat.{update_cache}

abbrev pub ddr2_access_cycles : ℕ
ddr2_access_cycles = 90

abbrev pub bram_word_size : ℕ
bram_word_size = 16384

abbrev pub stack_word_size : ℕ
stack_word_size = 256

unfoldable pub use_bram : ℕ → ℕ → Bool
unfolding contains
use_bram size addr =
    not (contains (record { start = bram_word_size; end = size / 2 ^ 2 - stack_word_size }) addr)

abbrev pub access_addr : {F : Type 0} → MemoryAccessInput F → ℕ
access_addr (store_i addr _) = addr
access_addr (store_f addr _) = addr
access_addr (load_i _ addr) = addr
access_addr (load_f _ addr) = addr

unfoldable pub access_cycles : Bool → Bool → ℕ
access_cycles bram hit = if bram then 1 else if hit then 2 else ddr2_access_cycles

module _ {F I O : Type 0} where
  -- `res.cache_hit`, the same in each arm
  unfoldable pub look_up : {E : Type 0} → ℕ → Bool → ℕ → Exec (Cpu F I O) E Bool
  unfolding access_cache
  look_up nlines bram addr c = elim bram [
    | true ↦ done false c
    | false ↦ in_cache (access_cache nlines addr) c
  ]

  count_access : Bool → Bool → Cpu F I O → Cpu F I O
  unfolding update_cache
  count_access bram hit c = record c {
    c_stat = if bram then c.c_stat else update_cache hit c.c_stat;
  }

module _ (fl : Float32) (size nlines : ℕ) {I O : Type 0} where
  open fl use {F}

  -- the call on the memory; its regions are those that the register file keeps
  unfoldable pub access :
      MemoryAccessInput F
      → Option SpyResult
      → Exec (Cpu F I O) RuntimeError (Option (WriteBackInput F) × Option SpyResult)
  unfolding set_word set_f get_i get_f
  access (store_i addr val) spied c =
      (do
        spied' ←
            map_err memory_access_error
              (in_memory (set_word size c.reg_file.stat_memregion addr val spied))
        pure (none, spied'))
        c
  access (store_f addr val) spied c =
      (do
        spied' ←
            map_err memory_access_error
              (in_memory (set_f size c.reg_file.stat_memregion fl.to_bits addr val spied))
        pure (none, spied'))
        c
  access (load_i id addr) spied c =
      (do
        (val, spied') ←
            map_err memory_access_error
              (in_memory (get_i size c.reg_file.stat_memregion addr spied))
        pure (some (write_i id val.value), spied'))
        c
  access (load_f id addr) spied c =
      (do
        (val, spied') ←
            map_err memory_access_error
              (in_memory (get_f size c.reg_file.stat_memregion fl.from_bits addr spied))
        pure (some (write_f id val), spied'))
        c

  unfoldable pub memory_access :
      MemoryAccessInput F
      → Option SpyResult
      → Exec (Cpu F I O) RuntimeError (MemoryAccessOutput F × Option SpyResult)
  unfolding use_bram look_up access count_access access_cycles
  memory_access ma_in spied = do
    let bram = use_bram size (access_addr ma_in)
    hit ← look_up nlines bram (access_addr ma_in)
    (wb_in, spied') ← access ma_in spied
    modify (count_access bram hit)
    pure (
      record { cycles = access_cycles bram hit; cache_hit = hit; use_bram = bram; wb_in = wb_in },
      spied',
    )

unfoldable pub write_back : {F I O E : Type 0} → WriteBackInput F → Exec (Cpu F I O) E (Unit {0})
unfolding set_reg RegFile.set_f
write_back (write_i id val) = in_reg_file (set_reg id val)
write_back (write_f id val) = in_reg_file (RegFile.set_f id val)
