-- ===== src/Cpu/MemorySafe.antt =====
-- `memory_access` and `write_back` of core_sim/src/cpu.rs on the states of Cpu/Valid.
use cpuex2022_7_simulator.Common.{
  ℕ, ◌<◌, ◌≤◌, arith, Bool, true, false, Option, some, Exec, map_err, Post, Post-bind, Post-within,
  Post-map_err, Post-weaken, returns,
}
use cpuex2022_7_simulator.Float.{Float32}
use cpuex2022_7_simulator.Memory.{Memory, MemoryAccessError, set_word, set_f, get_i, get_f}
use cpuex2022_7_simulator.Memory.Watch.{SpyResult}
use cpuex2022_7_simulator.Memory.Safe.{IsSound, set_word-Post, set_f-Post, get_i-Post, get_f-Post}
use cpuex2022_7_simulator.Cache.{access_cache}
use cpuex2022_7_simulator.Cache.Safe.{access_cache-Post}
use cpuex2022_7_simulator.RegFile
use cpuex2022_7_simulator.RegFile.Safe.{set_reg-Post, set_f-Post as set_freg-Post}
use cpuex2022_7_simulator.Cpu.State.{
  RuntimeError, memory_access_error, MemoryAccessInput, store_i, store_f, load_i, load_f,
  WriteBackInput, write_i, write_f, Cpu, in_memory,
}
use cpuex2022_7_simulator.Cpu.MemoryAccess.{
  memory_access, access_cycles, access, look_up, use_bram, access_addr, write_back,
}
use cpuex2022_7_simulator.Cpu.Targets.{AccessExists, WriteExists}
use cpuex2022_7_simulator.Cpu.Valid.{IsValid, with_memory, with_cache, with_registers}

access_cycles_pos : (bram hit : Bool) → 1 ≤ access_cycles bram hit
unfolding access_cycles
access_cycles_pos true hit = omega arith
access_cycles_pos false true = omega arith
access_cycles_pos false false = omega arith

module _ (fl : Float32) (size nlines : ℕ) (text : Memory) {I O : Type 0} where
  open fl use {F}

  abbrev Valid : Cpu F I O → Type 0
  Valid c = IsValid fl.zero size nlines text c

  look_up-Post :
      (bram : Bool) (addr : ℕ) (c : Cpu F I O)
      → 0 < nlines
      → Valid c
      → Post (λ (_ : Bool). Valid) Valid (look_up {E = RuntimeError} nlines bram addr c)
  unfolding look_up
  look_up-Post true addr c pos v = returns v
  look_up-Post false addr c pos v =
      Post-within (λ c'. c'.cache) (λ part c'. record c' { cache = part })
        (access_cache nlines addr) c
        (Post-weaken (access_cache-Post nlines addr c.cache pos v.lines)
          (λ hit cache h. with_cache v h) (λ cache h. with_cache v h))

  -- A method of the memory that keeps it sound.
  memory-Post :
      {A : Type 0} (m : Exec Memory MemoryAccessError A) (c : Cpu F I O)
      → Valid c
      → Post (λ (_ : A). IsSound size text) (IsSound size text) (m c.memory)
      → Post
          (λ (_ : A). Valid)
          Valid
          (map_err memory_access_error (in_memory {F = F} {I = I} {O = O} m) c)
  memory-Post m c v h = Post-map_err memory_access_error (in_memory m) c (
      Post-within (λ c'. c'.memory) (λ part c'. record c' { memory = part }) m c
        (Post-weaken h (λ a m' g. with_memory v g) (λ m' g. with_memory v g)))

  access-Post :
      (ma_in : MemoryAccessInput F) (spied : Option SpyResult) (c : Cpu F I O)
      → AccessExists (some ma_in)
      → Valid c
      → Post (λ out c'. WriteExists out.0 × Valid c') Valid (access fl size nlines ma_in spied c)
  unfolding access
  access-Post (store_i addr val) spied c h v =
      Post-bind
        (map_err memory_access_error
          (in_memory (set_word size c.reg_file.stat_memregion addr val spied)))
        _ c
        (memory-Post (set_word size c.reg_file.stat_memregion addr val spied) c v
          (set_word-Post size text c.memory v.memory c.reg_file.stat_memregion addr spied val))
        (λ spied' c1 v1. returns (tt, v1))
  access-Post (store_f addr val) spied c h v =
      Post-bind
        (map_err memory_access_error
          (in_memory (set_f size c.reg_file.stat_memregion fl.to_bits addr val spied)))
        _ c
        (memory-Post (set_f size c.reg_file.stat_memregion fl.to_bits addr val spied) c v (
          set_f-Post size text c.memory v.memory c.reg_file.stat_memregion addr spied fl.to_bits
            val))
        (λ spied' c1 v1. returns (tt, v1))
  access-Post (load_i id addr) spied c h v =
      Post-bind
        (map_err memory_access_error (in_memory (get_i size c.reg_file.stat_memregion addr spied)))
        _ c
        (memory-Post (get_i size c.reg_file.stat_memregion addr spied) c v
          (get_i-Post size text c.memory v.memory c.reg_file.stat_memregion addr spied))
        (λ out c1 v1. returns (h, v1))
  access-Post (load_f id addr) spied c h v =
      Post-bind
        (map_err memory_access_error
          (in_memory (get_f size c.reg_file.stat_memregion fl.from_bits addr spied)))
        _ c
        (memory-Post (get_f size c.reg_file.stat_memregion fl.from_bits addr spied) c v (
          get_f-Post size text c.memory v.memory c.reg_file.stat_memregion addr spied fl.from_bits))
        (λ out c1 v1. returns (h, v1))

  -- On a valid processor whose cache has a line, a memory access to any address, of a load whose
  -- register exists, does not panic. Whether it
  -- succeeds or fails, it leaves a valid processor with the same instructions; if it succeeds, it
  -- takes at least one cycle and hands on a register that exists.
  pub memory_access-Post :
      (ma_in : MemoryAccessInput F) (spied : Option SpyResult) (c : Cpu F I O)
      → 0 < nlines
      → AccessExists (some ma_in)
      → Valid c
      → Post
          (λ out c'. WriteExists out.0.wb_in × (1 ≤ out.0.cycles) × Valid c')
          Valid
          (memory_access fl size nlines ma_in spied c)
  unfolding memory_access
  memory_access-Post ma_in spied c pos h v =
      Post-bind (look_up nlines (use_bram size (access_addr ma_in)) (access_addr ma_in)) _ c
        (look_up-Post (use_bram size (access_addr ma_in)) (access_addr ma_in) c pos v)
        (λ hit c1 v1.
          Post-bind (access fl size nlines ma_in spied) _ c1 (access-Post ma_in spied c1 h v1)
            (λ out c2 v2.
              returns (v2.0, access_cycles_pos (use_bram size (access_addr ma_in)) hit, v2.1)))

  pub write_back-Post :
      (wb_in : WriteBackInput F) (c : Cpu F I O)
      → WriteExists (some wb_in)
      → Valid c
      → Post (λ (_ : Unit {0}). Valid) Valid (write_back {E = RuntimeError} wb_in c)
  unfolding write_back
  write_back-Post (write_i id val) c h v =
      Post-within (λ c'. c'.reg_file) (λ part c'. record c' { reg_file = part })
        (RegFile.set_reg id val) c
        (Post-weaken (set_reg-Post fl.zero c.reg_file v.registers id h val)
          (λ u rf g. with_registers v g) (λ rf g. with_registers v g))
  write_back-Post (write_f id val) c h v =
      Post-within (λ c'. c'.reg_file) (λ part c'. record c' { reg_file = part })
        (RegFile.set_f id val) c
        (Post-weaken (set_freg-Post fl.zero c.reg_file v.registers id h val)
          (λ u rf g. with_registers v g) (λ rf g. with_registers v g))
