-- ===== src/Memory/Protect.antt =====
-- Writes of core_sim/src/memory.rs and the instruction memory.
use cpuex2022_7_simulator.Common.{
  ℕ, ◌+◌, ◌*◌, ◌%◌, ◌≤◌, ◌≡◌, ◌⊎◌, inl, inr, refl, arith, true, Option, Outcome, done, fail, abort,
  ◌>>=◌, Bool-cases, Option-cases, Leaves,
}
use cpuex2022_7_simulator.Bytes.{word_at}
use cpuex2022_7_simulator.Bytes.Words.{word_at-put_word_ne}
use cpuex2022_7_simulator.Ty.{Ty, i32_or_usize, f32}
use cpuex2022_7_simulator.RegFile.Region.{MemoryRegionStatBuilder}
use cpuex2022_7_simulator.Memory.Watch.{SpyResult}
use cpuex2022_7_simulator.Memory.{
  Memory, MemoryAccessError, out_of_range, contains, bounds_check, write_typed, set_word, set_f,
  get_from_pc, get_raw_addr,
}
use cpuex2022_7_simulator.Memory.Access.{IsValid, after_write, after_read, write_typed_lem, InRange}

-- `Cpu::new` sets the bounds of the instruction memory to multiples of 4.
pub record IsAligned (m : Memory) : Type 0 where
  pub start_aligned : m.instr_mem_range.start % 4 ≡ 0
  pub end_aligned : m.instr_mem_range.end % 4 ≡ 0

-- An outcome with another state.
abbrev pub at_state : {S E A : Type 0} → S → Outcome S E A → Outcome S E A
at_state s (done a _) = done a s
at_state s (fail e _) = fail e s
at_state s abort = abort

-- The two memories fetch the same instruction, or fail alike, at every word of the instruction
-- memory and outside it.
abbrev pub SameText : Memory → Memory → Type 0
SameText m m' = (pc : ℕ) → pc % 4 ≡ 0 → get_from_pc pc m' ≡ at_state m' (get_from_pc pc m)

apart :
    (size : ℕ) (m : Memory) (addr pc : ℕ)
    → IsAligned m
    → InRange size m addr
    → contains m.instr_mem_range pc ≡ true
    → pc % 4 ≡ 0
    → (pc + 4 ≤ addr * 4) ⊎ (addr * 4 + 4 ≤ pc)
unfolding out_of_range contains
apart size m addr pc a h c p = ground (arith, a.start_aligned, a.end_aligned, h, c)

raw_same :
    (m m' : Memory) (pc : ℕ)
    → word_at m'.inner pc ≡ word_at m.inner pc
    → get_raw_addr {E = MemoryAccessError} pc m' ≡ at_state m' (get_raw_addr pc m)
unfolding get_raw_addr
raw_same m m' pc e = elim (Option-cases (word_at m.inner pc)) [
  | inl none_read ↦ rw (get_raw_addr, e, none_read) refl
  | inr (w, some_read) ↦ rw (get_raw_addr, e, some_read) refl
]

pub SameText-refl : (m : Memory) → SameText m m
unfolding get_from_pc
SameText-refl m pc p = elim (Bool-cases (contains m.instr_mem_range pc)) [
  | inl c ↦ rw c (raw_same m m pc refl)
  | inr c ↦ rw c refl
]

pub after_write-SameText :
    (size : ℕ) (region : MemoryRegionStatBuilder) (m : Memory) (addr val : ℕ) (ty : Ty)
    → IsAligned m
    → InRange size m addr
    → SameText m (after_write region addr val ty m)
unfolding get_from_pc
after_write-SameText size region m addr val ty a h pc p =
    elim (Bool-cases (contains m.instr_mem_range pc)) [
      | inl c ↦ rw c (
          raw_same m (after_write region addr val ty m) pc
            (word_at-put_word_ne m.inner (addr * 4) val pc (apart size m addr pc a h c p)))
      | inr c ↦ rw c refl
    ]

pub after_read-SameText :
    (region : MemoryRegionStatBuilder) (m : Memory) (addr : ℕ) (ty : Ty)
    → SameText m (after_read region addr ty m)
unfolding get_from_pc
after_read-SameText region m addr ty pc p = elim (Bool-cases (contains m.instr_mem_range pc)) [
  | inl c ↦ rw c (raw_same m (after_read region addr ty m) pc refl)
  | inr c ↦ rw c refl
]

write_typed-SameText :
    (size : ℕ) (region : MemoryRegionStatBuilder) (m : Memory) (addr val : ℕ) (ty : Ty)
    (spied : Option SpyResult)
    → IsValid size m
    → IsAligned m
    → Leaves (SameText m) (write_typed size region addr val ty spied m)
write_typed-SameText size region m addr val ty spied v a =
    elim (Bool-cases (out_of_range size m addr)) [
      | inl out ↦ unfold write_typed bounds_check in rw (◌>>=◌, out) (SameText-refl m)
      | inr h ↦
          rw (write_typed_lem size m v addr h region spied val ty)
            (after_write-SameText size region m addr val ty a h)
    ]

-- `set` and `set_f`, at any address and whether they succeed or fail, never panic and leave every
-- instruction as it was: a fetch gives the same instruction or the same error as before, if the
-- bounds of the instruction memory are multiples of 4 and the memory's sizes are consistent.
pub set-SameText :
    {F : Type 0} (to_bits : F → ℕ) (size : ℕ) (region : MemoryRegionStatBuilder) (m : Memory)
    (addr val : ℕ) (x : F) (spied : Option SpyResult)
    → IsValid size m
    → IsAligned m
    → Leaves (SameText m) (set_word size region addr val spied m)
      × Leaves (SameText m) (set_f size region to_bits addr x spied m)
unfolding set_word set_f
set-SameText to_bits size region m addr val x spied v a = (
  write_typed-SameText size region m addr val i32_or_usize spied v a,
  write_typed-SameText size region m addr (to_bits x) f32 spied v a,
)
