-- ===== src/Memory.antt =====
-- core_sim/src/memory.rs: the byte memory of `size` bytes with a type and spies for each word.
-- The features `typed_memory` and `stat` are on, as they are by default.
pub mod Watch
pub mod Access
pub mod Laws
pub mod Protect
pub mod Safe
pub mod Bounds
use cpuex2022_7_simulator.Common.{
  lookup, ℕ, ◌+◌, ◌*◌, ◌/◌, ◌^◌, Bool, true, false, List, none, some, ◌||◌, ◌&&◌, ltb, leb,
  get_elem?, set, replicate, length, drop, ◌++◌, if◌then◌else◌, Exec, done, fail, abort, ◌>>=◌,
  ◌>>◌, index, modify, within, pure, unwrap, Option, gets,
}
use cpuex2022_7_simulator.Bytes.{word_at, put_word}
use cpuex2022_7_simulator.Ty.{Ty, i32_or_usize, f32, unknown, ty_lt, ty_ge, TypedU32, typed}
use cpuex2022_7_simulator.RegFile.Region.{MemoryRegionStatBuilder, get_region}
use Watch.{
  Spy, SpyUnit, SpyResult, SpyWatchKind, MemoryStat, no_spy, new_stat, stat_on_read, stat_on_write,
  add, remove, spied_read, spied_write,
}

abbrev pub ram_byte_size : ℕ
ram_byte_size = 1000000

-- A range of addresses, its end excluded.
pub record Range : Type 0 where
  pub start : ℕ
  pub end : ℕ

pub record Memory : Type 0 where
  pub inner : List ℕ
  pub instr_mem_range : Range
  pub stat_mem : MemoryStat
  pub ty : List Ty
  pub spy : Spy

pub data MemoryAccessError : Type 0 where
  out_of_bounds : ℕ → MemoryAccessError
  pc_out_of_bounds : ℕ → MemoryAccessError
  violate_transmutation : Ty → Ty → MemoryAccessError

abbrev pub Access : Type 0 → Type 0
Access A = Exec Memory MemoryAccessError A

unfoldable pub contains : Range → ℕ → Bool
contains r i = leb r.start i && ltb i r.end

unfoldable pub new : ℕ → Memory
unfolding new_stat no_spy
new size = record {
  inner = replicate size 0xcc;
  instr_mem_range = record { start = 0; end = 0 };
  stat_mem = new_stat;
  ty = replicate (size / 2 ^ 2) unknown;
  spy = no_spy;
}

-- `write_all` fails, and its `unwrap` panics, on more bytes than the memory has.
unfoldable pub init_from_slice : {E : Type 0} → List ℕ → Range → Exec Memory E (Unit {0})
init_from_slice mem range m =
    if leb (length mem) (length m.inner)
    then done tt (record m { inner = mem ++ drop (length mem) m.inner; instr_mem_range = range })
    else abort

unfoldable pub add_spy : SpyWatchKind → SpyUnit → Memory → Memory
unfolding add
add_spy k u m = record m { spy = add k u m.spy }

unfoldable pub remove_spy : SpyWatchKind → SpyUnit → Memory → Memory
unfolding remove
remove_spy k u m = record m { spy = remove k u m.spy }

-- `bounds_check!`: a word address outside the memory or in the instruction memory. The source shifts
-- a usize of 64 bits by two, which loses bits from 2 ^ 62 on. The addresses of loads and stores are
-- u32; only one that is typed at the prompt can be as large, and that is not modelled.
unfoldable pub out_of_range : ℕ → Memory → ℕ → Bool
unfolding contains
out_of_range size m addr = leb size (addr * 2 ^ 2) || contains m.instr_mem_range (addr * 2 ^ 2)

unfoldable pub bounds_check : ℕ → ℕ → Access (Unit {0})
bounds_check size addr m =
    if out_of_range size m addr then fail (out_of_bounds addr) m else done tt m

unfoldable pub get_raw_addr : {E : Type 0} → ℕ → Exec Memory E ℕ
get_raw_addr addr m = elim (word_at m.inner addr) [ none ↦ abort | some v ↦ done v m ]

unify_with : ℕ → Ty → Ty → Access Ty
unify_with addr attempt ty m =
    if ty_lt ty attempt
    then done attempt (record m { ty = set m.ty addr attempt })
    else if ty_ge ty attempt
    then done ty m
    else fail (violate_transmutation ty attempt) m

unfoldable pub unify : ℕ → Ty → Access Ty
unfolding unify_with
unify addr attempt m = elim (get_elem? m.ty addr) [
  | none ↦ abort
  | some ty ↦ unify_with addr attempt ty m
]

-- `on_read` and `on_write` with the word that stands in `*spied` before; they return the one after.
unfoldable pub on_read :
    {E : Type 0} → MemoryRegionStatBuilder → ℕ → Option SpyResult → Exec Memory E (Option SpyResult)
on_read region addr spied m =
    done (spied_read m.spy addr spied)
      (record m { stat_mem = stat_on_read (get_region addr region) m.stat_mem })

unfoldable pub spied_before : {E : Type 0} → ℕ → Exec Memory E TypedU32
spied_before addr = do
  raw ← get_raw_addr (addr * 2 ^ 2)
  ty ← (λ m. index m.ty addr m)
  pure (typed raw ty)

-- The word before the write is read only where a spy stands.
unfoldable pub on_write :
    {E : Type 0}
    → MemoryRegionStatBuilder
    → ℕ
    → TypedU32
    → Option SpyResult
    → Exec Memory E (Option SpyResult)
on_write region addr val spied m =
    let m' = record m { stat_mem = stat_on_write (get_region addr region) m.stat_mem } in
    elim (lookup addr m.spy.writes) [
      | none ↦ done spied m'
      | some u ↦ (spied_before addr >>= λ before. pure (some (spied_write u before val))) m'
    ]

unfoldable pub reset_type : {E : Type 0} → ℕ → Ty → Exec Memory E (Unit {0})
reset_type addr ty m = elim (get_elem? m.ty addr) [
  | none ↦ abort
  | some _ ↦ done tt (record m { ty = set m.ty addr ty })
]

-- `self.inner[addr..(4 + addr)].copy_from_slice(..)`
unfoldable pub store_word : {E : Type 0} → ℕ → ℕ → Exec Memory E (Unit {0})
store_word addr val m =
    if leb (addr + 4) (length m.inner)
    then done tt (record m { inner = put_word m.inner addr val })
    else abort

module _ (size : ℕ) (region : MemoryRegionStatBuilder) where
  unfoldable pub get : ℕ → Option SpyResult → Access (TypedU32 × Option SpyResult)
  get addr spied = do
    bounds_check size addr
    ty ← unwrap (unify addr unknown)
    spied' ← on_read region addr spied
    raw ← get_raw_addr (addr * 2 ^ 2)
    pure (typed raw ty, spied')

  unfoldable pub get_i : ℕ → Option SpyResult → Access (TypedU32 × Option SpyResult)
  get_i addr spied = do
    bounds_check size addr
    ty ← unify addr i32_or_usize
    spied' ← on_read region addr spied
    raw ← get_raw_addr (addr * 2 ^ 2)
    pure (typed raw ty, spied')

  -- `f32::from_le_bytes` is `from_bits` of the word.
  unfoldable pub get_f :
      {F : Type 0} → (ℕ → F) → ℕ → Option SpyResult → Access (F × Option SpyResult)
  get_f from_bits addr spied = do
    bounds_check size addr
    unify addr f32
    spied' ← on_read region addr spied
    raw ← get_raw_addr (addr * 2 ^ 2)
    pure (from_bits raw, spied')

  -- `set`, and `set_f` of the bit pattern of its value, write a word and its type.
  unfoldable pub write_typed : ℕ → ℕ → Ty → Option SpyResult → Access (Option SpyResult)
  write_typed addr val ty spied = do
    bounds_check size addr
    spied' ← on_write region addr (typed val ty) spied
    reset_type addr ty
    store_word (addr * 2 ^ 2) val
    pure spied'

  unfoldable pub set_word : ℕ → ℕ → Option SpyResult → Access (Option SpyResult)
  set_word addr val spied = write_typed addr val i32_or_usize spied

  unfoldable pub set_f :
      {F : Type 0} → (F → ℕ) → ℕ → F → Option SpyResult → Access (Option SpyResult)
  set_f to_bits addr val spied = write_typed addr (to_bits val) f32 spied

-- A panic if the word passes the end of the memory.
unfoldable pub get_from_pc : ℕ → Access ℕ
unfolding contains get_raw_addr
get_from_pc pc m =
    if contains m.instr_mem_range pc then get_raw_addr pc m else fail (pc_out_of_bounds pc) m
