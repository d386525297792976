-- ===== src/Memory/Watch.antt =====
-- Spies on memory words and the access counts by region: `Spy` and `MemoryStat` of
-- core_sim/src/memory.rs, and the results of a spy of core_sim/src/common.rs.
use cpuex2022_7_simulator.Common.{
  Map, lookup, delete, insert, ℕ, ◌+◌, Bool, [], Option, none, some, if◌then◌else◌,
}
use cpuex2022_7_simulator.Ty.{Ty, unknown, f32, TypedU32}
use cpuex2022_7_simulator.Register.{RegId, FRegId, reg_ty}
use cpuex2022_7_simulator.RegFile.Region.{MemoryRegion, data_section, heap, stack}

pub record SpyUnit : Type 0 where
  pub addr : ℕ
  pub expire_at : Option ℕ

-- the two flags of the bit mask `SpyWatchKind`
pub record SpyWatchKind : Type 0 where
  pub on_reads : Bool
  pub on_writes : Bool

abbrev pub SpyMap : Type 0
SpyMap = Map SpyUnit

pub record Spy : Type 0 where
  pub reads : SpyMap
  pub writes : SpyMap

unfoldable pub no_spy : Spy
no_spy = record { reads = []; writes = [] }

unfoldable pub add : SpyWatchKind → SpyUnit → Spy → Spy
unfolding insert
add k u s = record {
  reads = if k.on_reads then insert u.addr u s.reads else s.reads;
  writes = if k.on_writes then insert u.addr u s.writes else s.writes;
}

unfoldable pub remove : SpyWatchKind → SpyUnit → Spy → Spy
unfolding delete
remove k u s = record {
  reads = if k.on_reads then delete u.addr s.reads else s.reads;
  writes = if k.on_writes then delete u.addr s.writes else s.writes;
}

pub data SpyKind : Type 0 where
  memory : SpyUnit → SpyKind
  register_i : RegId → SpyKind
  register_f : FRegId → SpyKind

unfoldable pub spy_kind_ty : SpyKind → Ty
unfolding reg_ty
spy_kind_ty (memory u) = unknown
spy_kind_ty (register_i i) = reg_ty i
spy_kind_ty (register_f i) = f32

pub data SpyWatchResultKind : Type 0 where
  read : SpyWatchResultKind
  write : TypedU32 → TypedU32 → SpyWatchResultKind

pub record SpyResult : Type 0 where
  pub kind : SpyWatchResultKind
  pub target : SpyKind

-- what a read of `addr` leaves in `*spied`
unfoldable pub spied_read : Spy → ℕ → Option SpyResult → Option SpyResult
unfolding lookup
spied_read s addr spied = elim (lookup addr s.reads) [
  | none ↦ spied
  | some u ↦ some (record { kind = read; target = memory u })
]

-- what a write of `after` over `before` leaves in it
unfoldable pub spied_write : SpyUnit → TypedU32 → TypedU32 → SpyResult
spied_write u before after = record { kind = write before after; target = memory u }

pub record MemoryRegionCount : Type 0 where
  pub data_section_count : ℕ
  pub heap_count : ℕ
  pub stack_count : ℕ

unfoldable pub incr : MemoryRegion → MemoryRegionCount → MemoryRegionCount
incr data_section c = record c { data_section_count = c.data_section_count + 1 }
incr heap c = record c { heap_count = c.heap_count + 1 }
incr stack c = record c { stack_count = c.stack_count + 1 }

pub record MemoryStat : Type 0 where
  pub writes : MemoryRegionCount
  pub reads : MemoryRegionCount

abbrev no_count : MemoryRegionCount
no_count = record { data_section_count = 0; heap_count = 0; stack_count = 0 }

unfoldable pub new_stat : MemoryStat
new_stat = record { writes = no_count; reads = no_count }

unfoldable pub stat_on_write : MemoryRegion → MemoryStat → MemoryStat
unfolding incr
stat_on_write r st = record st { writes = incr r st.writes }

unfoldable pub stat_on_read : MemoryRegion → MemoryStat → MemoryStat
unfolding incr
stat_on_read r st = record st { reads = incr r st.reads }
