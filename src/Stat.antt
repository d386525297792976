-- ===== src/Stat.antt =====
-- core_sim/src/stat.rs and the statistics of its users: what is counted, in the order in which it is
-- shown, and how tables are cut into rows. The text of an entry is left out.
pub mod Rows
use Prim.Native.String.{String}
use cpuex2022_7_simulator.Common.{
  ℕ, zero, suc, ◌+◌, ◌-◌, ◌*◌, List, [], ◌∷◌, ◌++◌, Option, none, some, ltb, if◌then◌else◌,
  get_elem?, Result, ok, err, panic, wrapping_sub, shl,
}
use cpuex2022_7_simulator.Register.Names.{abiname_table, f_abiname_table}
use cpuex2022_7_simulator.RegFile.{RegFile, RegFileStat}
use cpuex2022_7_simulator.RegFile.Region
use cpuex2022_7_simulator.RegFile.Region.{MemoryRegionStat}
use cpuex2022_7_simulator.Memory.Watch.{MemoryStat}
use cpuex2022_7_simulator.Instr.Id.{try_from, max_id}
use cpuex2022_7_simulator.Cpu.Stat.{InstrStat, BranchStat, CacheStat}
use cpuex2022_7_simulator.Cpu.State.{Cpu}
use cpuex2022_7_simulator.Sim.State.{Simulator, SimStat, finish}

-- `width_by_chunk_size` of the two tables, whose entries are 31 and 21 characters wide
unfoldable pub row_width : ℕ → ℕ → ℕ
row_width entry chunk_size = chunk_size * entry + (chunk_size - 1) * 2 + 2

abbrev pub register_entry : ℕ
register_entry = 31

abbrev pub instr_entry : ℕ
instr_entry = 21

-- The loop of `chunk_size`, which has no bound: `none` when the fuel has run out.
unfoldable pub chunk_size_from : (ℕ → ℕ) → ℕ → ℕ → ℕ → Option ℕ
chunk_size_from width max_width zero chunk_size = none
chunk_size_from width max_width (suc fuel) chunk_size =
    let further = chunk_size_from width max_width fuel (chunk_size + 1) in
    if ltb max_width (width chunk_size) then some (chunk_size - 1) else further

unfoldable pub chunk_size : (ℕ → ℕ) → ℕ → Option ℕ
unfolding chunk_size_from
chunk_size width max_width = chunk_size_from width max_width (suc max_width) 2

-- `chunks` of the standard library: rows of `chunk_size` entries, of which the last may be shorter.
-- `row` has been begun, and `left` entries still fit into it.
unfoldable pub fill : {A : Type 0} → ℕ → ℕ → List A → List A → List (List A)
fill more left row [] = row ∷ []
fill more zero row (x ∷ xs) = row ∷ fill more more (x ∷ []) xs
fill more (suc left) row (x ∷ xs) = fill more left (row ++ (x ∷ [])) xs

-- A chunk size of 0 panics.
unfoldable pub chunks : {A : Type 0} → ℕ → List A → Option (List (List A))
unfolding fill
chunks zero xs = none
chunks (suc more) [] = some []
chunks (suc more) (x ∷ xs) = some (fill more more (x ∷ []) xs)

-- An entry of the register table.
pub record Load : Type 0 where
  pub name : String
  pub reads : ℕ
  pub writes : ℕ

unfoldable pub loads : List String → List ℕ → List ℕ → List Load
loads (n ∷ names) (r ∷ reads) (w ∷ writes) =
    record { name = n; reads = r; writes = w } ∷ loads names reads writes
loads _ _ _ = []

unfoldable pub in_rows : {A : Type 0} → ℕ → ℕ → List A → Option (List (List A))
unfolding chunk_size chunks row_width
in_rows entry max_width xs = elim (chunk_size (row_width entry) max_width) [
  | none ↦ none
  | some size ↦ chunks size xs
]

-- the table of a file of registers
unfoldable pub register_rows : ℕ → List String → RegFileStat → Option (List (List Load))
unfolding in_rows loads
register_rows max_width names st = in_rows register_entry max_width (loads names st.read st.write)

-- the counts from an index on of the numbers that are instructions
unfoldable pub instr_counts : ℕ → List ℕ → List (ℕ × ℕ)
instr_counts index [] = []
instr_counts index (n ∷ counts) = elim (try_from index) [
  | ok id ↦ (id, n) ∷ instr_counts (index + 1) counts
  | err _ ↦ instr_counts (index + 1) counts
  | panic ↦ instr_counts (index + 1) counts
]

unfoldable pub instr_rows : ℕ → InstrStat → Option (List (List (ℕ × ℕ)))
unfolding in_rows instr_counts
instr_rows max_width st = in_rows instr_entry max_width (instr_counts 0 st.instr_executed)

-- What the views of branches, of the cache and of the used memory show; the percentages are left
-- out.
pub record BranchSums : Type 0 where
  pub taken : ℕ
  pub untaken : ℕ
  pub pred_correct : ℕ
  pub total : ℕ

unfoldable pub branch_sums : BranchStat → BranchSums
branch_sums st = record {
  taken = st.taken_pred_taken_count + st.taken_pred_untaken_count;
  untaken = st.untaken_pred_taken_count + st.untaken_pred_untaken_count;
  pred_correct = st.taken_pred_taken_count + st.untaken_pred_untaken_count;
  total =
      st.taken_pred_taken_count
      + st.taken_pred_untaken_count
      + (st.untaken_pred_taken_count + st.untaken_pred_untaken_count);
}

unfoldable pub cache_total : CacheStat → ℕ
cache_total st = st.hit_count + st.miss_count

-- heap and stack, in bytes
unfoldable pub used_memory : MemoryRegionStat → ℕ × ℕ
used_memory st =
    (shl (wrapping_sub st.hp_max st.hp_min) 2, shl (wrapping_sub st.sp_max st.sp_min) 2)

pub data Stat : Type 0 where
  of_simulator : SimStat → Stat
  of_memory : MemoryStat → Stat
  of_regions : MemoryRegionStat → Stat
  of_registers : RegFileStat → RegFileStat → Stat
  of_instrs : InstrStat → Stat
  of_branches : BranchStat → Stat
  of_cache : CacheStat → Stat

-- `width` of the views; `none` as above
unfoldable pub view_width : ℕ → Stat → Option ℕ
unfolding chunk_size row_width
view_width max_width (of_simulator st) = some 33
view_width max_width (of_memory st) = some 40
view_width max_width (of_regions st) = some 24
view_width max_width (of_registers i f) = elim (chunk_size (row_width register_entry) max_width) [
  | none ↦ none
  | some size ↦ some (row_width register_entry size)
]
view_width max_width (of_instrs st) = elim (chunk_size (row_width instr_entry) max_width) [
  | none ↦ none
  | some size ↦ some (row_width instr_entry size)
]
view_width max_width (of_branches st) = some 33
view_width max_width (of_cache st) = some 33

-- `self.inner[4]`, which panics past the end
unfoldable pub add_reg_file : {F E : Type 0} → RegFile F → Result E (List Stat)
unfolding Region.finish
add_reg_file rf = elim (get_elem? rf.inner 4) [
  | none ↦ panic
  | some hp ↦
      ok (of_regions (Region.finish hp rf.stat_memregion) ∷ of_registers rf.stat_i rf.stat_f ∷ [])
]

module _ {F I O : Type 0} where
  unfoldable pub add_cpu : {E : Type 0} → Cpu F I O → Result E (List Stat)
  unfolding add_reg_file
  add_cpu c = elim (add_reg_file c.reg_file) [
    | ok stats ↦ ok (
        of_memory c.memory.stat_mem ∷ stats
        ++ (of_instrs c.i_stat ∷ of_branches c.b_stat ∷ of_cache c.c_stat ∷ []))
    | err e ↦ err e
    | panic ↦ panic
  ]

  unfoldable pub collect_stat : {E : Type 0} → Simulator F I O → Result E (List Stat)
  unfolding finish add_cpu
  collect_stat sim = elim (finish sim.stat_builder) [
    | ok stat ↦ elim (add_cpu sim.cpu) [
      | ok stats ↦ ok (of_simulator stat ∷ stats)
      | err e ↦ err e
      | panic ↦ panic
    ]
    | err e ↦ err e
    | panic ↦ panic
  ]
