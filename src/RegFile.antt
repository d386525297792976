-- ===== src/RegFile.antt =====
-- core_sim/src/reg_file.rs: the integer and float registers with their access counts, and the
-- memory regions as far as the stack has reached. The region cell is shared with the memory
-- (`Rc<RefCell<…>>`): it is kept here, and the memory is handed what it holds.
pub mod Region
pub mod Access
pub mod Safe
use cpuex2022_7_simulator.Common.{
  ℕ, ◌+◌, Bool, true, false, List, none, some, get_elem?, set, replicate, ◌==◌, if◌then◌else◌, Exec,
  done, abort, ◌>>=◌, ◌>>◌, index, modify, within, pure,
}
use cpuex2022_7_simulator.Register.{RegId, FRegId, max_reg_id}
use Region.{MemoryRegionStatBuilder, update_sp, init}

pub record RegFileStat : Type 0 where
  pub write : List ℕ
  pub read : List ℕ

unfoldable pub new_stat : RegFileStat
new_stat = record { write = replicate max_reg_id 0; read = replicate max_reg_id 0 }

unfoldable pub encounter_write : {E : Type 0} → ℕ → Exec RegFileStat E (Unit {0})
encounter_write id st = elim (get_elem? st.write id) [
  | none ↦ abort
  | some n ↦ done tt (record st { write = set st.write id (n + 1) })
]

unfoldable pub encounter_read : {E : Type 0} → ℕ → Exec RegFileStat E (Unit {0})
encounter_read id st = elim (get_elem? st.read id) [
  | none ↦ abort
  | some n ↦ done tt (record st { read = set st.read id (n + 1) })
]

pub record RegFile (F : Type 0) : Type 0 where
  pub inner : List ℕ
  pub inner_f : List F
  pub stat_memregion : MemoryRegionStatBuilder
  pub stat_i : RegFileStat
  pub stat_f : RegFileStat

module _ {F : Type 0} where
  -- `zero` is 0.0.
  unfoldable pub new : F → RegFile F
  unfolding new_stat
  new zero = record {
    inner = replicate max_reg_id 0;
    inner_f = replicate max_reg_id zero;
    stat_memregion = record { hp_min = 0; sp_min = 0; sp_max = 0 };
    stat_i = new_stat;
    stat_f = new_stat;
  }

  abbrev in_stat_i : {E A : Type 0} → Exec RegFileStat E A → Exec (RegFile F) E A
  in_stat_i m = within (λ rf. rf.stat_i) (λ st rf. record rf { stat_i = st }) m

  abbrev in_stat_f : {E A : Type 0} → Exec RegFileStat E A → Exec (RegFile F) E A
  in_stat_f m = within (λ rf. rf.stat_f) (λ st rf. record rf { stat_f = st }) m

  read_inner : {E : Type 0} → ℕ → Exec (RegFile F) E ℕ
  read_inner id rf = index rf.inner id rf

  read_inner_f : {E : Type 0} → ℕ → Exec (RegFile F) E F
  read_inner_f id rf = index rf.inner_f id rf

  -- `self.inner[id] = val`
  write_inner : {E : Type 0} → ℕ → ℕ → Exec (RegFile F) E (Unit {0})
  write_inner id val rf = elim (get_elem? rf.inner id) [
    | none ↦ abort
    | some _ ↦ done tt (record rf { inner = set rf.inner id val })
  ]

  write_inner_f : {E : Type 0} → ℕ → F → Exec (RegFile F) E (Unit {0})
  write_inner_f id val rf = elim (get_elem? rf.inner_f id) [
    | none ↦ abort
    | some _ ↦ done tt (record rf { inner_f = set rf.inner_f id val })
  ]

  unfoldable pub get : {E : Type 0} → RegId → Exec (RegFile F) E ℕ
  unfolding encounter_read read_inner
  get id = do in_stat_i (encounter_read id); read_inner id

  unfoldable pub get_f : {E : Type 0} → FRegId → Exec (RegFile F) E F
  unfolding encounter_read read_inner_f
  get_f id = do in_stat_f (encounter_read id); read_inner_f id

  unfoldable pub set_sp : {E : Type 0} → ℕ → Exec (RegFile F) E (Unit {0})
  unfolding write_inner
  set_sp val = write_inner 2 val

  unfoldable pub set_hp : {E : Type 0} → ℕ → Exec (RegFile F) E (Unit {0})
  unfolding write_inner
  set_hp val = write_inner 4 val

  -- `if id.inner() == 2 { self.stat_memregion.borrow_mut().update_sp(val) }`
  note_sp : ℕ → ℕ → RegFile F → RegFile F
  unfolding update_sp
  note_sp id val rf = record rf {
    stat_memregion = if id == 2 then update_sp val rf.stat_memregion else rf.stat_memregion;
  }

  -- `if id.inner() != 0 { self.inner[id.inner()] = val }`, and so for the floats
  write_nonzero : {E : Type 0} → ℕ → ℕ → Exec (RegFile F) E (Unit {0})
  unfolding write_inner
  write_nonzero id val rf = if id == 0 then done tt rf else write_inner id val rf

  write_nonzero_f : {E : Type 0} → ℕ → F → Exec (RegFile F) E (Unit {0})
  unfolding write_inner_f
  write_nonzero_f id val rf = if id == 0 then done tt rf else write_inner_f id val rf

  unfoldable pub set_reg : {E : Type 0} → RegId → ℕ → Exec (RegFile F) E (Unit {0})
  unfolding encounter_write write_nonzero note_sp
  set_reg id val = do in_stat_i (encounter_write id); modify (note_sp id val); write_nonzero id val

  unfoldable pub set_f : {E : Type 0} → FRegId → F → Exec (RegFile F) E (Unit {0})
  unfolding encounter_write write_nonzero_f
  set_f id val = do in_stat_f (encounter_write id); write_nonzero_f id val

  end_init_with : ℕ → ℕ → RegFile F → RegFile F
  unfolding init
  end_init_with hp sp rf = record rf { stat_memregion = init hp sp rf.stat_memregion }

  unfoldable pub end_init : {E : Type 0} → Exec (RegFile F) E (Unit {0})
  unfolding read_inner end_init_with
  end_init = do hp ← read_inner 4; sp ← read_inner 2; modify (end_init_with hp sp)
