-- ===== src/Interactive/View.antt =====
-- `RegFileView` of core_sim/src/reg_file.rs, as rows of names and values, and the width that
-- cli/src/interactive.rs gives it. The text of an entry is left out.
use Prim.Native.String.{String}
use cpuex2022_7_simulator.Common.{
  ℕ, ◌/◌, List, [], ◌∷◌, Option, none, some, ◌+◌, ◌-◌, ◌%◌, ◌^◌, max,
}
use cpuex2022_7_simulator.Register.Names.{abiname_table, f_abiname_table}
use cpuex2022_7_simulator.RegFile.{RegFile}
use cpuex2022_7_simulator.Stat.{chunks}
use cpuex2022_7_simulator.Interactive.{ShowRegFileKind, reg_file_all, reg_file_i, reg_file_f}

-- The entries of `zip`.
unfoldable pub named : {A : Type 0} → List String → List A → List (String × A)
named (n ∷ names) (v ∷ values) = (n, v) ∷ named names values
named _ _ = []

-- What is shown: the rows of the integer registers, and those of the float registers.
pub record RegFileRows (F : Type 0) : Type 0 where
  pub integers : List (List (String × ℕ))
  pub floats : List (List (String × F))

unfoldable pub view : {F : Type 0} → ShowRegFileKind → ℕ → RegFile F → Option (RegFileRows F)
unfolding chunks named abiname_table f_abiname_table
view reg_file_all chunk_size r = elim (chunks chunk_size (named abiname_table r.inner)) [
  | none ↦ none
  | some rows ↦ elim (chunks chunk_size (named f_abiname_table r.inner_f)) [
    | none ↦ none
    | some f_rows ↦ some (record { integers = rows; floats = f_rows })
  ]
]
view reg_file_i chunk_size r = elim (chunks chunk_size (named abiname_table r.inner)) [
  | none ↦ none
  | some rows ↦ some (record { integers = rows; floats = [] })
]
view reg_file_f chunk_size r = elim (chunks chunk_size (named f_abiname_table r.inner_f)) [
  | none ↦ none
  | some f_rows ↦ some (record { integers = []; floats = f_rows })
]

-- `w.0 - 20` on `u16` wraps in a terminal of fewer columns. What the terminal says is a parameter.
unfoldable pub terminal_width : Option ℕ → Option ℕ
terminal_width none = none
terminal_width (some w) = some ((w + (2 ^ 16 - 20)) % 2 ^ 16)

unfoldable pub regfile_chunk_size : Option ℕ → ℕ
unfolding terminal_width
regfile_chunk_size size = elim (terminal_width size) [ none ↦ 2 | some w ↦ max (w / 30) 2 ]
