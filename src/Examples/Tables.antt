-- ===== src/Examples/Tables.antt =====
-- core_sim/src/stat.rs: three entries of a table of registers, in a terminal of 70 characters.
use cpuex2022_7_simulator.Common.{ℕ, ◌≡◌, List, [], ◌∷◌, some}
use cpuex2022_7_simulator.Stat.{register_entry, row_width, in_rows}
use cpuex2022_7_simulator.Stat.Rows.{Fits, rows_joined, EachFits, in_rows-Fits}

in_rows-Fits_example :
    (size : ℕ) × (rows : List (List ℕ)) × (in_rows register_entry 70 (5 ∷ 6 ∷ 7 ∷ []) ≡ some rows)
    × Fits (row_width register_entry) 70 size
    × (rows_joined rows ≡ 5 ∷ 6 ∷ 7 ∷ [])
    × EachFits size rows
in_rows-Fits_example = in_rows-Fits register_entry 70 (5 ∷ 6 ∷ 7 ∷ [])
