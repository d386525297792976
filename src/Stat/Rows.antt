-- ===== src/Stat/Rows.antt =====
-- How core_sim/src/stat.rs cuts a table into rows that fit.
use cpuex2022_7_simulator.Common.{
  ℕ, zero, suc, ◌+◌, ◌-◌, ◌<◌, ◌≤◌, ◌≡◌, ◌∙◌, refl, arith, ap, List, [], ◌∷◌, ◌++◌, some, length,
  length-append, ltb, ltb→lt, Bool-cases, inl, inr, append_cons,
}
use cpuex2022_7_simulator.Stat.{row_width, chunk_size_from, chunk_size, fill, chunks, in_rows}

row_width-grows : (entry n : ℕ) → n ≤ row_width entry n
unfolding row_width
row_width-grows entry zero = omega arith
row_width-grows entry (suc n) = omega (arith)

module _ (width : ℕ → ℕ) (max_width : ℕ) where
  -- The greatest number of entries that fit, and one entry where not even two do.
  abbrev pub Fits : ℕ → Type 0
  Fits size = (1 ≤ size) × (2 ≤ size → width size ≤ max_width) × (max_width < width (size + 1))

  chunk_size_from-Fits :
      ((n : ℕ) → n ≤ width n)
      → (fuel n : ℕ) → 1 ≤ n
      → (2 ≤ n → width n ≤ max_width)
      → max_width + 2 ≤ n + fuel
      → (size : ℕ) × (chunk_size_from width max_width fuel (n + 1) ≡ some size) × Fits size
  unfolding chunk_size_from
  chunk_size_from-Fits grows zero n h fits enough =
      absurd (omega (arith, grows n, fits (omega arith)))
  chunk_size_from-Fits grows (suc fuel) n h fits enough =
      elim (Bool-cases (ltb max_width (width (n + 1)))) [
        | inl wide ↦
            let same : n + 1 - 1 ≡ n = omega arith in
            (n, rw (wide, same) refl, (h, fits, ltb→lt _ _ wide))
        | inr narrow ↦
            let (size, e, q) =
              chunk_size_from-Fits grows fuel (n + 1) (omega arith) (λ l. ground (arith, narrow))
                (omega arith) in
            (size, rw narrow e, q)
      ]

  chunk_size-Fits :
      ((n : ℕ) → n ≤ width n) → (size : ℕ) × (chunk_size width max_width ≡ some size) × Fits size
  unfolding chunk_size
  chunk_size-Fits grows =
      chunk_size_from-Fits grows (suc max_width) 1 (omega arith) (λ l. absurd (omega (arith, l)))
        (omega arith)

module _ {A : Type 0} where
  abbrev pub rows_joined : List (List A) → List A
  rows_joined [] = []
  rows_joined (row ∷ rows) = row ++ rows_joined rows

  -- Every row has at least one and at most `size` entries.
  pub data EachFits (size : ℕ) : List (List A) → Type 0 where
    no_rows : EachFits size []
    one_row :
        {row : List A} {rows : List (List A)}
        → 1 ≤ length row
        → length row ≤ size
        → EachFits size rows
        → EachFits size (row ∷ rows)

  fill-joined : (more left : ℕ) (row xs : List A) → rows_joined (fill more left row xs) ≡ row ++ xs
  unfolding fill
  fill-joined more left row [] = refl
  fill-joined more zero row (x ∷ xs) =
      ap (λ (ys : List A). row ++ ys) (fill-joined more more (x ∷ []) xs)
  fill-joined more (suc left) row (x ∷ xs) =
      fill-joined more left (row ++ (x ∷ [])) xs ∙ append_cons row x xs

  fill-EachFits :
      (more left : ℕ) (row xs : List A)
      → 1 ≤ length row
      → length row + left ≡ suc more
      → EachFits (suc more) (fill more left row xs)
  unfolding fill
  fill-EachFits more left row [] h e = one_row h (omega arith) no_rows
  fill-EachFits more zero row (x ∷ xs) h e =
      one_row h (omega arith) (fill-EachFits more more (x ∷ []) xs (omega arith) (omega arith))
  fill-EachFits more (suc left) row (x ∷ xs) h e =
      fill-EachFits more left (row ++ (x ∷ [])) xs (omega (arith, length-append row (x ∷ []), h))
        (omega (arith, length-append row (x ∷ []), e))

  chunks_lem :
      (size : ℕ) (xs : List A)
      → 1 ≤ size
      → (rows : List (List A)) × (chunks size xs ≡ some rows)
        × (rows_joined rows ≡ xs)
        × EachFits size rows
  unfolding chunks
  chunks_lem zero xs h = absurd (omega (arith, h))
  chunks_lem (suc more) [] h = ([], refl, refl, no_rows)
  chunks_lem (suc more) (x ∷ xs) h = (
    fill more more (x ∷ []) xs,
    refl,
    fill-joined more more (x ∷ []) xs,
    fill-EachFits more more (x ∷ []) xs (omega arith) (omega arith),
  )

  -- A table is cut into rows, however wide its entries and the terminal are: the loop that looks for
  -- the number of entries in a row ends, it finds the greatest number that fits, or one if not even
  -- two do, no row is empty or has more entries, and the rows together hold every entry once, in
  -- their order.
  pub in_rows-Fits :
      (entry max_width : ℕ) (xs : List A)
      → (size : ℕ) × (rows : List (List A)) × (in_rows entry max_width xs ≡ some rows)
        × Fits (row_width entry) max_width size
        × (rows_joined rows ≡ xs)
        × EachFits size rows
  unfolding in_rows
  in_rows-Fits entry max_width xs =
      let (size, e, fits) = chunk_size-Fits (row_width entry) max_width (row_width-grows entry) in
      let (rows, p, joined, each) = chunks_lem size xs fits.0 in
      (size, rows, rw (in_rows, e) p, fits, joined, each)
