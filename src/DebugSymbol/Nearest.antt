-- ===== src/DebugSymbol/Nearest.antt =====
-- The look-ups by address of core_sim/src/debug_symbol.rs on a sorted table.
use cpuex2022_7_simulator.Common.{
  ◌⊎◌, ℕ, zero, suc, ◌≤◌, ◌<◌, ◌≡◌, ◌≢◌, refl, arith, List, [], ◌∷◌, ltb, Bool-cases, Option-cases,
  lt→ltb, inl, inr, some, none, get_elem?, length, Result, ok, err, panic,
}
use cpuex2022_7_simulator.DebugSymbol.{
  SymbolDefRaw, DebugSymbol, SymbolError, not_provided, no_information, Found, found, missing,
  nearest_missing, get_nearest_symbol_addr,
}
use cpuex2022_7_simulator.DebugSymbol.Sorted.{IsSorted, IsSorted-low, none_left, next}

-- What the documentation of `binary_search_by_key` says of its answer on a sorted table: the place
-- of an entry with the key, or the place at which one can be put in.
pub data IsPlace (xs : List SymbolDefRaw) (addr : ℕ) : Found → Type 0 where
  at :
      (i : ℕ) (d : SymbolDefRaw)
      → get_elem? xs i ≡ some d
      → d.addr ≡ addr
      → IsPlace xs addr (found i)
  between :
      (i : ℕ)
      → i ≤ length xs
      → ((j : ℕ) (d : SymbolDefRaw) → j < i → get_elem? xs j ≡ some d → d.addr < addr)
      → ((j : ℕ) (d : SymbolDefRaw) → i ≤ j → get_elem? xs j ≡ some d → addr < d.addr)
      → IsPlace xs addr (missing i)

abbrev pub Searches : (List SymbolDefRaw → ℕ → Found) → Type 0
Searches find = (xs : List SymbolDefRaw) (addr : ℕ) → IsSorted 0 xs → IsPlace xs addr (find xs addr)

-- Every label satisfies `P`.
abbrev pub Every : (ℕ → Type 0) → List SymbolDefRaw → Type 0
Every P xs = (j : ℕ) (d : SymbolDefRaw) → get_elem? xs j ≡ some d → P d.addr

-- The answers to the question for the nearest symbol.
pub data Nearest (xs : List SymbolDefRaw) (addr : ℕ) : Result SymbolError ℕ → Type 0 where
  -- the last of the labels that are not above the address
  last_below :
      (i : ℕ) (d : SymbolDefRaw)
      → get_elem? xs i ≡ some d
      → d.addr ≤ addr
      → Every (λ a. a ≤ d.addr ⊎ (addr < a)) xs
      → Nearest xs addr (ok i)
  all_above : Every (λ a. addr < a) xs → Nearest xs addr (err (no_information addr))
  no_table : xs ≡ [] → Nearest xs addr (err not_provided)
  all_below : xs ≢ [] → Every (λ a. a < addr) xs → Nearest xs addr panic

in_order :
    {low : ℕ} {xs : List SymbolDefRaw}
    → IsSorted low xs
    → (i j : ℕ) (d e : SymbolDefRaw) → i ≤ j
    → get_elem? xs i ≡ some d
    → get_elem? xs j ≡ some e
    → d.addr ≤ e.addr
in_order (none_left _) i j d e h p q = ground arith
in_order (next low x rest g s) zero zero d e h p q = ground arith
in_order (next low x rest g s) zero (suc j) d e h p q = ground (arith, IsSorted-low s j e q)
in_order (next low x rest g s) (suc i) zero d e h p q = absurd (omega arith)
in_order (next low x rest g s) (suc i) (suc j) d e h p q = in_order s i j d e (omega arith) p q

past_end :
    (xs : List SymbolDefRaw) (i j : ℕ) (d : SymbolDefRaw)
    → get_elem? xs i ≡ none
    → get_elem? xs j ≡ some d
    → j < i
past_end [] i j d p q = ground arith
past_end (x ∷ xs) zero j d p q = ground arith
past_end (x ∷ xs) (suc i) zero d p q = omega arith
past_end (x ∷ xs) (suc i) (suc j) d p q = omega (arith, past_end xs i j d p q)

within_length :
    (xs : List SymbolDefRaw) (i : ℕ)
    → suc i ≤ length xs
    → (d : SymbolDefRaw) × (get_elem? xs i ≡ some d)
within_length [] i h = absurd (omega arith)
within_length (x ∷ xs) zero h = (x, refl)
within_length (x ∷ xs) (suc i) h = within_length xs i (omega arith)

not_empty : (xs : List SymbolDefRaw) (i : ℕ) → suc i ≤ length xs → xs ≢ []
not_empty [] i h = absurd (omega arith)
not_empty (x ∷ xs) i h = λ e. cc

le_or_gt : (a b : ℕ) → (a ≤ b) ⊎ (b < a)
le_or_gt a b = elim (Bool-cases (ltb b a)) [
  | inl h ↦ inr (ground arith)
  | inr h ↦ inl (ground arith)
]

missing-Nearest :
    (x : SymbolDefRaw) (rest : List SymbolDefRaw) (addr i : ℕ)
    → IsSorted 0 (x ∷ rest)
    → i ≤ length (x ∷ rest)
    → ((j : ℕ) (d : SymbolDefRaw) → j < i → get_elem? (x ∷ rest) j ≡ some d → d.addr < addr)
    → ((j : ℕ) (d : SymbolDefRaw) → i ≤ j → get_elem? (x ∷ rest) j ≡ some d → addr < d.addr)
    → Nearest (x ∷ rest) addr (nearest_missing (x ∷ rest) addr i)
unfolding nearest_missing
missing-Nearest x rest addr zero s h below above =
    rw (lt→ltb addr x.addr (above 0 x (omega arith) refl))
      (all_above (λ j d e. above j d (omega arith) e))
missing-Nearest x rest addr (suc i) s h below above =
    elim (Option-cases (get_elem? (x ∷ rest) (suc i))) [
      | inl e ↦
          rw (nearest_missing, e)
            (all_below (not_empty (x ∷ rest) i h)
              (λ j d p. below j d (past_end (x ∷ rest) (suc i) j d e p) p))
      | inr (d, e) ↦
          let (last, p) = within_length (x ∷ rest) i h in
          rw (nearest_missing, e, lt→ltb addr d.addr (above (suc i) d (omega arith) e))
            (last_below i last p (omega (arith, below i last (omega arith) p)) (λ j d' q.
              elim (le_or_gt j i) [
                | inl le ↦ inl (in_order s j i d' last le q p)
                | inr gt ↦ inr (above j d' (omega arith) q)
              ]))
    ]

-- On a sorted table, and with a search that does what its documentation says, the nearest symbol is
-- the last whose address is not above the one asked for. The answer is an error if every label is
-- above it or if there is no label, and a panic if there are labels and every one is below.
pub get_nearest_symbol_addr_lem :
    (find : List SymbolDefRaw → ℕ → Found) (ds : DebugSymbol) (addr : ℕ)
    → Searches find
    → IsSorted 0 ds.sorted
    → Nearest ds.sorted addr (get_nearest_symbol_addr find addr ds)
unfolding get_nearest_symbol_addr
get_nearest_symbol_addr_lem find ds addr docs s = answer ds.sorted s
  where
    by_place :
        (x : SymbolDefRaw) (rest : List SymbolDefRaw)
        → IsSorted 0 (x ∷ rest)
        → (f : Found) → IsPlace (x ∷ rest) addr f
        → Nearest (x ∷ rest) addr (elim f [
          | found index ↦ ok index
          | missing index ↦ nearest_missing (x ∷ rest) addr index
        ])
    by_place x rest s (found i) (at _ d e same) =
        last_below i d e (omega arith) (λ j d' q. elim (le_or_gt d'.addr d.addr) [
          | inl le ↦ inl le
          | inr gt ↦ inr (omega arith)
        ])
    by_place x rest s (missing i) (between _ h below above) =
        missing-Nearest x rest addr i s h below above

    answer :
        (xs : List SymbolDefRaw)
        → IsSorted 0 xs
        → Nearest xs addr (get_nearest_symbol_addr find addr (record ds { sorted = xs }))
    answer [] s = no_table refl
    answer (x ∷ rest) s = by_place x rest s (find (x ∷ rest) addr) (docs (x ∷ rest) addr s)
