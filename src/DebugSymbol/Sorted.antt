-- ===== src/DebugSymbol/Sorted.antt =====
-- The order of the label table of core_sim/src/debug_symbol.rs.
use mathlib.Core.List.Perm
use cpuex2022_7_simulator.Common.{
  ℕ, ◌≤◌, zero, suc, ◌≡◌, arith, List, [], ◌∷◌, ◌++◌, leb, Bool-cases, inl, inr, Perm, some,
  get_elem?,
}
use cpuex2022_7_simulator.DebugSymbol.{SymbolDefRaw, DebugSymbol, insert_by_addr, sort, merge}

-- No address is below `low`, and none is below one before it.
pub data IsSorted : ℕ → List SymbolDefRaw → Type 0 where
  none_left : (low : ℕ) → IsSorted low []
  next :
      (low : ℕ) (d : SymbolDefRaw) (rest : List SymbolDefRaw)
      → low ≤ d.addr
      → IsSorted d.addr rest
      → IsSorted low (d ∷ rest)

IsSorted-weaken :
    (low low' : ℕ) (xs : List SymbolDefRaw) → low' ≤ low → IsSorted low xs → IsSorted low' xs
IsSorted-weaken low low' [] h s = none_left low'
IsSorted-weaken low low' (d ∷ rest) h (next _ _ _ g s) = next low' d rest (omega arith) s

insert_by_addr-IsSorted :
    (low : ℕ) (d : SymbolDefRaw) (xs : List SymbolDefRaw)
    → low ≤ d.addr
    → IsSorted low xs
    → IsSorted low (insert_by_addr d xs)
unfolding insert_by_addr
insert_by_addr-IsSorted low d [] h s = next low d [] h (none_left d.addr)
insert_by_addr-IsSorted low d (e ∷ rest) h (next _ _ _ g s) =
    elim (Bool-cases (leb d.addr e.addr)) [
      | inl le ↦ rw le (next low d (e ∷ rest) h (next d.addr e rest (ground arith) s))
      | inr gt ↦ rw gt (
          next low e (insert_by_addr d rest) g
            (insert_by_addr-IsSorted e.addr d rest (ground arith) s))
    ]

insert_by_addr-perm :
    (d : SymbolDefRaw) (xs : List SymbolDefRaw) → Perm (insert_by_addr d xs) (d ∷ xs)
unfolding insert_by_addr
insert_by_addr-perm d [] = Perm.refl _
insert_by_addr-perm d (e ∷ rest) = elim (Bool-cases (leb d.addr e.addr)) [
  | inl le ↦ rw le (Perm.refl _)
  | inr gt ↦ rw gt (Perm.trans (Perm.cons e (insert_by_addr-perm d rest)) (Perm.swap d e rest))
]

sort-IsSorted : (xs : List SymbolDefRaw) → IsSorted 0 (sort xs)
unfolding sort
sort-IsSorted [] = none_left 0
sort-IsSorted (d ∷ ds) = insert_by_addr-IsSorted 0 d (sort ds) (omega arith) (sort-IsSorted ds)

sort-perm : (xs : List SymbolDefRaw) → Perm (sort xs) xs
unfolding sort
sort-perm [] = Perm.refl _
sort-perm (d ∷ ds) = Perm.trans (insert_by_addr-perm d (sort ds)) (Perm.cons d (sort-perm ds))

-- After a merge the label table is sorted by address, whether or not the tables were, and it holds
-- the labels of both.
pub merge-IsSorted :
    (ds other : DebugSymbol)
    → IsSorted 0 (merge ds other).sorted × Perm (merge ds other).sorted (ds.sorted ++ other.sorted)
unfolding merge
merge-IsSorted ds other =
    (sort-IsSorted (ds.sorted ++ other.sorted), sort-perm (ds.sorted ++ other.sorted))

-- A label is at or above those before it.
pub IsSorted-low :
    {low : ℕ} {xs : List SymbolDefRaw}
    → IsSorted low xs
    → (i : ℕ) (d : SymbolDefRaw) → get_elem? xs i ≡ some d
    → low ≤ d.addr
IsSorted-low (none_left _) i d e = ground arith
IsSorted-low (next low x rest g s) zero d e = ground arith
IsSorted-low (next low x rest g s) (suc i) d e = omega (arith, IsSorted-low s i d e)
