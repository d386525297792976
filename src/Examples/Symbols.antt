-- ===== src/Examples/Symbols.antt =====
-- Label tables and registers on which the theorems apply.
use Prim.Native.String.{String}
use Prim.Native.Nat.{ℕ, zero, suc}
use cpuex2022_7_simulator.Common.{
  ◌≤◌, ◌<◌, ◌+◌, ◌≡◌, Perm, refl, arith, true, List, [], ◌∷◌, some, get_elem?, ltb, if◌then◌else◌,
  Bool-cases, inl, inr, ok, panic,
}
use cpuex2022_7_simulator.Register.Names.{display, display_f, of_name, of_name_f, of_name-display}
use cpuex2022_7_simulator.Sim.Disassemble.{window_of}
use cpuex2022_7_simulator.Sim.Windows.{window_of_lem}
use cpuex2022_7_simulator.DebugSymbol.{
  SymbolDefRaw, DebugSymbol, no_symbols, Found, found, missing, merge, get_nearest_symbol_addr,
}
use cpuex2022_7_simulator.DebugSymbol.Sorted.{
  IsSorted, none_left, next, merge-IsSorted, IsSorted-low,
}
use cpuex2022_7_simulator.DebugSymbol.Nearest.{
  IsPlace, at, between, Searches, Nearest, get_nearest_symbol_addr_lem,
}

-- A search from the front.
search_from : ℕ → List SymbolDefRaw → ℕ → Found
search_from i [] addr = missing i
search_from i (d ∷ rest) addr =
    let further = search_from (suc i) rest addr in
    if ltb d.addr addr then further else if ltb addr d.addr then missing i else found i

from_front : List SymbolDefRaw → ℕ → Found
from_front xs addr = search_from 0 xs addr

abbrev IsPlaceFrom : ℕ → List SymbolDefRaw → ℕ → Found → Type 0
IsPlaceFrom i xs addr (found j) = (k : ℕ) × (j ≡ i + k) × IsPlace xs addr (found k)
IsPlaceFrom i xs addr (missing j) = (k : ℕ) × (j ≡ i + k) × IsPlace xs addr (missing k)

zero_plus : (k : ℕ) → 0 + k ≡ k
zero_plus k = omega arith

place_later :
    (i : ℕ) (x : SymbolDefRaw) (rest : List SymbolDefRaw) (addr : ℕ) (f : Found)
    → x.addr < addr
    → IsPlaceFrom (suc i) rest addr f
    → IsPlaceFrom i (x ∷ rest) addr f
place_later i x rest addr (found j) h (k, e, at _ d p q) = (suc k, ground arith, at (suc k) d p q)
place_later i x rest addr (missing j) h (k, e, between _ l below above) = (
  suc k,
  ground arith,
  between (suc k) (ground arith) (λ where_ d m p. before where_ d m p)
      (λ where_ d m p. after where_ d m p),
)
  where
    before :
        (j : ℕ) (d : SymbolDefRaw) → j < suc k → get_elem? (x ∷ rest) j ≡ some d → d.addr < addr
    before zero d m p = ground arith
    before (suc j) d m p = below j d (ground arith) p

    after : (j : ℕ) (d : SymbolDefRaw) → suc k ≤ j → get_elem? (x ∷ rest) j ≡ some d → addr < d.addr
    after zero d m p = absurd (ground arith)
    after (suc j) d m p = above j d (ground arith) p

search_from_lem :
    (low i : ℕ) (xs : List SymbolDefRaw) (addr : ℕ)
    → IsSorted low xs
    → IsPlaceFrom i xs addr (search_from i xs addr)
unfolding search_from
search_from_lem low i [] addr s = (
  0,
  ground arith,
  between 0 (ground arith) (λ j d m p. absurd (ground arith)) (λ j d m p. ground arith),
)
search_from_lem low i (x ∷ rest) addr (next _ _ _ g s) = elim (Bool-cases (ltb x.addr addr)) [
  | inl lt ↦
      rw lt
        (place_later i x rest addr _ (ground arith) (search_from_lem x.addr (suc i) rest addr s))
  | inr ge ↦ elim (Bool-cases (ltb addr x.addr)) [
    | inl gt ↦
        rw (ge, gt)
          (
            0,
            ground arith,
            between 0 (ground arith) (λ j d m p. absurd (ground arith))
                (λ j d m p. IsSorted-low (next (suc addr) x rest (ground arith) s) j d p),
          )
    | inr le ↦ rw (ge, le) (0, ground arith, at 0 x refl (ground arith))
  ]
]

IsPlace-from :
    (xs : List SymbolDefRaw) (addr : ℕ) (f : Found) → IsPlaceFrom 0 xs addr f → IsPlace xs addr f
IsPlace-from xs addr (found j) (k, e, p) = rw (e, zero_plus k) p
IsPlace-from xs addr (missing j) (k, e, p) = rw (e, zero_plus k) p

from_front-Searches : Searches from_front
unfolding from_front
from_front-Searches xs addr s = IsPlace-from xs addr _ (search_from_lem 0 0 xs addr s)

abbrev main_def : SymbolDefRaw
main_def = record { addr = 8; label = "main" }

abbrev loop_def : SymbolDefRaw
loop_def = record { addr = 24; label = "loop" }

abbrev symbols : DebugSymbol
symbols = record no_symbols { sorted = main_def ∷ loop_def ∷ [] }

merge-IsSorted_example :
    IsSorted 0 (merge symbols symbols).sorted
    × Perm (merge symbols symbols).sorted (main_def ∷ loop_def ∷ main_def ∷ loop_def ∷ [])
merge-IsSorted_example = merge-IsSorted symbols symbols

get_nearest_symbol_addr_lem_example :
    Nearest symbols.sorted 20 (get_nearest_symbol_addr from_front 20 symbols)
get_nearest_symbol_addr_lem_example =
    get_nearest_symbol_addr_lem from_front symbols 20 from_front-Searches
      (next 0 main_def _ (omega arith) (next 8 loop_def [] (omega arith) (none_left 24)))

-- The address lies in the code of `main`, and another one behind the last label.
nearest_to_20 : get_nearest_symbol_addr from_front 20 symbols ≡ ok 0
unfolding get_nearest_symbol_addr from_front search_from
nearest_to_20 = refl

nearest_to_28 : get_nearest_symbol_addr from_front 28 symbols ≡ panic
unfolding get_nearest_symbol_addr from_front search_from
nearest_to_28 = refl

-- Forty bytes of code are folded round their middle.
window_of_lem_example :
    let w = window_of true 8 100 (some 80) 140 in
    (w.begin ≤ 140)
    × (140 < w.begin + w.len)
    × (100 ≤ w.begin)
    × (w.begin + w.len ≤ 180)
    × (w.len ≤ 20)
    × (w.omitted_head ≡ ltb 100 w.begin)
    × (w.omitted_tail ≡ ltb (w.begin + w.len) 180)
window_of_lem_example =
    window_of_lem true 8 100 80 140 (omega arith) (omega arith) (omega arith) (omega arith)

of_name-display_example :
    ((n : String) × (display 31 ≡ some n) × (of_name n ≡ some 31))
    × ((n : String) × (display_f 31 ≡ some n) × (of_name_f n ≡ some 31))
of_name-display_example = of_name-display 31 (omega arith)
