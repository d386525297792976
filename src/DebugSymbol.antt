-- ===== src/DebugSymbol.antt =====
-- core_sim/src/debug_symbol.rs: the table of labels by address and the global names. The table is
-- deserialized by the library serde, whose result is where this begins.
pub mod Sorted
pub mod Nearest
use Prim.Native.String.{String}
use cpuex2022_7_simulator.Common.{
  text_eq, zero, suc, ℕ, ◌+◌, ◌≤◌, ◌<◌, ◌≡◌, Bool, true, false, List, [], ◌∷◌, ◌++◌, map, Option,
  none, some, ◌&&◌, length, get_elem?, leb, ltb, ◌==◌, if◌then◌else◌, Result, ok, err, panic,
  wrapping_sub,
}

pub record SymbolDefRaw : Type 0 where
  pub addr : ℕ
  pub label : String

-- a `HashMap` with texts as keys: an entry hides the later ones of its key
abbrev pub Globals : Type 0
Globals = List (String × SymbolDefRaw)

pub record DebugSymbol : Type 0 where
  pub globals : Globals
  pub sorted : List SymbolDefRaw

-- `DebugSymbol::default()`
abbrev pub no_symbols : DebugSymbol
no_symbols = record { globals = []; sorted = [] }

-- the fields of the deserialized file
pub record DebugSymbolRaw : Type 0 where
  pub globals : List SymbolDefRaw
  pub labels : List SymbolDefRaw

-- the errors, by their messages
pub data SymbolError : Type 0 where
  not_provided : SymbolError
  no_information : ℕ → SymbolError
  not_available : SymbolError

unfoldable pub get_global : String → DebugSymbol → Option SymbolDefRaw
get_global k ds = find ds.globals
  where
    find : Globals → Option SymbolDefRaw
    find [] = none
    find ((j, d) ∷ rest) = if text_eq j k then some d else find rest

no_entry : {A : Type 0} → List A → Bool
no_entry [] = true
no_entry (x ∷ xs) = false

unfoldable pub is_empty : DebugSymbol → Bool
unfolding no_entry
is_empty ds = no_entry ds.globals && no_entry ds.sorted

-- `sort_by_key` of the standard library, a stable sort
unfoldable pub insert_by_addr : SymbolDefRaw → List SymbolDefRaw → List SymbolDefRaw
insert_by_addr d [] = d ∷ []
insert_by_addr d (e ∷ rest) =
    let further = insert_by_addr d rest in if leb d.addr e.addr then d ∷ e ∷ rest else e ∷ further

unfoldable pub sort : List SymbolDefRaw → List SymbolDefRaw
unfolding insert_by_addr
sort [] = []
sort (d ∷ ds) = insert_by_addr d (sort ds)

-- Both tables are extended: an entry of `other` takes the place of one with its key.
unfoldable pub merge : DebugSymbol → DebugSymbol → DebugSymbol
unfolding sort
merge ds other = record {
  globals = other.globals ++ ds.globals;
  sorted = sort (ds.sorted ++ other.sorted);
}

-- what `deser` makes of the file
unfoldable pub of_raw : DebugSymbolRaw → DebugSymbol
of_raw raw = record { sorted = raw.labels; globals = collect raw.globals [] }
  where
    collect : List SymbolDefRaw → Globals → Globals
    collect [] acc = acc
    collect (d ∷ ds) acc = collect ds ((d.label, d) ∷ acc)

-- What `binary_search_by_key` answers: `Ok(index)` or `Err(index)`.
pub data Found : Type 0 where
  found : ℕ → Found
  missing : ℕ → Found

-- The symbol by which an address that is no symbol's is named.
unfoldable pub nearest_missing : List SymbolDefRaw → ℕ → ℕ → Result SymbolError ℕ
nearest_missing xs addr zero = elim (get_elem? xs zero) [
  | none ↦ panic
  | some d ↦ if ltb addr d.addr then err (no_information addr) else ok zero
]
nearest_missing xs addr (suc index) = elim (get_elem? xs (suc index)) [
  | none ↦ panic
  | some d ↦ if ltb addr d.addr then ok index else ok (suc index)
]

-- The search of the standard library is a parameter.
module _ (look_for : List SymbolDefRaw → ℕ → Found) where
  unfoldable pub get_nearest_symbol_addr : ℕ → DebugSymbol → Result SymbolError ℕ
  unfolding no_entry nearest_missing
  get_nearest_symbol_addr addr ds =
      if no_entry ds.sorted then err not_provided else elim (look_for ds.sorted addr) [
        | found index ↦ ok index
        | missing index ↦ nearest_missing ds.sorted addr index
      ]

  unfoldable pub get_exact_symbol_addr : ℕ → DebugSymbol → Result SymbolError ℕ
  unfolding no_entry
  get_exact_symbol_addr addr ds =
      if no_entry ds.sorted
      then err not_provided
      else elim (look_for ds.sorted addr) [ found index ↦ ok index | missing _ ↦ err not_available ]

pub record SymbolDef : Type 0 where
  pub raw : SymbolDefRaw
  pub size : Option ℕ

-- the length of the code from a symbol up to the next
unfoldable pub size_before : SymbolDefRaw → Option SymbolDefRaw → Option ℕ
size_before raw none = none
size_before raw (some next) = some (wrapping_sub next.addr raw.addr)

-- An index past the end panics.
unfoldable pub get_symbol : {E : Type 0} → ℕ → DebugSymbol → Result E SymbolDef
unfolding size_before
get_symbol index ds = elim (get_elem? ds.sorted index) [
  | none ↦ panic
  | some raw ↦ ok (record { raw = raw; size = size_before raw (get_elem? ds.sorted (index + 1)) })
]
