-- ===== src/Common/Maps.antt =====
-- `HashMap` of the standard library with numbers as keys: an association list, in which an entry
-- hides the later ones of its key.
use Prim.Native.Nat.{ℕ}
use mathlib.Core.Path.{◌≡◌, refl, ◌∙◌}
use mathlib.Core.Logic.{inl, inr, ◌≢◌}
use mathlib.Core.List.{List, [], ◌∷◌}
use mathlib.Core.Option.{Option, none, some}
use native.Mathlib.Omega.{arith}
use cpuex2022_7_simulator.Common.Tests.{Bool-cases, ◌==◌, if◌then◌else◌}

abbrev pub Map : Type 0 → Type 0
Map V = List (ℕ × V)

module _ {V : Type 0} where
  unfoldable pub lookup : ℕ → Map V → Option V
  lookup k [] = none
  lookup k ((j, v) ∷ rest) = if j == k then some v else lookup k rest

  unfoldable pub delete : ℕ → Map V → Map V
  delete k [] = []
  delete k ((j, v) ∷ rest) = let tail = delete k rest in if j == k then tail else (j, v) ∷ tail

  unfoldable pub insert : ℕ → V → Map V → Map V
  unfolding delete
  insert k v m = (k, v) ∷ delete k m

  pub lookup-delete_self : (k : ℕ) (m : Map V) → lookup k (delete k m) ≡ none
  unfolding lookup delete
  lookup-delete_self k [] = refl
  lookup-delete_self k ((j, v) ∷ rest) = ground (arith, lookup-delete_self k rest)

  pub lookup-delete_ne : (j k : ℕ) (m : Map V) → j ≢ k → lookup k (delete j m) ≡ lookup k m
  unfolding lookup delete
  lookup-delete_ne j k [] h = refl
  lookup-delete_ne j k ((i, v) ∷ rest) h = ground (arith, lookup-delete_ne j k rest h)

  pub lookup-insert_self : (k : ℕ) (v : V) (m : Map V) → lookup k (insert k v m) ≡ some v
  unfolding lookup insert
  lookup-insert_self k v m = ground arith

  pub lookup-insert_ne :
      (j k : ℕ) (v : V) (m : Map V) → j ≢ k → lookup k (insert j v m) ≡ lookup k m
  unfolding lookup insert
  lookup-insert_ne j k v m h = ground (arith, lookup-delete_ne j k m h)

  -- A key that the map has.
  abbrev pub Has : ℕ → Map V → Type 0
  Has k m = (v : V) × (lookup k m ≡ some v)

  pub Has-insert : (j k : ℕ) (v : V) (m : Map V) → Has k m → Has k (insert j v m)
  Has-insert j k v m (w, e) = elim (Bool-cases (j == k)) [
    | inl same ↦ let eq : j ≡ k = ground arith in (v, rw (← eq) (lookup-insert_self j v m))
    | inr other ↦ (w, lookup-insert_ne j k v m (ground arith) ∙ e)
  ]
