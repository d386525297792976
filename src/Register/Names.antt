-- ===== src/Register/Names.antt =====
-- The names of the registers of core_sim/src/register.rs: printing and looking them up.
use Prim.Native.String.{String}
use cpuex2022_7_simulator.Common.{
  text_eq, ℕ, suc, ◌<◌, ◌≡◌, refl, arith, Bool, true, false, List, [], ◌∷◌, Option, none, some,
  get_elem?, ◌==◌, if◌then◌else◌, inl, inr, Option-cases, for_below, for_below-lt,
}
use cpuex2022_7_simulator.Register.{RegId, FRegId, max_reg_id}

unfoldable pub abiname_table : List String
abiname_table =
    "zero" ∷ "ra" ∷ "sp" ∷ "gp" ∷ "hp" ∷ "t0" ∷ "t1" ∷ "t2" ∷ "s0" ∷ "s1" ∷ "a0" ∷ "a1" ∷ "a2"
    ∷ "a3" ∷ "a4" ∷ "a5" ∷ "a6" ∷ "a7" ∷ "s2" ∷ "s3" ∷ "s4" ∷ "s5" ∷ "s6" ∷ "s7" ∷ "s8" ∷ "s9"
    ∷ "s10" ∷ "s11" ∷ "t3" ∷ "t4" ∷ "t5" ∷ "t6" ∷ []

unfoldable pub f_abiname_table : List String
f_abiname_table =
    "fzero" ∷ "fone" ∷ "ft2" ∷ "ft3" ∷ "ft4" ∷ "ft5" ∷ "ft6" ∷ "ft7" ∷ "fs0" ∷ "fs1" ∷ "fa0" ∷ "fa1"
    ∷ "fa2" ∷ "fa3" ∷ "fa4" ∷ "fa5" ∷ "fa6" ∷ "fa7" ∷ "fs2" ∷ "fs3" ∷ "fs4" ∷ "fs5" ∷ "fs6" ∷ "fs7"
    ∷ "fs8" ∷ "fs9" ∷ "fs10" ∷ "fs11" ∷ "ft8" ∷ "ft9" ∷ "ft10" ∷ "ft11" ∷ []

-- The index past the table panics: `none`.
unfoldable pub display : RegId → Option String
unfolding abiname_table
display id = get_elem? abiname_table id

unfoldable pub display_f : FRegId → Option String
unfolding f_abiname_table
display_f id = get_elem? f_abiname_table id

-- A `HashMap` that is collected from the names in their order: the last entry of a name counts.
unfoldable pub look_up : String → ℕ → List String → Option ℕ
look_up name i [] = none
look_up name i (n ∷ rest) = elim (look_up name (suc i) rest) [
  | some j ↦ some j
  | none ↦ if text_eq n name then some i else none
]

-- `TryFrom<&str>`
unfoldable pub of_name : String → Option RegId
unfolding abiname_table look_up
of_name name = look_up name 0 abiname_table

unfoldable pub of_name_f : String → Option FRegId
unfolding f_abiname_table look_up
of_name_f name = look_up name 0 f_abiname_table

abbrev is_at : ℕ → Option ℕ → Bool
is_at id none = false
is_at id (some j) = j == id

abbrev back : (ℕ → Option String) → (String → Option ℕ) → ℕ → Bool
back print read id = elim (print id) [ none ↦ false | some n ↦ is_at id (read n) ]

all_back : for_below max_reg_id (back display of_name) ≡ true
unfolding for_below display of_name
all_back = refl

all_back_f : for_below max_reg_id (back display_f of_name_f) ≡ true
unfolding for_below display_f of_name_f
all_back_f = refl

back_lem :
    (print : ℕ → Option String) (read : String → Option ℕ) (id : ℕ)
    → back print read id ≡ true
    → (n : String) × (print id ≡ some n) × (read n ≡ some id)
back_lem print read id h = elim (Option-cases (print id)) [
  | inl e ↦ absurd (no_name e)
  | inr (n, e) ↦ (n, e, named n e)
]
  where
    no_name : print id ≡ none → ⊥
    no_name e = ground (arith, e, h)

    named : (n : String) → print id ≡ some n → read n ≡ some id
    named n e = ground (arith, e, h)

-- Every register, integer or float, is printed as a name, and that name is read back as it.
pub of_name-display :
    (id : ℕ)
    → id < max_reg_id
    → ((n : String) × (display id ≡ some n) × (of_name n ≡ some id))
      × ((n : String) × (display_f id ≡ some n) × (of_name_f n ≡ some id))
of_name-display id h = (
  back_lem display of_name id (for_below-lt max_reg_id (back display of_name) id all_back h),
  back_lem display_f of_name_f id
      (for_below-lt max_reg_id (back display_f of_name_f) id all_back_f h),
)
