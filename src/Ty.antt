-- ===== src/Ty.antt =====
-- core_sim/src/ty.rs: the types that memory words carry at run time, and how precise they are.
pub mod Order
use Prim.Native.Nat.{Ordering}
use cpuex2022_7_simulator.Common.{ℕ, Bool, true, false, Option, none, some, ◌==◌, if◌then◌else◌}

pub data Ty : Type 0 where
  i32 usize i32_or_usize f32 unknown : Ty

-- the discriminant of `#[repr(u8)]`, by which the derived `==` compares
unfoldable pub discriminant : Ty → ℕ
discriminant i32 = 0
discriminant usize = 1
discriminant i32_or_usize = 2
discriminant f32 = 3
discriminant unknown = 4

unfoldable pub ty_eq : Ty → Ty → Bool
unfolding discriminant
ty_eq a b = discriminant a == discriminant b

-- the arms of the `match` below its guard
compare_distinct : Ty → Ty → Option Ordering
compare_distinct i32 i32_or_usize = some Ordering.gt
compare_distinct usize i32_or_usize = some Ordering.gt
compare_distinct i32_or_usize i32 = some Ordering.lt
compare_distinct i32_or_usize usize = some Ordering.lt
compare_distinct _ unknown = some Ordering.gt
compare_distinct unknown _ = some Ordering.lt
compare_distinct _ _ = none

unfoldable pub partial_cmp : Ty → Ty → Option Ordering
unfolding ty_eq compare_distinct
partial_cmp a b = if ty_eq a b then some Ordering.eq else compare_distinct a b

-- `<` and `>=` as Rust derives them from `partial_cmp`
is_less : Option Ordering → Bool
is_less (some Ordering.lt) = true
is_less _ = false

is_greater_or_equal : Option Ordering → Bool
is_greater_or_equal (some Ordering.gt) = true
is_greater_or_equal (some Ordering.eq) = true
is_greater_or_equal _ = false

unfoldable pub ty_lt : Ty → Ty → Bool
unfolding is_less partial_cmp
ty_lt a b = is_less (partial_cmp a b)

unfoldable pub ty_ge : Ty → Ty → Bool
unfolding is_greater_or_equal partial_cmp
ty_ge a b = is_greater_or_equal (partial_cmp a b)

-- The value of a typed word is its bit pattern.
pub record TypedU32 : Type 0 where
  pub ty : Ty
  pub value : ℕ

abbrev pub typed : ℕ → Ty → TypedU32
typed value ty = record { ty = ty; value = value }

-- An `i32` is handed on as its bit pattern.
unfoldable pub as_i : TypedU32 → Option ℕ
unfolding ty_ge
as_i w = if ty_ge w.ty i32_or_usize then some w.value else none

unfoldable pub as_i32 : TypedU32 → Option ℕ
unfolding ty_eq
as_i32 w = if ty_eq w.ty i32 then some w.value else none

-- `from_bits` is `f32::from_bits`.
unfoldable pub as_f32 : {F : Type 0} → (ℕ → F) → TypedU32 → Option F
unfolding ty_eq
as_f32 from_bits w = if ty_eq w.ty f32 then some (from_bits w.value) else none
