-- ===== src/Ty/Order.antt =====
-- The precision order of core_sim/src/ty.rs.
use Prim.Native.Nat.{Ordering}
use mathlib.Core.Option
use cpuex2022_7_simulator.Common.{◌≡◌, ◌↔◌, true, false, not, ◌&&◌, some, arith}
use cpuex2022_7_simulator.Ty.{Ty, unknown, partial_cmp, ty_lt, ty_ge}

abbrev pub flip : Ordering → Ordering
flip Ordering.lt = Ordering.gt
flip Ordering.eq = Ordering.eq
flip Ordering.gt = Ordering.lt

partial_cmp-eq : (a b : Ty) → (partial_cmp a b ≡ some Ordering.eq) ↔ (a ≡ b)
unfolding partial_cmp
partial_cmp-eq a b = ground arith

partial_cmp-flip : (a b : Ty) → partial_cmp b a ≡ Option.map flip (partial_cmp a b)
unfolding partial_cmp
partial_cmp-flip a b = ground arith

lt_trans : (a b c : Ty) → ty_lt a b && ty_lt b c && not (ty_lt a c) ≡ false
unfolding ty_lt
lt_trans a b c = ground arith

-- `partial_cmp` is a partial order on the run-time types: it answers `Equal` for equal types and
-- no others, swapping its arguments swaps its answer, `<` is transitive, and `Unknown` is below
-- every other type.
pub partial_cmp_order :
    (a b c : Ty)
    → ((partial_cmp a b ≡ some Ordering.eq) ↔ (a ≡ b))
      × (partial_cmp b a ≡ Option.map flip (partial_cmp a b))
      × (ty_lt a b && ty_lt b c && not (ty_lt a c) ≡ false)
      × (ty_ge a unknown ≡ true)
partial_cmp_order a b c =
    (partial_cmp-eq a b, partial_cmp-flip a b, lt_trans a b c, unfold ty_ge in ground arith)
