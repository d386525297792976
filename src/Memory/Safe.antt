-- ===== src/Memory/Safe.antt =====
-- Reads and writes of core_sim/src/memory.rs at any address.
use cpuex2022_7_simulator.Common.{
  ℕ, ◌≡◌, ◌⊎◌, inl, inr, arith, refl, ap, ◌∙◌, Option, Outcome, done, fail, abort, ◌>>=◌,
  Bool-cases, Post, returns, fails,
}
use cpuex2022_7_simulator.Ty.{Ty, i32_or_usize, f32, ty_lt, ty_ge, TypedU32}
use cpuex2022_7_simulator.RegFile.Region.{MemoryRegionStatBuilder}
use cpuex2022_7_simulator.Memory.Watch.{SpyResult}
use cpuex2022_7_simulator.Memory.{
  Memory, out_of_range, bounds_check, get_i, get_f, write_typed, set_word, set_f, get_from_pc,
}
use cpuex2022_7_simulator.Memory.Access.{
  IsValid, InRange, Comparable, type_at, after_write, after_read, write_typed_lem, get_i_lem,
  get_i_refused, get_f_lem, get_f_refused,
}
use cpuex2022_7_simulator.Memory.Laws.{after_write-IsValid, after_read-IsValid}
use cpuex2022_7_simulator.Memory.Protect.{
  IsAligned, SameText, after_read-SameText, after_write-SameText, at_state,
}

-- Consistent sizes, an aligned instruction memory, and the instructions of `text` in it.
pub record IsSound (size : ℕ) (text m : Memory) : Type 0 where
  pub valid : IsValid size m
  pub aligned : IsAligned m
  pub same_text : SameText text m

at_state_twice :
    {S E A : Type 0} (s t : S) (o : Outcome S E A) → at_state s (at_state t o) ≡ at_state s o
at_state_twice s t (done a _) = refl
at_state_twice s t (fail e _) = refl
at_state_twice s t abort = refl

SameText-trans : (a b c : Memory) → SameText a b → SameText b c → SameText a c
SameText-trans a b c h g pc p =
    g pc p ∙ (ap (at_state c) (h pc p) ∙ at_state_twice c b (get_from_pc pc a))

Comparable-dec : (held asked : Ty) → Comparable held asked ⊎ (¬ Comparable held asked)
Comparable-dec held asked = elim (Bool-cases (ty_lt held asked)) [
  | inl less ↦ inl (inl less)
  | inr not_less ↦ elim (Bool-cases (ty_ge held asked)) [
    | inl at_least ↦ inl (inr at_least)
    | inr not_at_least ↦ inr (λ h. ground (arith, h, not_less, not_at_least))
  ]
]

module _ (size : ℕ) (text m : Memory) (s : IsSound size text m) (region : MemoryRegionStatBuilder)
    (addr : ℕ) (spied : Option SpyResult) where
  write-IsSound :
      (val : ℕ) (ty : Ty)
      → InRange size m addr
      → IsSound size text (after_write region addr val ty m)
  write-IsSound val ty h = record {
    valid = after_write-IsValid size m s.valid region addr val ty;
    aligned = record {
      start_aligned = s.aligned.start_aligned;
      end_aligned = s.aligned.end_aligned;
    };
    same_text =
        SameText-trans text m _ s.same_text
          (after_write-SameText size region m addr val ty s.aligned h);
  }

  pub read-IsSound : (ty : Ty) → IsSound size text (after_read region addr ty m)
  read-IsSound ty = record {
    valid = after_read-IsValid size m s.valid region addr ty;
    aligned = record {
      start_aligned = s.aligned.start_aligned;
      end_aligned = s.aligned.end_aligned;
    };
    same_text = SameText-trans text m _ s.same_text (after_read-SameText region m addr ty);
  }

  write_typed-Post :
      (val : ℕ) (ty : Ty)
      → Post
          (λ (_ : Option SpyResult). IsSound size text)
          (IsSound size text)
          (write_typed size region addr val ty spied m)
  write_typed-Post val ty = elim (Bool-cases (out_of_range size m addr)) [
    | inl out ↦ unfold write_typed bounds_check in rw (◌>>=◌, out) (fails s)
    | inr h ↦
        rw (write_typed_lem size m s.valid addr h region spied val ty)
          (returns (write-IsSound val ty h))
  ]

  pub set_word-Post :
      (val : ℕ)
      → Post
          (λ (_ : Option SpyResult). IsSound size text)
          (IsSound size text)
          (set_word size region addr val spied m)
  unfolding set_word
  set_word-Post val = write_typed-Post val i32_or_usize

  pub get_i-Post :
      Post
        (λ (_ : TypedU32 × Option SpyResult). IsSound size text)
        (IsSound size text)
        (get_i size region addr spied m)
  get_i-Post = elim (Bool-cases (out_of_range size m addr)) [
    | inl out ↦ unfold get_i bounds_check in rw (◌>>=◌, out) (fails s)
    | inr h ↦ elim (Comparable-dec (type_at m addr) i32_or_usize) [
      | inl fits ↦
          rw (get_i_lem size m s.valid addr h region spied fits)
            (returns (read-IsSound i32_or_usize))
      | inr clash ↦ rw (get_i_refused size m s.valid addr h region spied clash) (fails s)
    ]
  ]

  module _ {F : Type 0} where
    pub set_f-Post :
        (to_bits : F → ℕ) (val : F)
        → Post
            (λ (_ : Option SpyResult). IsSound size text)
            (IsSound size text)
            (set_f size region to_bits addr val spied m)
    unfolding set_f
    set_f-Post to_bits val = write_typed-Post (to_bits val) f32

    pub get_f-Post :
        (from_bits : ℕ → F)
        → Post
            (λ (_ : F × Option SpyResult). IsSound size text)
            (IsSound size text)
            (get_f size region from_bits addr spied m)
    get_f-Post from_bits = elim (Bool-cases (out_of_range size m addr)) [
      | inl out ↦ unfold get_f bounds_check in rw (◌>>=◌, out) (fails s)
      | inr h ↦ elim (Comparable-dec (type_at m addr) f32) [
        | inl fits ↦
            rw (get_f_lem size m s.valid addr h region spied from_bits fits)
              (returns (read-IsSound f32))
        | inr clash ↦
            rw (get_f_refused size m s.valid addr h region spied from_bits clash) (fails s)
      ]
    ]
