-- ===== src/Memory/Access.antt =====
-- Reads and writes of core_sim/src/memory.rs on a memory of consistent sizes.
use cpuex2022_7_simulator.Common.{
  lookup, ℕ, ◌+◌, ◌*◌, ◌≤◌, ◌<◌, ◌≡◌, ◌⊎◌, inl, inr, Option-cases, unwrap, refl, arith, true, false,
  Option, none, some, done, fail, set, length, get_elem?, get_or, get_elem?-eq-get_or, ◌>>=◌,
  if◌then◌else◌, leb,
}
use cpuex2022_7_simulator.Bytes.{word_at, put_word}
use cpuex2022_7_simulator.Bytes.Words.{word_at_total}
use cpuex2022_7_simulator.Ty.{Ty, i32_or_usize, f32, unknown, ty_lt, ty_ge, TypedU32, typed}
use cpuex2022_7_simulator.RegFile.Region.{MemoryRegionStatBuilder, get_region}
use cpuex2022_7_simulator.Memory.Watch.{
  SpyResult, stat_on_write, stat_on_read, spied_read, spied_write,
}
use cpuex2022_7_simulator.Memory.{
  Memory, MemoryAccessError, violate_transmutation, out_of_range, bounds_check, unify, on_read,
  on_write, get_raw_addr, get, get_i, get_f, write_typed, spied_before, reset_type, store_word,
}

-- The byte vector has the memory's size, a whole number of words, with a type for each word.
pub record IsValid (size : ℕ) (m : Memory) : Type 0 where
  pub bytes : length m.inner ≡ size
  pub types : length m.ty * 4 ≡ size

abbrev pub or_zero : Option ℕ → ℕ
or_zero none = 0
or_zero (some v) = v

-- The word at a word address, and the type that it carries.
abbrev pub word : Memory → ℕ → ℕ
word m addr = or_zero (word_at m.inner (addr * 4))

abbrev pub type_at : Memory → ℕ → Ty
type_at m addr = get_or m.ty addr unknown

abbrev pub InRange : ℕ → Memory → ℕ → Type 0
InRange size m addr = out_of_range size m addr ≡ false

-- What a write leaves in `*spied`.
pub spied_after : Memory → ℕ → TypedU32 → Option SpyResult → Option SpyResult
spied_after m addr val spied = elim (lookup addr m.spy.writes) [
  | none ↦ spied
  | some u ↦ some (spied_write u (typed (word m addr) (type_at m addr)) val)
]

-- The memory after a read, whose type is narrowed to `ty`, and after a write.
abbrev pub after_read : MemoryRegionStatBuilder → ℕ → Ty → Memory → Memory
after_read region addr ty m = record m {
  ty = if ty_lt (type_at m addr) ty then set m.ty addr ty else m.ty;
  stat_mem = stat_on_read (get_region addr region) m.stat_mem;
}

abbrev pub after_write : MemoryRegionStatBuilder → ℕ → ℕ → Ty → Memory → Memory
after_write region addr val ty m = record m {
  inner = put_word m.inner (addr * 4) val;
  stat_mem = stat_on_write (get_region addr region) m.stat_mem;
  ty = set m.ty addr ty;
}

-- Two types of which one is at least as precise as the other, and the more precise of them.
abbrev pub Comparable : Ty → Ty → Type 0
Comparable held asked = (ty_lt held asked ≡ true) ⊎ (ty_ge held asked ≡ true)

abbrev pub narrowed : Ty → Ty → Ty
narrowed held asked = if ty_lt held asked then asked else held

some-or_zero : (o : Option ℕ) (v : ℕ) → o ≡ some v → o ≡ some (or_zero o)
some-or_zero none v e = cc
some-or_zero (some w) v e = refl

module _ (size : ℕ) (m : Memory) (v : IsValid size m) (addr : ℕ) (h : InRange size m addr) where
  below_size : addr * 4 < size
  below_size = unfold out_of_range in ground (arith, h)

  pub word_fits : addr * 4 + 4 ≤ length m.inner
  word_fits = omega (arith, below_size, v.bytes, v.types)

  pub type_fits : addr < length m.ty
  type_fits = omega (arith, below_size, v.types)

  pub word_lem : word_at m.inner (addr * 4) ≡ some (word m addr)
  word_lem =
      let (w, e) = word_at_total m.inner (addr * 4) word_fits in
      some-or_zero (word_at m.inner (addr * 4)) w e

  pub type_lem : get_elem? m.ty addr ≡ some (type_at m addr)
  type_lem = get_elem?-eq-get_or m.ty addr unknown type_fits

  bounds_ok : bounds_check size addr m ≡ done tt m
  unfolding bounds_check
  bounds_ok = rw h refl

  unify_ok :
      (asked : Ty)
      → Comparable (type_at m addr) asked
      → unify addr asked m
        ≡ done
            (narrowed (type_at m addr) asked)
            (record m { ty = if ty_lt (type_at m addr) asked then set m.ty addr asked else m.ty })
  unfolding unify
  unify_ok asked fits = ground (arith, type_lem, fits)

  unify_clash :
      (asked : Ty)
      → ¬ Comparable (type_at m addr) asked
      → unify addr asked m ≡ fail (violate_transmutation (type_at m addr) asked) m
  unfolding unify
  unify_clash asked clash = ground (arith, type_lem, clash)

  unknown_least : ty_ge (type_at m addr) unknown ≡ true
  unfolding ty_ge
  unknown_least = ground arith

  none_below : ty_lt (type_at m addr) unknown ≡ false
  unfolding ty_lt
  none_below = ground arith

  module _ (region : MemoryRegionStatBuilder) (spied : Option SpyResult) where
    pub get_lem :
        get size region addr spied m
        ≡ done
            (typed (word m addr) (type_at m addr), spied_read m.spy addr spied)
            (after_read region addr unknown m)
    unfolding get on_read get_raw_addr
    get_lem =
        rw (◌>>=◌, bounds_ok, unwrap, unify_ok unknown (inr unknown_least), word_lem)
          (ground (arith, none_below))

    pub get_i_lem :
        Comparable (type_at m addr) i32_or_usize
        → get_i size region addr spied m
          ≡ done
              (
                typed (word m addr) (narrowed (type_at m addr) i32_or_usize),
                spied_read m.spy addr spied,
              )
              (after_read region addr i32_or_usize m)
    unfolding get_i on_read get_raw_addr
    get_i_lem fits = rw (◌>>=◌, bounds_ok, unify_ok i32_or_usize fits, word_lem) refl

    pub get_i_refused :
        ¬ Comparable (type_at m addr) i32_or_usize
        → get_i size region addr spied m
          ≡ fail (violate_transmutation (type_at m addr) i32_or_usize) m
    unfolding get_i
    get_i_refused clash = rw (◌>>=◌, bounds_ok, unify_clash i32_or_usize clash) refl

    module _ {F : Type 0} (from_bits : ℕ → F) where
      pub get_f_lem :
          Comparable (type_at m addr) f32
          → get_f size region from_bits addr spied m
            ≡ done
                (from_bits (word m addr), spied_read m.spy addr spied)
                (after_read region addr f32 m)
      unfolding get_f on_read get_raw_addr
      get_f_lem fits = rw (◌>>=◌, bounds_ok, unify_ok f32 fits, word_lem) refl

      pub get_f_refused :
          ¬ Comparable (type_at m addr) f32
          → get_f size region from_bits addr spied m
            ≡ fail (violate_transmutation (type_at m addr) f32) m
      unfolding get_f
      get_f_refused clash = rw (◌>>=◌, bounds_ok, unify_clash f32 clash) refl

    on_write_lem :
        (val : TypedU32)
        → on_write {E = MemoryAccessError} region addr val spied m
          ≡ done
              (spied_after m addr val spied)
              (record m { stat_mem = stat_on_write (get_region addr region) m.stat_mem })
    unfolding on_write spied_before get_raw_addr spied_after
    on_write_lem val = elim (Option-cases (lookup addr m.spy.writes)) [
      | inl e ↦ rw (e, on_write, spied_after) refl
      | inr (u, e) ↦ rw (e, on_write, spied_after, ◌>>=◌, word_lem, type_lem) refl
    ]

    fits_test : leb (addr * 4 + 4) (length m.inner) ≡ true
    fits_test = ground (arith, word_fits)

    pub write_typed_lem :
        (val : ℕ) (ty : Ty)
        → write_typed size region addr val ty spied m
          ≡ done (spied_after m addr (typed val ty) spied) (after_write region addr val ty m)
    unfolding write_typed reset_type store_word
    write_typed_lem val ty =
        rw (◌>>=◌, bounds_ok, on_write_lem (typed val ty), type_lem, fits_test) refl
