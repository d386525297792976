-- ===== src/Memory/Laws.antt =====
-- Reads of core_sim/src/memory.rs after a write.
use cpuex2022_7_simulator.Common.{
  ℕ, ◌*◌, ◌^◌, ◌<◌, ◌≡◌, ◌≢◌, inr, refl, ◌∙◌, ap, sym, arith, false, Option, none, done, fail,
  length-set, get_or-set_self, get_or-set_ne,
}
use cpuex2022_7_simulator.Float.{Float32}
use cpuex2022_7_simulator.Bytes.Words.{length-put_word, word_at-put_word, word_at-put_word_ne}
use cpuex2022_7_simulator.Ty.{Ty, i32_or_usize, f32, unknown, ty_lt, ty_ge, typed}
use cpuex2022_7_simulator.RegFile.Region.{MemoryRegionStatBuilder}
use cpuex2022_7_simulator.Memory.Watch.{SpyResult, spied_read}
use cpuex2022_7_simulator.Memory.{
  Memory, violate_transmutation, out_of_range, get_i, get_f, set_word, set_f,
}
use cpuex2022_7_simulator.Memory.Access.{
  IsValid, word, type_at, InRange, or_zero, spied_after, after_write, after_read, word_fits,
  type_fits, write_typed_lem, get_i_lem, get_i_refused, get_f_lem, get_f_refused,
}

module _ (size : ℕ) (m : Memory) (v : IsValid size m) (region : MemoryRegionStatBuilder)
    (addr : ℕ) where
  pub after_write-IsValid : (val : ℕ) (ty : Ty) → IsValid size (after_write region addr val ty m)
  after_write-IsValid val ty = record {
    bytes = length-put_word _ _ _ ∙ v.bytes;
    types = omega (arith, length-set {0} m.ty addr ty, v.types);
  }

  pub after_read-IsValid : (ty : Ty) → IsValid size (after_read region addr ty m)
  after_read-IsValid ty = record {
    bytes = v.bytes;
    types = ground (arith, length-set m.ty addr ty, v.types);
  }

  module _ (h : InRange size m addr) where
    pub word-write :
        (val : ℕ) (ty : Ty) → val < 2 ^ 32 → word (after_write region addr val ty m) addr ≡ val
    word-write val ty fits =
        ap or_zero (word_at-put_word m.inner (addr * 4) val (word_fits size m v addr h) fits)

    pub type-write : (val : ℕ) (ty : Ty) → type_at (after_write region addr val ty m) addr ≡ ty
    type-write val ty = get_or-set_self m.ty addr ty unknown (type_fits size m v addr h)

pub word-write_ne :
    (m : Memory) (region : MemoryRegionStatBuilder) (addr other val : ℕ) (ty : Ty)
    → other ≢ addr
    → (word (after_write region addr val ty m) other ≡ word m other)
      × (type_at (after_write region addr val ty m) other ≡ type_at m other)
word-write_ne m region addr other val ty ne = (
  ap or_zero (word_at-put_word_ne m.inner (addr * 4) val (other * 4) (omega arith)),
  get_or-set_ne m.ty addr other ty unknown (λ e. ne (sym e)),
)

InRange-after_write :
    (size : ℕ) (m : Memory) (region : MemoryRegionStatBuilder) (addr val : ℕ) (ty : Ty)
    → InRange size m addr
    → InRange size (after_write region addr val ty m) addr
unfolding out_of_range
InRange-after_write size m region addr val ty h = h

-- Reads of a word that has just been written with some type.
module _ (size : ℕ) (m : Memory) (v : IsValid size m) (region : MemoryRegionStatBuilder) (addr : ℕ)
    (h : InRange size m addr) (val : ℕ) (fits : val < 2 ^ 32) where
  abbrev written : Ty → Memory
  written ty = after_write region addr val ty m

  pub get_i-written :
      get_i size region addr none (written i32_or_usize)
      ≡ done
          (typed val i32_or_usize, spied_read m.spy addr none)
          (after_read region addr i32_or_usize (written i32_or_usize))
  get_i-written =
      let m' = written i32_or_usize in
      let t = type-write size m v region addr h val i32_or_usize in
      let w = word-write size m v region addr h val i32_or_usize fits in
      get_i_lem size m' (after_write-IsValid size m v region addr val i32_or_usize) addr
        (InRange-after_write size m region addr val i32_or_usize h) region none
        (inr (unfold ty_ge in ground (arith, t)))
      ∙ (unfold ty_lt in ground (arith, t, w))

  module _ {F : Type 0} (from_bits : ℕ → F) where
    pub get_f-written :
        get_f size region from_bits addr none (written f32)
        ≡ done
            (from_bits val, spied_read m.spy addr none)
            (after_read region addr f32 (written f32))
    get_f-written =
        let m' = written f32 in
        let t = type-write size m v region addr h val f32 in
        let w = word-write size m v region addr h val f32 fits in
        get_f_lem size m' (after_write-IsValid size m v region addr val f32) addr
          (InRange-after_write size m region addr val f32 h) region none from_bits
          (inr (unfold ty_ge in ground (arith, t)))
        ∙ rw w refl

    pub get_f-clash :
        get_f size region from_bits addr none (written i32_or_usize)
        ≡ fail (violate_transmutation i32_or_usize f32) (written i32_or_usize)
    get_f-clash =
        let t = type-write size m v region addr h val i32_or_usize in
        rw t at (
          get_f_refused size (written i32_or_usize)
            (after_write-IsValid size m v region addr val i32_or_usize) addr
            (InRange-after_write size m region addr val i32_or_usize h) region none from_bits
            (unfold ty_lt ty_ge in ground (arith, t)))

  pub get_i-clash :
      get_i size region addr none (written f32)
      ≡ fail (violate_transmutation f32 i32_or_usize) (written f32)
  get_i-clash =
      let t = type-write size m v region addr h val f32 in
      rw t at (
        get_i_refused size (written f32) (after_write-IsValid size m v region addr val f32) addr
          (InRange-after_write size m region addr val f32 h) region none
          (unfold ty_lt ty_ge in ground (arith, t)))

-- `set` on a memory of consistent sizes, at an address of the memory and outside the instruction
-- memory, writes the word, and `get_i` then reads it back as an integer or an address. Any other
-- word and its type are as they were.
pub get_i-set_word :
    (size : ℕ) (region : MemoryRegionStatBuilder) (m : Memory) (addr val other : ℕ)
    (spied : Option SpyResult)
    → IsValid size m
    → val < 2 ^ 32
    → out_of_range size m addr ≡ false
    → other ≢ addr
    → (m' : Memory) × (set_word size region addr val spied m
        ≡ done (spied_after m addr (typed val i32_or_usize) spied) m')
      × (m'' : Memory) × (get_i size region addr none m'
          ≡ done (typed val i32_or_usize, spied_read m'.spy addr none) m'')
      × (word m' other ≡ word m other)
      × (type_at m' other ≡ type_at m other)
get_i-set_word size region m addr val other spied v fits h ne =
    let m' : Memory = after_write region addr val i32_or_usize m in
    let (same_word, same_type) = word-write_ne m region addr other val i32_or_usize ne in
    (
      m',
      unfold set_word in write_typed_lem size m v addr h region spied val i32_or_usize,
      after_read region addr i32_or_usize m',
      get_i-written size m v region addr h val fits,
      same_word,
      same_type,
    )

-- The memory is typed, at an address of it outside the instruction memory, if its sizes are
-- consistent and the word is a `u32`. A word that `set` has written is refused as a float. A float that `set_f`
-- has written is read back as it was, and refused as an integer or an address.
pub transmutation_refused :
    (fl : Float32) (size : ℕ) (region : MemoryRegionStatBuilder) (m : Memory) (addr val : ℕ)
    (x : Float32.F fl)
    → IsValid size m
    → out_of_range size m addr ≡ false
    → val < 2 ^ 32
    → ((m' : Memory) × (set_word size region addr val none m
          ≡ done (spied_after m addr (typed val i32_or_usize) none) m')
        × (get_f size region (Float32.from_bits fl) addr none m'
            ≡ fail (violate_transmutation i32_or_usize f32) m'))
      × ((m' : Memory) × (set_f size region (Float32.to_bits fl) addr x none m
            ≡ done (spied_after m addr (typed (Float32.to_bits fl x) f32) none) m')
          × (get_i size region addr none m' ≡ fail (violate_transmutation f32 i32_or_usize) m')
          × (m'' : Memory) × (get_f size region (Float32.from_bits fl) addr none m'
              ≡ done (x, spied_read m.spy addr none) m''))
transmutation_refused fl size region m addr val x v h fits = (
  (
    after_write region addr val i32_or_usize m,
    unfold set_word in write_typed_lem size m v addr h region none val i32_or_usize,
    get_f-clash size m v region addr h val fits from_bits,
  ),
  (
    after_write region addr (to_bits x) f32 m,
    unfold set_f in write_typed_lem size m v addr h region none (to_bits x) f32,
    get_i-clash size m v region addr h (to_bits x) (to_bits_lt x),
    after_read region addr f32 (after_write region addr (to_bits x) f32 m),
    rw (from_bits-to_bits x) at
        (get_f-written size m v region addr h (to_bits x) (to_bits_lt x) from_bits),
  ),
)
  where
    open fl use {from_bits, to_bits, to_bits_lt, from_bits-to_bits}
