-- ===== src/Sld/Reads.antt =====
-- core_sim/src/sld.rs: the words of a scene are handed out in their order, each as what it is.
use cpuex2022_7_simulator.Common.{
  ℕ, zero, suc, ◌+◌, ◌≡◌, arith, refl, true, false, List, [], ◌∷◌, none, some, get_elem?, inl, inr,
  Bool-cases, Option-cases, Outcome, done, fail, abort, length, sym, ◌<◌,
}
use cpuex2022_7_simulator.Ty.{Ty, TypedU32, typed, i32, f32, as_i32, as_f32, ty_eq}
use cpuex2022_7_simulator.Sld.Words.{
  Words, Adds, added, missing, panicked, read_sld-Adds, no_words, int_word, float_word,
}
use cpuex2022_7_simulator.Sld.{
  SldData, SldInfo, SldDataBuilder, ReadError, Scanner, parse_sld, from_sld, TypeError, inw, finw,
  after_read,
}

-- How an access ends: a panic past the end, an error where the word has another type, and else
-- the word, after which the next one is to be read.
pub data Access (ty : Ty) (d : SldData) : Outcome SldData TypeError ℕ → Type 0 where
  past_end : get_elem? d.seq d.read_index ≡ none → Access ty d abort
  other_type :
      (w : TypedU32)
      → get_elem? d.seq d.read_index ≡ some w
      → ty_eq w.ty ty ≡ false
      → Access ty d (fail (record { held = w.ty; index = d.read_index }) d)
  next_word :
      (w : TypedU32)
      → get_elem? d.seq d.read_index ≡ some w
      → ty_eq w.ty ty ≡ true
      → Access ty d (done w.value (record d { read_index = d.read_index + 1 }))

inw-Access : (d : SldData) → Access i32 d (inw d)
unfolding inw as_i32 after_read
inw-Access d = elim (Option-cases (get_elem? d.seq d.read_index)) [
  | inl e ↦ rw (inw, e) (past_end e)
  | inr (w, e) ↦ elim (Bool-cases (ty_eq w.ty i32)) [
    | inl t ↦ rw (inw, e, as_i32, t) (next_word w e t)
    | inr t ↦ rw (inw, e, as_i32, t) (other_type w e t)
  ]
]

finw-Access : (d : SldData) → Access f32 d (finw (λ w. w) d)
unfolding finw as_f32 after_read
finw-Access d = elim (Option-cases (get_elem? d.seq d.read_index)) [
  | inl e ↦ rw (finw, e) (past_end e)
  | inr (w, e) ↦ elim (Bool-cases (ty_eq w.ty f32)) [
    | inl t ↦ rw (finw, e, as_f32, t) (next_word w e t)
    | inr t ↦ rw (finw, e, as_f32, t) (other_type w e t)
  ]
]

-- Reads that succeed, one after the other, and the words that they hand out.
pub data ReadsTo : SldData → List TypedU32 → SldData → Type 0 where
  no_read : (d : SldData) → ReadsTo d [] d
  int_read :
      (d d1 d2 : SldData) (v : ℕ) (ws : List TypedU32)
      → inw d ≡ done v d1
      → ReadsTo d1 ws d2
      → ReadsTo d (typed v i32 ∷ ws) d2
  float_read :
      (d d1 d2 : SldData) (v : ℕ) (ws : List TypedU32)
      → finw (λ w. w) d ≡ done v d1
      → ReadsTo d1 ws d2
      → ReadsTo d (typed v f32 ∷ ws) d2

abbrev pub moved_to : SldData → ℕ → SldData
moved_to d i = record d { read_index = i }

ty_eq-≡ : (a b : Ty) → ty_eq a b ≡ true → a ≡ b
unfolding ty_eq
ty_eq-≡ a b h = ground arith

-- A word that is handed out stands at the index.
access_done :
    (ty : Ty) (d d1 : SldData) (v : ℕ)
    → Access ty d (done v d1)
    → (get_elem? d.seq d.read_index ≡ some (typed v ty))
      × (d1.seq ≡ d.seq)
      × (d1.info ≡ d.info)
      × (d1.read_index ≡ d.read_index + 1)
access_done ty d d1 v (next_word w e t) = (rw (sym (ty_eq-≡ w.ty ty t)) e, refl, refl, refl)

abbrev pub Handed : SldData → List TypedU32 → SldData → Type 0
Handed d ws d' =
    (d'.seq ≡ d.seq)
    × (d'.info ≡ d.info)
    × (d'.read_index ≡ d.read_index + length ws)
    × ((i : ℕ) → i < length ws → get_elem? d.seq (d.read_index + i) ≡ get_elem? ws i)

Handed-no : (d : SldData) → Handed d [] d
Handed-no d = (refl, refl, omega arith, λ i l. absurd (omega (arith, l)))

Handed-step :
    (d d1 d2 : SldData) (w : TypedU32) (ws : List TypedU32)
    → get_elem? d.seq d.read_index ≡ some w
    → (d1.seq ≡ d.seq) × (d1.info ≡ d.info) × (d1.read_index ≡ d.read_index + 1)
    → Handed d1 ws d2
    → Handed d (w ∷ ws) d2
Handed-step d d1 d2 w ws e (s1, i1, r1) (s2, i2, r2, words) = (cc, cc, omega (arith, r1, r2), each)
  where
    each : (i : ℕ) → i < suc (length ws) → get_elem? d.seq (d.read_index + i) ≡ get_elem? (w ∷ ws) i
    each zero l = let stay : d.read_index + 0 ≡ d.read_index = omega arith in rw stay e
    each (suc i) l =
        let next : d.read_index + suc i ≡ d1.read_index + i = omega (arith, r1) in
        rw (next, sym s1) (words i (omega (arith, l)))

-- However the words are read, as integers or as floats: the reads that succeed hand out the words
-- of the scene from the index on, in their order, none of them twice, and they move the index
-- behind them and change nothing else.
pub reads-Handed : (d d' : SldData) (ws : List TypedU32) → ReadsTo d ws d' → Handed d ws d'
reads-Handed d d' ws (no_read _) = Handed-no d
reads-Handed d d' ws (int_read _ d1 _ v rest e r) =
    let (here, s, i, r1) = access_done i32 d d1 v (rw (sym e) (inw-Access d)) in
    Handed-step d d1 d' (typed v i32) rest here (s, i, r1) (reads-Handed d1 d' rest r)
reads-Handed d d' ws (float_read _ d1 _ v rest e r) =
    let (here, s, i, r1) = access_done f32 d d1 v (rw (sym e) (finw-Access d)) in
    Handed-step d d1 d' (typed v f32) rest here (s, i, r1) (reads-Handed d1 d' rest r)

-- The words from the index on.
Remaining : SldData → List TypedU32 → Type 0
Remaining d ws = (i : ℕ) → get_elem? d.seq (d.read_index + i) ≡ get_elem? ws i

Remaining-zero :
    (d : SldData) (w : TypedU32) (ws : List TypedU32)
    → Remaining d (w ∷ ws)
    → get_elem? d.seq d.read_index ≡ some w
unfolding Remaining
Remaining-zero d w ws h = let stay : d.read_index ≡ d.read_index + 0 = omega arith in rw stay (h 0)

Remaining-suc :
    (d : SldData) (w : TypedU32) (ws : List TypedU32)
    → Remaining d (w ∷ ws)
    → Remaining (moved_to d (d.read_index + 1)) ws
unfolding Remaining
Remaining-suc d w ws h i =
    let next : d.read_index + 1 + i ≡ d.read_index + suc i = omega arith in rw next (h (suc i))

inw-next :
    (d : SldData) (v : ℕ)
    → get_elem? d.seq d.read_index ≡ some (typed v i32)
    → inw d ≡ done v (moved_to d (d.read_index + 1))
unfolding inw as_i32 after_read ty_eq
inw-next d v e = rw (inw, e) refl

finw-next :
    (d : SldData) (v : ℕ)
    → get_elem? d.seq d.read_index ≡ some (typed v f32)
    → finw (λ w. w) d ≡ done v (moved_to d (d.read_index + 1))
unfolding finw as_f32 after_read ty_eq
finw-next d v e = rw (finw, e) refl

reads_on :
    (d : SldData) (ws : List TypedU32)
    → Words ws
    → Remaining d ws
    → ReadsTo d ws (moved_to d (d.read_index + length ws))
reads_on d ws no_words h =
    let stay : d.read_index + 0 ≡ d.read_index = omega arith in rw stay (no_read d)
reads_on d ws (int_word v {ws = rest} q) h =
    let next : d.read_index + suc (length rest) ≡ d.read_index + 1 + length rest = omega arith in
    rw next (
      int_read d _ _ v rest (inw-next d v (Remaining-zero d _ rest h))
        (reads_on (moved_to d (d.read_index + 1)) rest q (Remaining-suc d _ rest h)))
reads_on d ws (float_word v {ws = rest} q) h =
    let next : d.read_index + suc (length rest) ≡ d.read_index + 1 + length rest = omega arith in
    rw next (
      float_read d _ _ v rest (finw-next d v (Remaining-zero d _ rest h))
        (reads_on (moved_to d (d.read_index + 1)) rest q (Remaining-suc d _ rest h)))

reads_whole :
    (d : SldData) → d.read_index ≡ 0 → Words d.seq → ReadsTo d d.seq (moved_to d (length d.seq))
unfolding Remaining
reads_whole d start words =
    let last : length d.seq ≡ d.read_index + length d.seq = omega (arith, start) in
    rw last (
      reads_on d d.seq words
        (λ i. let at : d.read_index + i ≡ i = omega (arith, start) in rw at refl))

-- What `parse` makes of an outcome of `from_sld`.
scene :
    {T : Type 0}
    → Outcome (SldDataBuilder T) ReadError SldInfo
    → Outcome (SldDataBuilder T) ReadError SldData
scene o = elim o [
  | done info b ↦ done (record { seq = b.seq; read_index = 0; info = info }) b
  | fail e b ↦ fail e b
  | abort ↦ abort
]

module _ {T N F : Type 0} (scan : Scanner T N F) where
  scene-reads :
      (o : Outcome (SldDataBuilder T) ReadError SldInfo) (d : SldData) (b : SldDataBuilder T)
      → Adds scan o
      → scene o ≡ done d b
      → (d.read_index ≡ 0) × Words d.seq
  unfolding scene
  scene-reads o d b (added {a} {b = b'} w) h =
      let same : record { seq = b'.seq; read_index = 0; info = a } ≡ d = cc in
      rw (sym same) (refl, w)
  scene-reads o d b missing h = absurd cc
  scene-reads o d b panicked h = absurd cc

  -- Every word of a scene that was parsed can be read, each as its own type, to the last one.
  pub scene_is_read :
      (input : T) (d : SldData) (b : SldDataBuilder T)
      → parse_sld scan input ≡ done d b
      → ReadsTo d d.seq (moved_to d (length d.seq))
  unfolding parse_sld from_sld scene
  scene_is_read input d b h =
      let (start, words) =
        scene-reads (from_sld scan (suc (scan.len input)) input) d b
          (read_sld-Adds scan (suc (scan.len input)) _ no_words) h in
      reads_whole d start words
