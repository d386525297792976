-- ===== src/Sld/Words.antt =====
-- The words that core_sim/src/sld.rs reads from a scene are integers and floats.
use cpuex2022_7_simulator.Common.{
  ℕ, zero, suc, ◌+◌, true, false, List, [], ◌∷◌, ◌++◌, Option, none, some, ◌==◌, inl, inr,
  Bool-cases, Option-cases, Outcome, done, fail, abort, ◌>>=◌,
}
use cpuex2022_7_simulator.Ty.{TypedU32, typed, i32, f32}
use cpuex2022_7_simulator.Sld.{
  Scanner, ReadError, SldDataBuilder, minus_one, push_int, push_float, push_parsed, read_int,
  read_float, read_vec3, read_sld_env, read_rotation, read_object, read_objects, read_row,
  read_and_net, read_or_net, read_sld, Read,
}

pub data Words : List TypedU32 → Type 0 where
  no_words : Words []
  int_word : (v : ℕ) {ws : List TypedU32} → Words ws → Words (typed v i32 ∷ ws)
  float_word : (v : ℕ) {ws : List TypedU32} → Words ws → Words (typed v f32 ∷ ws)

Words-push :
    (ws : List TypedU32) (w : TypedU32) → Words ws → Words (w ∷ []) → Words (ws ++ (w ∷ []))
Words-push ws w no_words q = q
Words-push ws w (int_word v r) q = int_word v (Words-push _ w r q)
Words-push ws w (float_word v r) q = float_word v (Words-push _ w r q)

module _ {T N F : Type 0} (scan : Scanner T N F) where
  -- Words are added to words; an error and a panic leave nothing.
  pub data Adds {A : Type 0} : Outcome (SldDataBuilder T) ReadError A → Type 0 where
    added : {a : A} {b : SldDataBuilder T} → Words b.seq → Adds (done a b)
    missing : {e : ReadError} {b : SldDataBuilder T} → Adds (fail e b)
    panicked : Adds abort

  abbrev pub AddsWords : {A : Type 0} → Read scan A → Type 0
  AddsWords m = (b : SldDataBuilder T) → Words b.seq → Adds (m b)

  Adds-bind :
      {A B : Type 0} (o : Outcome (SldDataBuilder T) ReadError A) (f : A → Read scan B)
      (b : SldDataBuilder T)
      → Adds o
      → ((a : A) → AddsWords (f a))
      → Adds (((λ (_ : SldDataBuilder T). o) >>= f) b)
  Adds-bind (done a b') f b (added w) h = h a b' w
  Adds-bind (fail e b') f b q h = missing
  Adds-bind abort f b q h = panicked

  AddsWords-bind :
      {A B : Type 0} {m : Read scan A} {f : A → Read scan B}
      → AddsWords m
      → ((a : A) → AddsWords (f a))
      → AddsWords (m >>= f)
  AddsWords-bind {m} {f} h g b w = Adds-bind (m b) f b (h b w) g

  -- the end of a loop at -1
  Adds-loop :
      {A : Type 0} (id : ℕ) (a : A) (next : Read scan A) (b : SldDataBuilder T)
      → Words b.seq
      → Adds (next b)
      → Adds (elim (id == minus_one) [ true ↦ done a b | false ↦ next b ])
  Adds-loop id a next b w h = elim (Bool-cases (id == minus_one)) [
    | inl e ↦ rw e (added w)
    | inr e ↦ rw e h
  ]

  read_int-Adds : AddsWords (read_int scan)
  unfolding read_int push_int
  read_int-Adds b w = elim (Option-cases (scan.int (scan.multispace0 b.rest))) [
    | inl e ↦ rw (read_int, e) missing
    | inr ((rest, v), e) ↦
        rw (read_int, e) (added (Words-push b.seq (typed v i32) w (int_word v no_words)))
  ]

  push_parsed-Adds : (rest : T) (x : Option F) → AddsWords (push_parsed scan rest x)
  unfolding push_parsed push_float
  push_parsed-Adds rest none b w = panicked
  push_parsed-Adds rest (some v) b w =
      added (Words-push b.seq (typed (scan.to_bits v) f32) w (float_word _ no_words))

  read_float-Adds : AddsWords (read_float scan)
  unfolding read_float
  read_float-Adds b w = elim (Option-cases (scan.recognize_float (scan.multispace0 b.rest))) [
    | inl e ↦ rw (read_float, e) missing
    | inr ((rest, text), e) ↦ rw (read_float, e) (push_parsed-Adds rest (scan.parse text) b w)
  ]

  read_vec3-Adds : AddsWords (read_vec3 scan)
  unfolding read_vec3
  read_vec3-Adds = let f = read_float-Adds in AddsWords-bind f (λ _. AddsWords-bind f (λ _. f))

  read_sld_env-Adds : AddsWords (read_sld_env scan)
  unfolding read_sld_env
  read_sld_env-Adds =
      let f = read_float-Adds in
      AddsWords-bind read_vec3-Adds (λ _. AddsWords-bind f (λ _. AddsWords-bind f (λ _.
        AddsWords-bind read_int-Adds (λ _. AddsWords-bind f (λ _. AddsWords-bind f (λ _. f))))))

  read_rotation-Adds : (is_rot : ℕ) → AddsWords (read_rotation scan is_rot)
  unfolding read_rotation
  read_rotation-Adds is_rot b w = elim (Bool-cases (is_rot == 0)) [
    | inl e ↦ rw e (added w)
    | inr e ↦ rw e (read_vec3-Adds b w)
  ]

  read_object-Adds : AddsWords (read_object scan)
  unfolding read_object
  read_object-Adds =
      let f = read_float-Adds in
      let v = read_vec3-Adds in
      let i = read_int-Adds in
      AddsWords-bind i (λ _. AddsWords-bind i (λ _. AddsWords-bind i (λ is_rot.
        AddsWords-bind v (λ _. AddsWords-bind v (λ _. AddsWords-bind f (λ _.
          AddsWords-bind f
            (λ _. AddsWords-bind f (λ _. AddsWords-bind v (λ _. read_rotation-Adds is_rot)))))))))

  read_objects-Adds : (fuel index : ℕ) → AddsWords (read_objects scan fuel index)
  unfolding read_objects
  read_objects-Adds zero index b w = missing
  read_objects-Adds (suc fuel) index b w =
      Adds-bind (read_int scan b) _ b (read_int-Adds b w) (λ id b1 w1.
        Adds-loop id index (read_object scan >>= λ _. read_objects scan fuel (index + 1)) b1 w1
          (AddsWords-bind read_object-Adds (λ _. read_objects-Adds fuel (index + 1)) b1 w1))

  read_row-Adds : (fuel : ℕ) → AddsWords (read_row scan fuel)
  unfolding read_row
  read_row-Adds zero b w = missing
  read_row-Adds (suc fuel) b w =
      Adds-bind (read_int scan b) _ b (read_int-Adds b w)
        (λ id b1 w1. Adds-loop id tt (read_row scan fuel) b1 w1 (read_row-Adds fuel b1 w1))

  read_and_net-Adds : (fuel : ℕ) → AddsWords (read_and_net scan fuel)
  unfolding read_and_net
  read_and_net-Adds zero b w = missing
  read_and_net-Adds (suc fuel) b w =
      Adds-bind (read_int scan b) _ b (read_int-Adds b w) (λ id b1 w1.
        Adds-loop id tt (read_row scan fuel >>= λ _. read_and_net scan fuel) b1 w1
          (AddsWords-bind (read_row-Adds fuel) (λ _. read_and_net-Adds fuel) b1 w1))

  pub read_sld-Adds : (fuel : ℕ) → AddsWords (read_sld scan fuel)
  unfolding read_sld read_or_net
  read_sld-Adds fuel = AddsWords-bind read_sld_env-Adds (λ _.
      AddsWords-bind (read_objects-Adds fuel 0) (λ _.
        AddsWords-bind (read_and_net-Adds fuel)
          (λ _. AddsWords-bind (read_and_net-Adds fuel) (λ _ b w. added w))))
