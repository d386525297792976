-- ===== src/Common/Methods.antt =====
-- `Result<T, E>` of Rust beside a panic, and methods on `&mut self` that return such a result.
use Prim.Native.Nat.{ℕ, zero, suc, ◌<◌}
use mathlib.Core.Path.{◌≡◌, refl}
use native.Mathlib.Omega.{arith}
use mathlib.Core.List.{List, [], ◌∷◌}
use mathlib.Core.Option.{none, some}
use cpuex2022_7_simulator.Common.Lists.{get_elem?, length}

-- A panic unwinds through every `?` and every `match` on a `Result`: it is a case of its own.
pub data Result (E A : Type 0) : Type 0 where
  ok : A → Result E A
  err : E → Result E A
  panic : Result E A

-- What a method leaves behind: its value and the object, its error and the object, or a panic.
pub data Outcome (S E A : Type 0) : Type 0 where
  done : A → S → Outcome S E A
  fail : E → S → Outcome S E A
  abort : Outcome S E A

abbrev pub Exec : Type 0 → Type 0 → Type 0 → Type 0
Exec S E A = S → Outcome S E A

module _ {S E A : Type 0} where
  abbrev pub pure : A → Exec S E A
  pure a s = done a s

  abbrev pub lift : Result E A → Exec S E A
  lift (ok a) s = done a s
  lift (err e) s = fail e s
  lift panic s = abort

abbrev pub gets : {S E A : Type 0} → (S → A) → Exec S E A
gets f s = done (f s) s

abbrev pub modify : {S E : Type 0} → (S → S) → Exec S E (Unit {0})
modify f s = done tt (f s)

module _ {S E A B : Type 0} where
  infixl 5 ◌>>=◌ ◌>>◌
  abbrev pub ◌>>=◌ : Exec S E A → (A → Exec S E B) → Exec S E B
  ◌>>=◌ m f s = elim (m s) [ done a s' ↦ f a s' | fail e s' ↦ fail e s' | abort ↦ abort ]

  abbrev pub ◌>>◌ : Exec S E A → Exec S E B → Exec S E B
  m >> k = m >>= λ _. k

-- `v[i]`, which panics past the end.
abbrev pub index : {S E A : Type 0} → List A → ℕ → Exec S E A
index xs i s = elim (get_elem? xs i) [ none ↦ abort | some a ↦ done a s ]

-- A method of a part of the object.
abbrev pub within : {S T E A : Type 0} → (S → T) → (T → S → S) → Exec T E A → Exec S E A
within part put m s = elim (m (part s)) [
  | done a t ↦ done a (put t s)
  | fail e t ↦ fail e (put t s)
  | abort ↦ abort
]

-- `.unwrap()`, and `?` where the error type changes.
abbrev pub unwrap : {S E D A : Type 0} → Exec S E A → Exec S D A
unwrap m s = elim (m s) [ done a s' ↦ done a s' | fail e s' ↦ abort | abort ↦ abort ]

abbrev pub map_err : {S E D A : Type 0} → (E → D) → Exec S E A → Exec S D A
map_err f m s = elim (m s) [ done a s' ↦ done a s' | fail e s' ↦ fail (f e) s' | abort ↦ abort ]

-- The method does not panic; its value and the object satisfy `Q`, and the object `P` if it fails.
pub data Post {S E A : Type 0} (Q : A → S → Type 0) (P : S → Type 0) : Outcome S E A → Type 0 where
  returns : {a : A} {s : S} → Q a s → Post Q P (done a s)
  fails : {e : E} {s : S} → P s → Post Q P (fail e s)

-- The method does not panic, and leaves an object with `P`, whether it returns or fails.
abbrev pub Leaves : {S E A : Type 0} → (S → Type 0) → Outcome S E A → Type 0
Leaves P (done a s) = P s
Leaves P (fail e s) = P s
Leaves P abort = ⊥

module _ {S E A B : Type 0} {Q : A → S → Type 0} {R : B → S → Type 0} {P : S → Type 0} where
  post_bind :
      (o : Outcome S E A) (k : A → Exec S E B) (s : S)
      → Post Q P o
      → ((a : A) (s' : S) → Q a s' → Post R P (k a s'))
      → Post R P (((λ (_ : S). o) >>= k) s)
  post_bind (done a s') k s (returns q) h = h a s' q
  post_bind (fail e s') k s (fails p) h = fails p
  post_bind abort k s q h = elim q [ ]

  pub Post-bind :
      (m : Exec S E A) (k : A → Exec S E B) (s : S)
      → Post Q P (m s)
      → ((a : A) (s' : S) → Q a s' → Post R P (k a s'))
      → Post R P ((m >>= k) s)
  Post-bind m k s q h = post_bind (m s) k s q h

-- The call that has returned is kept.
pub Post-returned :
    {S E A : Type 0} {Q : A → S → Type 0} {P : S → Type 0} (o : Outcome S E A)
    → Post Q P o
    → Post (λ a s. (o ≡ done a s) × Q a s) P o
Post-returned (done a s) (returns q) = returns (refl, q)
Post-returned (fail e s) (fails p) = fails p
Post-returned abort q = elim q [ ]

module _ {S T E A : Type 0} {Q : A → S → Type 0} {P : S → Type 0} where
  post_within :
      (part : S → T) (put : T → S → S) (s : S) (o : Outcome T E A)
      → Post (λ a t. Q a (put t s)) (λ t. P (put t s)) o
      → Post Q P (within part put (λ (_ : T). o) s)
  post_within part put s (done a t) (returns q) = returns q
  post_within part put s (fail e t) (fails p) = fails p
  post_within part put s abort q = elim q [ ]

  -- A method of a part.
  pub Post-within :
      (part : S → T) (put : T → S → S) (m : Exec T E A) (s : S)
      → Post (λ a t. Q a (put t s)) (λ t. P (put t s)) (m (part s))
      → Post Q P (within part put m s)
  Post-within part put m s q = post_within part put s (m (part s)) q

module _ {S E D A : Type 0} {Q : A → S → Type 0} {P : S → Type 0} where
  post_map_err :
      (f : E → D) (s : S) (o : Outcome S E A) → Post Q P o → Post Q P (map_err f (λ (_ : S). o) s)
  post_map_err f s (done a t) (returns q) = returns q
  post_map_err f s (fail e t) (fails p) = fails p
  post_map_err f s abort q = elim q [ ]

  pub Post-map_err :
      (f : E → D) (m : Exec S E A) (s : S) → Post Q P (m s) → Post Q P (map_err f m s)
  Post-map_err f m s q = post_map_err f s (m s) q

-- A weaker condition.
pub Post-weaken :
    {S E A : Type 0} {Q R : A → S → Type 0} {P P' : S → Type 0} {o : Outcome S E A}
    → Post Q P o
    → ((a : A) (s : S) → Q a s → R a s)
    → ((s : S) → P s → P' s)
    → Post R P' o
Post-weaken (returns {a = a} {s = s} q) h g = returns (h a s q)
Post-weaken (fails {s = s} p) h g = fails (g s p)

pub returned :
    {S E A : Type 0} {Q : A → S → Type 0} {P : S → Type 0} {a : A} {s : S}
    → Post {E = E} Q P (done a s)
    → Q a s
returned (returns q) = q

pub not_aborted : {S E A : Type 0} {Q : A → S → Type 0} {P : S → Type 0} → ¬ Post {E = E} Q P abort
not_aborted q = elim q [ ]

no_index : (i : ℕ) → ¬ (i < 0)
no_index i h = omega (arith, h)

-- An index below the length.
pub index-Post :
    {S E A : Type 0} {P : S → Type 0} (xs : List A) (i : ℕ) (s : S)
    → i < length xs
    → P s
    → Post {E = E} (λ a s'. (get_elem? xs i ≡ some a) × P s') P (index xs i s)
index-Post [] i s h p = elim (no_index i h) [ ]
index-Post (x ∷ xs) zero s h p = returns (refl, p)
index-Post (x ∷ xs) (suc i) s h p = index-Post xs i s (omega (arith, h)) p
