-- ===== src/Bytes/Words.antt =====
-- Reading words back after a word has been written.
use cpuex2022_7_simulator.Common.{
  ℕ, ◌+◌, ◌*◌, ◌≤◌, ◌<◌, ◌^◌, ◌≡◌, ◌⊎◌, refl, ap, zero, suc, [], ◌∷◌, ◌∙◌, arith, List, [], ◌∷◌,
  zero, suc, ap, some, get_elem?, length, length-set, get_elem?-set_self, get_elem?-set_ne,
}
use cpuex2022_7_simulator.Bytes.{word_at, byte_of, put_word}

pub length-put_word : (bytes : List ℕ) (i v : ℕ) → length (put_word bytes i v) ≡ length bytes
unfolding put_word
length-put_word bytes i v =
    length-set _ _ _ ∙ length-set _ _ _ ∙ length-set _ _ _ ∙ length-set _ _ _

-- A byte outside the word that is written stays.
pub get_elem?-put_word :
    (bytes : List ℕ) (i v j : ℕ)
    → (j < i) ⊎ (i + 4 ≤ j)
    → get_elem? (put_word bytes i v) j ≡ get_elem? bytes j
unfolding put_word
get_elem?-put_word bytes i v j apart =
    get_elem?-set_ne _ {i = i + 3} {j = j} _ (omega arith)
    ∙ get_elem?-set_ne _ {i = i + 2} {j = j} _ (omega arith)
    ∙ get_elem?-set_ne _ {i = i + 1} {j = j} _ (omega arith)
    ∙ get_elem?-set_ne _ {i = i} {j = j} _ (omega arith)

-- The four bytes of the word that is written.
module _ (bytes : List ℕ) (i v : ℕ) (fits : i + 4 ≤ length bytes) where
  byte_0 : get_elem? (put_word bytes i v) i ≡ some (byte_of v 0)
  unfolding put_word
  byte_0 =
      get_elem?-set_ne _ {i = i + 3} {j = i} _ (omega arith)
      ∙ get_elem?-set_ne _ {i = i + 2} {j = i} _ (omega arith)
      ∙ get_elem?-set_ne _ {i = i + 1} {j = i} _ (omega arith)
      ∙ get_elem?-set_self bytes i _ (omega arith)

  byte_1 : get_elem? (put_word bytes i v) (i + 1) ≡ some (byte_of v 1)
  unfolding put_word
  byte_1 =
      get_elem?-set_ne _ {i = i + 3} {j = i + 1} _ (omega arith)
      ∙ get_elem?-set_ne _ {i = i + 2} {j = i + 1} _ (omega arith)
      ∙ get_elem?-set_self _ (i + 1) _ (rw length-set (omega arith))

  byte_2 : get_elem? (put_word bytes i v) (i + 2) ≡ some (byte_of v 2)
  unfolding put_word
  byte_2 =
      get_elem?-set_ne _ {i = i + 3} {j = i + 2} _ (omega arith)
      ∙ get_elem?-set_self _ (i + 2) _ (rw (length-set, length-set) (omega arith))

  byte_3 : get_elem? (put_word bytes i v) (i + 3) ≡ some (byte_of v 3)
  unfolding put_word
  byte_3 = get_elem?-set_self _ (i + 3) _ (rw (length-set, length-set, length-set) (omega arith))

-- The word that is written is read back.
pub word_at-put_word :
    (bytes : List ℕ) (i v : ℕ)
    → i + 4 ≤ length bytes
    → v < 2 ^ 32
    → word_at (put_word bytes i v) i ≡ some v
unfolding word_at byte_of
word_at-put_word bytes i v fits word =
    rw (byte_0 bytes i v fits, byte_1 bytes i v fits, byte_2 bytes i v fits, byte_3 bytes i v fits)
      (ap some (omega arith))

-- A word apart from it is not touched.
pub word_at-put_word_ne :
    (bytes : List ℕ) (i v j : ℕ)
    → (j + 4 ≤ i) ⊎ (i + 4 ≤ j)
    → word_at (put_word bytes i v) j ≡ word_at bytes j
unfolding word_at
word_at-put_word_ne bytes i v j apart =
    rw
      (
        get_elem?-put_word bytes i v j (omega arith),
        get_elem?-put_word bytes i v (j + 1) (omega arith),
        get_elem?-put_word bytes i v (j + 2) (omega arith),
        get_elem?-put_word bytes i v (j + 3) (omega arith),
      )
      refl

get_elem?_total :
    (bytes : List ℕ) (i : ℕ) → i < length bytes → (b : ℕ) × (get_elem? bytes i ≡ some b)
get_elem?_total [] i h = absurd (omega arith)
get_elem?_total (b ∷ bytes) zero h = (b, refl)
get_elem?_total (b ∷ bytes) (suc i) h = get_elem?_total bytes i (omega arith)

-- A slice inside the vector is read.
pub word_at_total :
    (bytes : List ℕ) (i : ℕ) → i + 4 ≤ length bytes → (v : ℕ) × (word_at bytes i ≡ some v)
unfolding word_at
word_at_total bytes i fits =
    let (a, p) = get_elem?_total bytes i (omega arith) in
    let (b, q) = get_elem?_total bytes (i + 1) (omega arith) in
    let (c, r) = get_elem?_total bytes (i + 2) (omega arith) in
    let (d, s) = get_elem?_total bytes (i + 3) (omega arith) in
    (a + b * 2 ^ 8 + c * 2 ^ 16 + d * 2 ^ 24, rw (p, q, r, s) refl)
