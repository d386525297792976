-- ===== src/Ppm.antt =====
-- core_sim/src/ppm.rs: the image that a program puts out byte by byte, and its header.
-- The parsers of the library nom are a parameter.
pub mod Header
use cpuex2022_7_simulator.Common.{ℕ, List, [], ◌∷◌, ◌++◌, Option, none, some, Outcome, done, Exec}

-- `?` on the results of parsers
infixl 5 ◌>>=◌
abbrev pub ◌>>=◌ : {A B : Type 0} → Option A → (A → Option B) → Option B
◌>>=◌ none f = none
◌>>=◌ (some a) f = f a

pub record PpmDataV6 : Type 0 where
  pub inner : List ℕ

pub record PpmHeaderInfo : Type 0 where
  pub width : ℕ
  pub height : ℕ
  pub color : ℕ

-- `tag(b"P6")`, `multispace1` and `u32`, with the bytes that are left.
pub record HeaderScanner : Type 0 where
  pub tag_p6 : List ℕ → Option (List ℕ)
  pub multispace1 : List ℕ → Option (List ℕ)
  pub number : List ℕ → Option (List ℕ × ℕ)

abbrev pub new : PpmDataV6
new = record { inner = [] }

abbrev pub into_inner : PpmDataV6 → List ℕ
into_inner d = d.inner

unfoldable pub outb : {E : Type 0} → ℕ → Exec PpmDataV6 E (Unit {0})
outb c d = done tt (record { inner = d.inner ++ (c ∷ []) })

-- a number and the white space behind it
unfoldable pub number_space : HeaderScanner → List ℕ → Option (List ℕ × ℕ)
number_space scan input = do
  (input1, n) ← scan.number input
  input2 ← scan.multispace1 input1
  some (input2, n)

unfoldable pub parse_ppmv6_header : HeaderScanner → List ℕ → Option (List ℕ × PpmHeaderInfo)
unfolding number_space
parse_ppmv6_header scan input = do
  input1 ← scan.tag_p6 input
  input2 ← scan.multispace1 input1
  (input3, width) ← number_space scan input2
  (input4, height) ← number_space scan input3
  (input5, color) ← number_space scan input4
  some (input5, record { width = width; height = height; color = color })

unfoldable pub verify_header : HeaderScanner → PpmDataV6 → Option PpmHeaderInfo
unfolding parse_ppmv6_header
verify_header scan d = elim (parse_ppmv6_header scan d.inner) [
  | none ↦ none
  | some (rest, info) ↦ some info
]
