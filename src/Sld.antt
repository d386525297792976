-- ===== src/Sld.antt =====
-- core_sim/src/sld.rs: a scene that is read from its text, and handed to the program word by word.
-- The parsers of the library nom are a parameter, and so is `str::parse` for `f32`.
pub mod Ends
pub mod Reads
pub mod Words
use cpuex2022_7_simulator.Common.{
  ℕ, zero, suc, ◌+◌, ◌^◌, ◌-◌, ◌<◌, ◌≤◌, ◌≡◌, Bool, true, false, List, [], ◌∷◌, ◌++◌, Option, none,
  some, ◌==◌, if◌then◌else◌, get_elem?, Exec, Outcome, done, fail, abort, ◌>>=◌, ◌>>◌, pure,
}
use cpuex2022_7_simulator.Ty.{Ty, i32, f32, TypedU32, typed, as_i32, as_f32}

-- `multispace0`, `i32` (as its bit pattern) and `recognize_float`, each with the text that is left,
-- and the value of a text that `recognize_float` has recognized. `len` is the length of a text.
pub record Scanner (T N F : Type 0) : Type 0 where
  pub len : T → ℕ
  pub multispace0 : T → T
  pub int : T → Option (T × ℕ)
  pub recognize_float : T → Option (T × N)
  pub parse : N → Option F
  pub to_bits : F → ℕ

-- What nom documents: no parser gives back more than it got, those of numbers take at least one
-- character, and what `recognize_float` recognizes is the text of an `f32`.
pub record IsScanner {T N F : Type 0} (scan : Scanner T N F) : Type 0 where
  pub space_le : (t : T) → scan.len (scan.multispace0 t) ≤ scan.len t
  pub int_lt : (t rest : T) (v : ℕ) → scan.int t ≡ some (rest, v) → scan.len rest < scan.len t
  pub float_lt :
      (t rest : T) (text : N)
      → scan.recognize_float t ≡ some (rest, text)
      → scan.len rest < scan.len t
  pub float_parses :
      (t rest : T) (text : N)
      → scan.recognize_float t ≡ some (rest, text)
      → (x : F) × (scan.parse text ≡ some x)

-- The error of nom, or the end of the fuel.
pub data ReadError : Type 0 where
  expected_int : ReadError
  expected_float : ReadError
  no_fuel : ReadError

-- The words so far, with the text that the functions hand on. `info` is what `from_sld` returns.
pub record SldDataBuilder (T : Type 0) : Type 0 where
  pub rest : T
  pub seq : List TypedU32

pub record SldInfo : Type 0 where
  pub num_objects : ℕ

-- `-1`
abbrev pub minus_one : ℕ
minus_one = 2 ^ 32 - 1

module _ {T N F : Type 0} (scan : Scanner T N F) where
  abbrev pub Read : Type 0 → Type 0
  Read A = Exec (SldDataBuilder T) ReadError A

  unfoldable pub push_int : ℕ → T → SldDataBuilder T → SldDataBuilder T
  push_int v rest b = record { rest = rest; seq = b.seq ++ (typed v i32 ∷ []) }

  unfoldable pub push_float : F → T → SldDataBuilder T → SldDataBuilder T
  push_float v rest b = record { rest = rest; seq = b.seq ++ (typed (scan.to_bits v) f32 ∷ []) }

  unfoldable pub read_int : Read ℕ
  unfolding push_int
  read_int b = elim (scan.int (scan.multispace0 b.rest)) [
    | none ↦ fail expected_int b
    | some (rest, v) ↦ done v (push_int v rest b)
  ]

  -- A text that does not parse panics in the `unwrap`.
  unfoldable pub push_parsed : T → Option F → Read (Unit {0})
  unfolding push_float
  push_parsed rest none b = abort
  push_parsed rest (some v) b = done tt (push_float v rest b)

  unfoldable pub read_float : Read (Unit {0})
  unfolding push_parsed
  read_float b = elim (scan.recognize_float (scan.multispace0 b.rest)) [
    | none ↦ fail expected_float b
    | some (rest, text) ↦ push_parsed rest (scan.parse text) b
  ]

  unfoldable pub read_vec3 : Read (Unit {0})
  unfolding read_float
  read_vec3 = do read_float; read_float; read_float

  unfoldable pub read_sld_env : Read (Unit {0})
  unfolding read_vec3 read_float read_int
  read_sld_env = do read_vec3; read_float; read_float; read_int; read_float; read_float; read_float

  unfoldable pub read_rotation : ℕ → Read (Unit {0})
  unfolding read_vec3
  read_rotation is_rot b = if is_rot == 0 then done tt b else read_vec3 b

  -- an object behind its first number
  unfoldable pub read_object : Read (Unit {0})
  unfolding read_int read_vec3 read_float read_rotation
  read_object = do
    read_int
    read_int
    is_rot ← read_int
    read_vec3
    read_vec3
    read_float
    read_float
    read_float
    read_vec3
    read_rotation is_rot

  unfoldable pub read_objects : ℕ → ℕ → Read ℕ
  unfolding read_int read_object
  read_objects zero index b = fail no_fuel b
  read_objects (suc fuel) index b =
      (do
        id ← read_int
        (λ b1. elim (id == minus_one) [
          | true ↦ done index b1
          | false ↦ (read_object >>= λ _. read_objects fuel (index + 1)) b1
        ]))
        b

  -- the inner loop of `read_and_net`
  unfoldable pub read_row : ℕ → Read (Unit {0})
  unfolding read_int
  read_row zero b = fail no_fuel b
  read_row (suc fuel) b =
      (do
        id ← read_int
        (λ b1. elim (id == minus_one) [ true ↦ done tt b1 | false ↦ read_row fuel b1 ]))
        b

  unfoldable pub read_and_net : ℕ → Read (Unit {0})
  unfolding read_int read_row
  read_and_net zero b = fail no_fuel b
  read_and_net (suc fuel) b =
      (do
        id ← read_int
        (λ b1. elim (id == minus_one) [
          | true ↦ done tt b1
          | false ↦ (read_row fuel >>= λ _. read_and_net fuel) b1
        ]))
        b

  unfoldable pub read_or_net : ℕ → Read (Unit {0})
  unfolding read_and_net
  read_or_net fuel = read_and_net fuel

  unfoldable pub read_sld : ℕ → Read SldInfo
  unfolding read_sld_env read_objects read_and_net read_or_net
  read_sld fuel = do
    read_sld_env
    num_objects ← read_objects fuel 0
    read_and_net fuel
    read_or_net fuel
    pure (record { num_objects = num_objects })

  unfoldable pub from_sld : ℕ → T → Outcome (SldDataBuilder T) ReadError SldInfo
  unfolding read_sld
  from_sld fuel input = read_sld fuel (record { rest = input; seq = [] })

pub record SldData : Type 0 where
  pub seq : List TypedU32
  pub read_index : ℕ
  pub info : SldInfo

-- the function `parse`, with the length of the text and one more as fuel
unfoldable pub parse_sld :
    {T N F : Type 0} → Scanner T N F → T → Outcome (SldDataBuilder T) ReadError SldData
unfolding from_sld
parse_sld scan input = elim (from_sld scan (suc (scan.len input)) input) [
  | done info b ↦ done (record { seq = b.seq; read_index = 0; info = info }) b
  | fail e b ↦ fail e b
  | abort ↦ abort
]

-- the type of the word that was to be read as another, and its place
pub record TypeError : Type 0 where
  pub held : Ty
  pub index : ℕ

unfoldable pub after_read : {A : Type 0} → Option A → TypedU32 → Exec SldData TypeError A
after_read none v d = fail (record { held = v.ty; index = d.read_index }) d
after_read (some x) v d = done x (record d { read_index = d.read_index + 1 })

-- An index past the end panics.
unfoldable pub inw : Exec SldData TypeError ℕ
unfolding after_read as_i32
inw d = elim (get_elem? d.seq d.read_index) [ none ↦ abort | some v ↦ after_read (as_i32 v) v d ]

unfoldable pub finw : {F : Type 0} → (ℕ → F) → Exec SldData TypeError F
unfolding after_read as_f32
finw from_bits d = elim (get_elem? d.seq d.read_index) [
  | none ↦ abort
  | some v ↦ after_read (as_f32 from_bits v) v d
]
