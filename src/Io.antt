-- ===== src/Io.antt =====
-- core_sim/src/io.rs: the inputs and outputs of a program. `F` is `f32`.
pub mod Laws
use cpuex2022_7_simulator.Common.{ℕ, List, [], ◌∷◌, ◌++◌, none, some, Exec, done, fail, abort}
use cpuex2022_7_simulator.Bytes.{word_at}
use cpuex2022_7_simulator.Cpu.State.{AnyhowError, message, Ports}

-- `EmptyIO`, which has no state, as input and as output
unfoldable pub empty_io : {F : Type 0} → Ports F (Unit {0}) (Unit {0})
empty_io = record {
  inw = λ i. fail (message "inw called") i;
  finw = λ i. fail (message "finw called") i;
  outb = λ c o. fail (message "outb called") o;
}

pub record BinaryInput : Type 0 where
  pub content : List ℕ
  pub read_index : ℕ

unfoldable pub new_input : List ℕ → BinaryInput
new_input content = record { content = content; read_index = 0 }

-- A slice past the end panics. Neither method changes the input.
unfoldable pub inw : Exec BinaryInput AnyhowError ℕ
inw i = elim (word_at i.content i.read_index) [ none ↦ abort | some v ↦ done v i ]

unfoldable pub finw : {F : Type 0} → (ℕ → F) → Exec BinaryInput AnyhowError F
finw from_bits i = elim (word_at i.content i.read_index) [
  | none ↦ abort
  | some v ↦ done (from_bits v) i
]

pub record BinaryOutput : Type 0 where
  pub content : List ℕ

unfoldable pub new_output : BinaryOutput
new_output = record { content = [] }

unfoldable pub outb : ℕ → Exec BinaryOutput AnyhowError (Unit {0})
outb c o = done tt (record { content = o.content ++ (c ∷ []) })
