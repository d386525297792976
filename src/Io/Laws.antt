-- ===== src/Io/Laws.antt =====
-- What core_sim/src/io.rs reads and writes.
use cpuex2022_7_simulator.Common.{ℕ, ◌≡◌, refl, inl, inr, Outcome, pure, ◌>>=◌, Option-cases}
use cpuex2022_7_simulator.Bytes.{word_at}
use cpuex2022_7_simulator.Cpu.State.{AnyhowError}
use cpuex2022_7_simulator.Io.{BinaryInput, inw}

-- Two reads of a `BinaryInput` in a row give the same word twice, and panic if one read does: the
-- input does not move on.
pub inw-inw :
    (i : BinaryInput)
    → ◌≡◌ {A = Outcome BinaryInput AnyhowError (ℕ × ℕ)}
        ((inw >>= λ a. inw >>= λ b. pure (a, b)) i)
        ((inw >>= λ a. pure (a, a)) i)
inw-inw i = elim (Option-cases (word_at i.content i.read_index)) [
  | inl e ↦ unfold inw in rw (◌>>=◌, inw, e) refl
  | inr (w, e) ↦ unfold inw in rw (◌>>=◌, inw, e, ◌>>=◌, inw, e) refl
]
