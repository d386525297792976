-- ===== src/Bytes.antt =====
-- Little-endian words in byte vectors: `u32::from_le_bytes` of a slice of four bytes, and
-- `copy_from_slice` of `to_le_bytes`, as memory.rs, io.rs and cpu.rs use them.
pub mod Words
use cpuex2022_7_simulator.Common.{
  ℕ, ◌+◌, ◌*◌, ◌/◌, ◌%◌, ◌^◌, Bool, List, Option, none, some, get_elem?, set, length, leb,
}

le_word : Option ℕ → Option ℕ → Option ℕ → Option ℕ → Option ℕ
le_word (some a) (some b) (some c) (some d) = some (a + b * 2 ^ 8 + c * 2 ^ 16 + d * 2 ^ 24)
le_word _ _ _ _ = none

-- `none` is a slice that passes the end.
unfoldable pub word_at : List ℕ → ℕ → Option ℕ
unfolding le_word
word_at bytes i =
    le_word (get_elem? bytes i) (get_elem? bytes (i + 1)) (get_elem? bytes (i + 2))
      (get_elem? bytes (i + 3))

unfoldable pub byte_of : ℕ → ℕ → ℕ
byte_of v k = v / 2 ^ (8 * k) % 2 ^ 8

-- The caller has checked that the slice does not pass the end.
unfoldable pub put_word : List ℕ → ℕ → ℕ → List ℕ
unfolding byte_of
put_word bytes i v =
    set (set (set (set bytes i (byte_of v 0)) (i + 1) (byte_of v 1)) (i + 2) (byte_of v 2)) (i + 3)
      (byte_of v 3)
