-- ===== src/Isa2nd/RoundTrip/Shared.antt =====
-- What the formats of core_sim/src/decode_instr_2nd.rs share when their words are decoded.
use cpuex2022_7_simulator.Common.{ℕ, ◌%◌, ◌^◌, ◌<◌, ◌≡◌, arith, ok}
use cpuex2022_7_simulator.Isa2nd.{DecodedInstr}
use cpuex2022_7_simulator.Isa2nd.Decode.{decode_from}
use cpuex2022_7_simulator.Isa2nd.Encode.{encode, IsReg, IsSigned, upper_piece}

-- An instruction that is the decoding of its encoding.
abbrev pub ComesBack : DecodedInstr → Type 0
ComesBack i = decode_from (encode i) ≡ ok i

pub same_reg : (r : ℕ) → IsReg r → r % 2 ^ 8 ≡ r
same_reg r h = omega arith

pub upper_12 : (imm : ℕ) → IsSigned 12 imm → upper_piece imm < 128
upper_12 imm s = ground (arith, s)

pub upper_14 : (imm : ℕ) → IsSigned 14 imm → upper_piece imm < 128
upper_14 imm s = ground (arith, s)

pub upper_23 : (imm : ℕ) → IsSigned 23 imm → upper_piece imm < 128
upper_23 imm s = ground (arith, s)
