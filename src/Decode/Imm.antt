-- ===== src/Decode/Imm.antt =====
-- The immediates of core_sim/src/decode_instr.rs.
use cpuex2022_7_simulator.Common.{ℕ, bit_or, shl}
use cpuex2022_7_simulator.Bin.{extract, bit_at, sign_extend}

unfoldable pub j_imm : ℕ → ℕ → ℕ
j_imm bin sign =
    let part1 = extract bin 12 19 in
    let part2 = bit_at bin 20 in
    let part3 = extract bin 21 30 in
    let part4 = sign in
    let imm = bit_or (bit_or (bit_or (shl part1 12) (shl part2 11)) (shl part3 1)) (shl part4 20) in
    sign_extend 21 sign imm

unfoldable pub i_imm : ℕ → ℕ → ℕ
i_imm sign imm = sign_extend 12 sign imm

unfoldable pub s_imm : ℕ → ℕ → ℕ
s_imm bin sign =
    let imm = bit_or (shl (extract bin 25 31) 5) (extract bin 7 11) in sign_extend 12 sign imm

unfoldable pub b_imm : ℕ → ℕ → ℕ
b_imm bin sign =
    let at_7 = bit_at bin 7 in
    let lower = extract bin 8 11 in
    let upper = extract bin 25 30 in
    let imm = bit_or (bit_or (bit_or (shl lower 1) (shl upper 5)) (shl at_7 11)) (shl sign 12) in
    sign_extend 13 sign imm
