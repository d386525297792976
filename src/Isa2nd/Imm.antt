-- ===== src/Isa2nd/Imm.antt =====
-- The immediates of core_sim/src/decode_instr_2nd.rs.
use cpuex2022_7_simulator.Common.{ℕ, bit_or, shl}
use cpuex2022_7_simulator.Bin.{mask, sign_extend}

unfoldable pub compose_3 : ℕ → ℕ → ℕ → ℕ
compose_3 sign imm_11_6 imm_5_0 =
    let imm = bit_or (shl imm_11_6 6) imm_5_0 in sign_extend 12 sign imm

unfoldable pub compose_4 : ℕ → ℕ → ℕ → ℕ
compose_4 sign imm_11_6 imm_5_2_13_12 =
    let imm_13_12 = mask imm_5_2_13_12 0 1 in
    let imm = bit_or (bit_or (shl imm_13_12 12) (shl imm_11_6 6)) (mask imm_5_2_13_12 2 5) in
    sign_extend 14 sign imm

unfoldable pub compose_6 : ℕ → ℕ → ℕ → ℕ → ℕ → ℕ
compose_6 sign imm_11_6 imm_5_2_13_12 imm_22_17 imm_16_14 =
    let imm_13_12 = mask imm_5_2_13_12 0 1 in
    let imm =
      bit_or
        (bit_or (bit_or (bit_or (shl imm_22_17 17) (shl imm_16_14 14)) (shl imm_13_12 12))
          (shl imm_11_6 6))
        (mask imm_5_2_13_12 2 5) in
    sign_extend 23 sign imm
