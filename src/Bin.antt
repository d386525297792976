-- ===== src/Bin.antt =====
-- core_sim/src/bin.rs: bit ranges of a `u32`, both ends included, and sign extension.
pub mod Fields
pub mod Signed
use cpuex2022_7_simulator.Common.{
  ℕ, ◌+◌, ◌^◌, ◌%◌, bit_and, bit_or, ◌==◌, if◌then◌else◌, shl, shr, wrapping_sub,
}

unfoldable pub bit_range : ℕ → ℕ → ℕ
bit_range start end =
    let large = if end == 31 then 0 else shl 1 (end + 1) in wrapping_sub large (shl 1 start)

unfoldable pub bit_range_lower : ℕ → ℕ
bit_range_lower index =
    let large = if index == 31 then 0 else shl 1 (index + 1) in wrapping_sub large 1

unfoldable pub mask : ℕ → ℕ → ℕ → ℕ
mask bin start end = bit_and bin (bit_range start end)

unfoldable pub mask_lower : ℕ → ℕ → ℕ
mask_lower bin index = bit_and bin (bit_range_lower index)

unfoldable pub extract : ℕ → ℕ → ℕ → ℕ
extract bin start end = shr (mask bin start end) start

-- `at` of the source
unfoldable pub bit_at : ℕ → ℕ → ℕ
bit_at bin index = bit_and (shr bin index) 1

unfoldable pub sign_extend : ℕ → ℕ → ℕ → ℕ
sign_extend bit sign imm = if sign == 0 then imm else bit_or (bit_range bit 31) imm
