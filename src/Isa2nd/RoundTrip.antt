-- ===== src/Isa2nd/RoundTrip.antt =====
-- core_sim/src/decode_instr_2nd.rs undoes the encoding of every instruction.
pub mod Shared
pub mod Integer
pub mod Float
use cpuex2022_7_simulator.Common.{◌≡◌, refl, ok}
use cpuex2022_7_simulator.Instr.{sw, jal, end_instr}
use cpuex2022_7_simulator.Isa2nd.{
  r_fmt, i_fmt, s_fmt, b_fmt, p_fmt, j_fmt, io_fmt, f_fmt, misc_fmt, DecodedInstr,
}
use cpuex2022_7_simulator.Isa2nd.Decode.{decode_from}
use cpuex2022_7_simulator.Isa2nd.Encode.{encode, IsEncodable}
use Integer.{
  r_fmt-ComesBack, i_fmt-ComesBack, s_fmt-ComesBack, b_fmt-ComesBack, p_fmt-ComesBack,
  j_fmt-ComesBack, io_fmt-ComesBack,
}
use Float.{f_fmt-ComesBack}

-- Every instruction of the second instruction set is decoded from its word: the registers are below
-- 64, the immediates of loads, stores and additions are signed numbers of 13 bits, those of
-- branches whole numbers of words of 15 bits and of jumps of 24 bits, and those that a branch
-- compares with are of 6 bits.
pub decode_from-encode :
    (instr : DecodedInstr) → IsEncodable instr → decode_from (encode instr) ≡ ok instr
decode_from-encode (r_fmt i rd rs1 rs2) h = r_fmt-ComesBack i rd rs1 rs2 h
decode_from-encode (i_fmt i rd rs1 imm) h = i_fmt-ComesBack i rd rs1 imm h
decode_from-encode (s_fmt sw rs1 rs2 imm) h = s_fmt-ComesBack rs1 rs2 imm h
decode_from-encode (b_fmt i rs1 rs2 imm) h = b_fmt-ComesBack i rs1 rs2 imm h
decode_from-encode (p_fmt i rs1 imm imm2) h = p_fmt-ComesBack i rs1 imm imm2 h
decode_from-encode (j_fmt jal rd imm) h = j_fmt-ComesBack rd imm h
decode_from-encode (io_fmt i) h = io_fmt-ComesBack i h
decode_from-encode (f_fmt i) h = f_fmt-ComesBack i h
decode_from-encode (misc_fmt end_instr) h = unfold decode_from encode in refl
