-- ===== src/Decode.antt =====
-- core_sim/src/decode_instr.rs: from a word to an instruction. The build is the release one, so
-- the conversion of a register number cannot fail.
pub mod Imm
pub mod Formats
pub mod Registers
pub mod Immediates
use cpuex2022_7_simulator.Common.{ℕ, Bool, ◌==◌, if◌then◌else◌, Result, ok, err, panic}
use cpuex2022_7_simulator.Bin.{mask_lower, extract, bit_at}
use cpuex2022_7_simulator.Instr.{
  DecodedInstr, misc_fmt, end_instr, i_fmt, lw, jalr, s_fmt, sw, j_fmt, jal, io_fmt, inw, outb,
  finw, f_fmt, flw, fsw,
}
use cpuex2022_7_simulator.Register.{reg_id, freg_id}
use Imm.{i_imm, s_imm, b_imm, j_imm}
use Formats.{
  DecodeError, invalid, Fields, decode_r, decode_i, decode_lw, decode_jalr, decode_sw, decode_b,
  decode_float, decode_vw,
}

-- the fields that `decode_from` cuts out of the word
unfoldable pub fields_of : ℕ → Fields
fields_of bin = record {
  bin = bin;
  rd = extract bin 7 11;
  funct3 = extract bin 12 14;
  rs1 = extract bin 15 19;
  rs2 = extract bin 20 24;
  funct7 = extract bin 25 31;
  imm = extract bin 20 31;
  sign = bit_at bin 31;
}

-- the `match` on the opcode
unfoldable pub decode_fields : ℕ → Fields → Result DecodeError DecodedInstr
decode_fields opcode w =
    if opcode == 0b0110011
    then decode_r w
    else if opcode == 0b0010011
    then decode_i w
    else if opcode == 0b0000011
    then decode_lw w
    else if opcode == 0b1100111
    then decode_jalr w
    else if opcode == 0b0100011
    then decode_sw w
    else if opcode == 0b1100011
    then decode_b w
    else if opcode == 0b1101111
    then ok (j_fmt jal (reg_id w.rd) (j_imm w.bin w.sign))
    else if opcode == 0b0001011
    then ok (io_fmt (inw (reg_id w.rd)))
    else if opcode == 0b0101011
    then ok (io_fmt (outb (reg_id w.rs1)))
    else if opcode == 0b0001111
    then ok (io_fmt (finw (freg_id w.rd)))
    else if opcode == 0b1010011
    then decode_float w
    else if opcode == 0b1010111
    then decode_vw w
    else if opcode == 0b0000111
    then ok (f_fmt (flw (freg_id w.rd) (reg_id w.rs1) (i_imm w.sign w.imm)))
    else if opcode == 0b0100111
    then ok (f_fmt (fsw (freg_id w.rs2) (reg_id w.rs1) (s_imm w.bin w.sign)))
    else err (invalid w.bin)

unfoldable pub decode_from : ℕ → Result DecodeError DecodedInstr
unfolding fields_of decode_fields
decode_from bin =
    if bin == 0 then ok (misc_fmt end_instr) else decode_fields (mask_lower bin 6) (fields_of bin)
