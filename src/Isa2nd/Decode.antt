-- ===== src/Isa2nd/Decode.antt =====
-- core_sim/src/decode_instr_2nd.rs: from a word to an instruction of the second instruction set.
use cpuex2022_7_simulator.Common.{ℕ, ◌==◌, if◌then◌else◌, shl, ok, err}
use cpuex2022_7_simulator.Bin.{mask_lower, extract, bit_at}
use cpuex2022_7_simulator.Instr.{end_instr, sw, jal}
use cpuex2022_7_simulator.Isa2nd.{lw, i_fmt, s_fmt, j_fmt, f_fmt, misc_fmt, flw, fsw}
use cpuex2022_7_simulator.Isa2nd.Imm.{compose_3, compose_6}
use cpuex2022_7_simulator.Isa2nd.Formats.{
  Decoded, invalid, Fields, decode_r, decode_i, decode_jalr, decode_b, decode_p, decode_io,
}
use cpuex2022_7_simulator.Isa2nd.FloatFormats.{decode_float, decode_vw}
use cpuex2022_7_simulator.Register.{reg_id, freg_id}

-- the fields that `decode_from` cuts out of the word
unfoldable pub fields_of : ℕ → Fields
fields_of bin = record {
  bin = bin;
  rd = extract bin 4 9;
  funct3 = extract bin 10 12;
  rs1 = extract bin 13 18;
  rs2 = extract bin 19 24;
  funct7 = extract bin 25 31;
  imm_11_6 = extract bin 25 30;
  sign = bit_at bin 31;
}

-- the `match` on the opcode
unfoldable pub decode_fields : ℕ → Fields → Decoded
decode_fields opcode w =
    if opcode == 0b0000
    then decode_r w
    else if opcode == 0b0010
    then decode_i w
    else if opcode == 0b0110
    then ok (i_fmt lw (reg_id w.rd) (reg_id w.rs1) (compose_3 w.sign w.imm_11_6 w.rs2))
    else if opcode == 0b1010
    then decode_jalr w
    else if opcode == 0b0100
    then ok (s_fmt sw (reg_id w.rs1) (reg_id w.rs2) (compose_3 w.sign w.imm_11_6 w.rd))
    else if opcode == 0b1000
    then decode_b w
    else if opcode == 0b1100
    then decode_p w
    else if opcode == 0b1110
    then ok (j_fmt jal (reg_id w.rd) (compose_6 w.sign w.imm_11_6 w.rs2 w.rs1 w.funct3))
    else if opcode == 0b0011
    then decode_io w
    else if opcode == 0b0001
    then decode_float w
    else if opcode == 0b1001
    then decode_vw w
    else if opcode == 0b0111
    then ok (f_fmt (flw (freg_id w.rd) (reg_id w.rs1) (compose_3 w.sign w.imm_11_6 w.rs2)))
    else if opcode == 0b0101
    then ok (f_fmt (fsw (freg_id w.rs2) (reg_id w.rs1) (compose_3 w.sign w.imm_11_6 w.rd)))
    else err (invalid w.bin)

unfoldable pub decode_from : ℕ → Decoded
unfolding fields_of decode_fields
decode_from bin =
    if bin == shl 1 31
    then ok (misc_fmt end_instr)
    else decode_fields (mask_lower bin 3) (fields_of bin)
