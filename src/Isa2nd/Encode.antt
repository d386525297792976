-- ===== src/Isa2nd/Encode.antt =====
-- The layout of the words of the second instruction set: the word that stands for an instruction.
-- The program has no encoder; this one describes what its decoder is to undo.
use cpuex2022_7_simulator.Common.{ℕ, ◌+◌, ◌*◌, ◌/◌, ◌%◌, ◌^◌, ◌-◌, ◌<◌, ◌≤◌, ◌≡◌, ◌⊎◌}
use cpuex2022_7_simulator.Instr.{
  IoInstr, inw, outb, finw, EInstr, fadd, fsub, fmul, fdiv, fsgnj, fsgnjn, fsgnjx, YInstr, fiszero,
  fispos, fisneg, fftoi, WInstr, fblt, fbge, VInstr, fbeqz, fbnez, end_instr,
}
use cpuex2022_7_simulator.Isa2nd.{
  RInstr, add, xor, min, max, IInstr, addi, xori, slli, lw, jalr, BInstr, beq, bne, blt, bge, bxor,
  bxnor, PInstr, beqi, bnei, blti, bgei, bgti, blei, GInstr, fmadd, fmsub, fnmadd, fnmsub, HInstr,
  fsqrt, fhalf, ffloor, ffrac, finv, FInstr, e_fmt, g_fmt, h_fmt, k_fmt, x_fmt, y_fmt, w_fmt, v_fmt,
  flw, fsw, r_fmt, i_fmt, s_fmt, b_fmt, p_fmt, j_fmt, io_fmt, f_fmt, misc_fmt, DecodedInstr,
}

-- opcode, rd, funct3, rs1, rs2 and funct7, from the lowest bits up
abbrev pub word_of : ℕ → ℕ → ℕ → ℕ → ℕ → ℕ → ℕ
word_of opcode rd funct3 rs1 rs2 funct7 =
    opcode + rd * 2 ^ 4 + funct3 * 2 ^ 10 + rs1 * 2 ^ 13 + rs2 * 2 ^ 19 + funct7 * 2 ^ 25

-- The pieces of an immediate: bits 11 to 6 under the sign, bits 5 to 0, and bits 5 to 2 beside
-- bits 13 and 12.
abbrev pub upper_piece : ℕ → ℕ
upper_piece imm = imm / 2 ^ 6 % 2 ^ 6 + imm / 2 ^ 31 * 2 ^ 6

abbrev pub lower_piece : ℕ → ℕ
lower_piece imm = imm % 2 ^ 6

abbrev pub branch_piece : ℕ → ℕ
branch_piece imm = imm / 2 ^ 12 % 2 ^ 2 + imm / 2 ^ 2 % 2 ^ 4 * 2 ^ 2

abbrev pub r_funct3 : RInstr → ℕ
r_funct3 add = 0
r_funct3 xor = 4
r_funct3 min = 1
r_funct3 max = 3

-- opcode and funct3
abbrev pub i_codes : IInstr → ℕ × ℕ
i_codes addi = (0b0010, 0)
i_codes xori = (0b0010, 4)
i_codes slli = (0b0010, 2)
i_codes lw = (0b0110, 0)
i_codes jalr = (0b1010, 0)

abbrev pub b_funct3 : BInstr → ℕ
b_funct3 beq = 0
b_funct3 bne = 1
b_funct3 blt = 4
b_funct3 bge = 5
b_funct3 bxor = 2
b_funct3 bxnor = 3

abbrev pub p_funct3 : PInstr → ℕ
p_funct3 beqi = 0
p_funct3 bnei = 1
p_funct3 blti = 4
p_funct3 bgei = 5
p_funct3 bgti = 6
p_funct3 blei = 7

abbrev pub e_funct5 : EInstr → ℕ
e_funct5 fadd = 0
e_funct5 fsub = 1
e_funct5 fmul = 2
e_funct5 fdiv = 3
e_funct5 fsgnj = 6
e_funct5 fsgnjn = 7
e_funct5 fsgnjx = 8

abbrev pub h_funct5 : HInstr → ℕ
h_funct5 fsqrt = 4
h_funct5 fhalf = 5
h_funct5 ffrac = 12
h_funct5 finv = 11
h_funct5 ffloor = 9

abbrev pub g_funct3 : GInstr → ℕ
g_funct3 fmadd = 1
g_funct3 fmsub = 2
g_funct3 fnmadd = 5
g_funct3 fnmsub = 6

-- funct3 and funct7; the comparisons have the top bit
abbrev pub y_codes : YInstr → ℕ × ℕ
y_codes fiszero = (4, 64)
y_codes fispos = (5, 64)
y_codes fisneg = (6, 64)
y_codes fftoi = (0, 0b10001 * 4)

abbrev pub w_funct3 : WInstr → ℕ
w_funct3 fblt = 1
w_funct3 fbge = 2

abbrev pub v_funct3 : VInstr → ℕ
v_funct3 fbeqz = 4
v_funct3 fbnez = 7

abbrev pub encode_io : IoInstr ℕ ℕ ℕ → ℕ
encode_io (inw rd) = word_of 0b0011 rd 1 0 0 0
encode_io (outb rs) = word_of 0b0011 0 2 rs 0 0
encode_io (finw rd) = word_of 0b0011 rd 4 0 0 0

abbrev pub encode_f : FInstr ℕ ℕ ℕ ℕ → ℕ
encode_f (e_fmt instr rd rs1 rs2) = word_of 0b0001 rd 0 rs1 rs2 (e_funct5 instr * 4)
encode_f (g_fmt instr rd rs1 rs2 rs3) = word_of 0b0001 rd (g_funct3 instr) rs1 rs2 rs3
encode_f (h_fmt instr rd rs1) = word_of 0b0001 rd 0 rs1 0 (h_funct5 instr * 4)
encode_f (k_fmt instr rd rs1 rs2) = word_of 0b0001 rd 1 rs1 rs2 64
encode_f (x_fmt instr rd rs1) = word_of 0b0001 rd 0 rs1 0 (0b11001 * 4)
encode_f (y_fmt instr rd rs1) = word_of 0b0001 rd (y_codes instr).0 rs1 0 (y_codes instr).1
encode_f (w_fmt instr rs1 rs2 imm) =
    word_of 0b1001 (branch_piece imm) (w_funct3 instr) rs1 rs2 (upper_piece imm)
encode_f (v_fmt instr rs1 imm) =
    word_of 0b1001 (branch_piece imm) (v_funct3 instr) rs1 0 (upper_piece imm)
encode_f (flw rd rs1 imm) = word_of 0b0111 rd 0 rs1 (lower_piece imm) (upper_piece imm)
encode_f (fsw rs2 rs1 imm) = word_of 0b0101 (lower_piece imm) 0 rs1 rs2 (upper_piece imm)

unfoldable pub encode : DecodedInstr → ℕ
encode (r_fmt instr rd rs1 rs2) = word_of 0b0000 rd (r_funct3 instr) rs1 rs2 0
encode (i_fmt instr rd rs1 imm) =
    word_of (i_codes instr).0 rd (i_codes instr).1 rs1 (lower_piece imm) (upper_piece imm)
encode (s_fmt instr rs1 rs2 imm) = word_of 0b0100 (lower_piece imm) 0 rs1 rs2 (upper_piece imm)
encode (b_fmt instr rs1 rs2 imm) =
    word_of 0b1000 (branch_piece imm) (b_funct3 instr) rs1 rs2 (upper_piece imm)
encode (p_fmt instr rs1 imm imm2) =
    word_of 0b1100 (branch_piece imm) (p_funct3 instr) rs1 (lower_piece imm2) (upper_piece imm)
encode (j_fmt instr rd imm) =
    word_of 0b1110 rd (imm / 2 ^ 14 % 2 ^ 3) (imm / 2 ^ 17 % 2 ^ 6) (branch_piece imm)
      (upper_piece imm)
encode (io_fmt instr) = encode_io instr
encode (f_fmt instr) = encode_f instr
encode (misc_fmt end_instr) = 2 ^ 31

abbrev pub IsReg : ℕ → Type 0
IsReg r = r < 64

-- a signed number of `w` bits beside its sign, as a `u32`
abbrev pub IsSigned : ℕ → ℕ → Type 0
IsSigned w imm = (imm < 2 ^ w) ⊎ ((2 ^ 32 - 2 ^ w ≤ imm) × (imm < 2 ^ 32))

-- a distance that is a whole number of words
abbrev pub IsJump : ℕ → ℕ → Type 0
IsJump w imm = IsSigned w imm × (imm % 4 ≡ 0)

abbrev pub IsEncodableIo : IoInstr ℕ ℕ ℕ → Type 0
IsEncodableIo (inw rd) = IsReg rd
IsEncodableIo (outb rs) = IsReg rs
IsEncodableIo (finw rd) = IsReg rd

abbrev pub IsEncodableF : FInstr ℕ ℕ ℕ ℕ → Type 0
IsEncodableF (e_fmt instr rd rs1 rs2) = IsReg rd × IsReg rs1 × IsReg rs2
IsEncodableF (g_fmt instr rd rs1 rs2 rs3) = IsReg rd × IsReg rs1 × IsReg rs2 × IsReg rs3
IsEncodableF (h_fmt instr rd rs1) = IsReg rd × IsReg rs1
IsEncodableF (k_fmt instr rd rs1 rs2) = IsReg rd × IsReg rs1 × IsReg rs2
IsEncodableF (x_fmt instr rd rs1) = IsReg rd × IsReg rs1
IsEncodableF (y_fmt instr rd rs1) = IsReg rd × IsReg rs1
IsEncodableF (w_fmt instr rs1 rs2 imm) = IsReg rs1 × IsReg rs2 × IsJump 14 imm
IsEncodableF (v_fmt instr rs1 imm) = IsReg rs1 × IsJump 14 imm
IsEncodableF (flw rd rs1 imm) = IsReg rd × IsReg rs1 × IsSigned 12 imm
IsEncodableF (fsw rs2 rs1 imm) = IsReg rs2 × IsReg rs1 × IsSigned 12 imm

-- The registers are below 64, and the immediates fit into their pieces.
abbrev pub IsEncodable : DecodedInstr → Type 0
IsEncodable (r_fmt instr rd rs1 rs2) = IsReg rd × IsReg rs1 × IsReg rs2
IsEncodable (i_fmt instr rd rs1 imm) = IsReg rd × IsReg rs1 × IsSigned 12 imm
IsEncodable (s_fmt instr rs1 rs2 imm) = IsReg rs1 × IsReg rs2 × IsSigned 12 imm
IsEncodable (b_fmt instr rs1 rs2 imm) = IsReg rs1 × IsReg rs2 × IsJump 14 imm
IsEncodable (p_fmt instr rs1 imm imm2) = IsReg rs1 × IsJump 14 imm × IsSigned 5 imm2
IsEncodable (j_fmt instr rd imm) = IsReg rd × IsJump 23 imm
IsEncodable (io_fmt instr) = IsEncodableIo instr
IsEncodable (f_fmt instr) = IsEncodableF instr
IsEncodable (misc_fmt end_instr) = Unit {0}
