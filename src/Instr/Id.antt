-- ===== src/Instr/Id.antt =====
-- `InstrId` of core_sim/src/instr.rs: the number under which an instruction is counted, and its name.
pub mod Laws
use Prim.Native.String.{String}
use cpuex2022_7_simulator.Common.{
  ℕ, ◌+◌, ◌*◌, ◌/◌, ◌^◌, bit_and, Bool, List, [], ◌∷◌, Option, none, some, map, get_elem?, get_or,
  length, ltb, if◌then◌else◌, shl, Result, ok, err,
}
use cpuex2022_7_simulator.Instr.{
  RInstr, add, sub, xor, or, and, sll, sra, slt, IInstr, addi, xori, ori, andi, slli, slti, lw,
  jalr, SInstr, sw, BInstr, beq, bne, blt, bge, PInstr, JInstr, jal, IoInstr, outb, inw, finw,
  EInstr, fadd, fsub, fmul, fdiv, fsgnj, fsgnjn, fsgnjx, GInstr, HInstr, fsqrt, fhalf, ffloor,
  KInstr, flt, XInstr, fitof, YInstr, fiszero, fispos, fisneg, fftoi, WInstr, fblt, fbge, VInstr,
  fbeqz, fbnez, FInstr, e_fmt, g_fmt, h_fmt, k_fmt, x_fmt, y_fmt, w_fmt, v_fmt, flw, fsw, MiscInstr,
  end_instr, Instr, r_fmt, i_fmt, s_fmt, b_fmt, p_fmt, j_fmt, io_fmt, f_fmt, misc_fmt,
}

abbrev pub InstrId : Type 0
InstrId = ℕ

abbrev pub max_id : ℕ
max_id = 15 * 2 ^ 3 + 3

-- `as u8`, and the names that `Display` prints.
unfoldable pub r_index : RInstr → ℕ
r_index add = 0
r_index sub = 1
r_index xor = 2
r_index or = 3
r_index and = 4
r_index sll = 5
r_index sra = 6
r_index slt = 7

unfoldable pub r_name : RInstr → String
r_name add = "add"
r_name sub = "sub"
r_name xor = "xor"
r_name or = "or"
r_name and = "and"
r_name sll = "sll"
r_name sra = "sra"
r_name slt = "slt"

unfoldable pub i_index : IInstr → ℕ
i_index addi = 0
i_index xori = 1
i_index ori = 2
i_index andi = 3
i_index slli = 4
i_index slti = 5
i_index lw = 6
i_index jalr = 7

unfoldable pub i_name : IInstr → String
i_name addi = "addi"
i_name xori = "xori"
i_name ori = "ori"
i_name andi = "andi"
i_name slli = "slli"
i_name slti = "slti"
i_name lw = "lw"
i_name jalr = "jalr"

unfoldable pub s_index : SInstr → ℕ
s_index sw = 0

unfoldable pub s_name : SInstr → String
s_name sw = "sw"

unfoldable pub b_index : BInstr → ℕ
b_index beq = 0
b_index bne = 1
b_index blt = 2
b_index bge = 3

unfoldable pub b_name : BInstr → String
b_name beq = "beq"
b_name bne = "bne"
b_name blt = "blt"
b_name bge = "bge"

unfoldable pub j_index : JInstr → ℕ
j_index jal = 0

unfoldable pub j_name : JInstr → String
j_name jal = "jal"

unfoldable pub e_index : EInstr → ℕ
e_index fadd = 0
e_index fsub = 1
e_index fmul = 2
e_index fdiv = 3
e_index fsgnj = 4
e_index fsgnjn = 5
e_index fsgnjx = 6

unfoldable pub e_name : EInstr → String
e_name fadd = "fadd"
e_name fsub = "fsub"
e_name fmul = "fmul"
e_name fdiv = "fdiv"
e_name fsgnj = "fsgnj"
e_name fsgnjn = "fsgnjn"
e_name fsgnjx = "fsgnjx"

unfoldable pub h_index : HInstr → ℕ
h_index fsqrt = 0
h_index fhalf = 1
h_index ffloor = 2

unfoldable pub h_name : HInstr → String
h_name fsqrt = "fsqrt"
h_name fhalf = "fhalf"
h_name ffloor = "ffloor"

unfoldable pub k_index : KInstr → ℕ
k_index flt = 0

unfoldable pub k_name : KInstr → String
k_name flt = "flt"

unfoldable pub x_index : XInstr → ℕ
x_index fitof = 0

unfoldable pub x_name : XInstr → String
x_name fitof = "fitof"

unfoldable pub y_index : YInstr → ℕ
y_index fiszero = 0
y_index fispos = 1
y_index fisneg = 2
y_index fftoi = 3

unfoldable pub y_name : YInstr → String
y_name fiszero = "fiszero"
y_name fispos = "fispos"
y_name fisneg = "fisneg"
y_name fftoi = "fftoi"

unfoldable pub w_index : WInstr → ℕ
w_index fblt = 0
w_index fbge = 1

unfoldable pub w_name : WInstr → String
w_name fblt = "fblt"
w_name fbge = "fbge"

unfoldable pub v_index : VInstr → ℕ
v_index fbeqz = 0
v_index fbnez = 1

unfoldable pub v_name : VInstr → String
v_name fbeqz = "fbeqz"
v_name fbnez = "fbnez"

-- the variants in the order of their discriminants, which `unchecked_transmute_from` counts
abbrev pub r_variants : List RInstr
r_variants = add ∷ sub ∷ xor ∷ or ∷ and ∷ sll ∷ sra ∷ slt ∷ []

abbrev pub i_variants : List IInstr
i_variants = addi ∷ xori ∷ ori ∷ andi ∷ slli ∷ slti ∷ lw ∷ jalr ∷ []

abbrev pub s_variants : List SInstr
s_variants = sw ∷ []

abbrev pub b_variants : List BInstr
b_variants = beq ∷ bne ∷ blt ∷ bge ∷ []

abbrev pub j_variants : List JInstr
j_variants = jal ∷ []

abbrev pub e_variants : List EInstr
e_variants = fadd ∷ fsub ∷ fmul ∷ fdiv ∷ fsgnj ∷ fsgnjn ∷ fsgnjx ∷ []

abbrev pub h_variants : List HInstr
h_variants = fsqrt ∷ fhalf ∷ ffloor ∷ []

abbrev pub k_variants : List KInstr
k_variants = flt ∷ []

abbrev pub x_variants : List XInstr
x_variants = fitof ∷ []

abbrev pub y_variants : List YInstr
y_variants = fiszero ∷ fispos ∷ fisneg ∷ fftoi ∷ []

abbrev pub w_variants : List WInstr
w_variants = fblt ∷ fbge ∷ []

abbrev pub v_variants : List VInstr
v_variants = fbeqz ∷ fbnez ∷ []

-- `mem::variant_count` of the types in the order of `upper`; the last is the literal 3, and
-- `PInstr` and `GInstr` have no variants.
variant_counts : List ℕ
variant_counts =
    length r_variants
    ∷ length i_variants
    ∷ length s_variants
    ∷ length b_variants
    ∷ 0
    ∷ length j_variants
    ∷ 3
    ∷ length e_variants
    ∷ 0
    ∷ length h_variants
    ∷ length k_variants
    ∷ length x_variants
    ∷ length y_variants
    ∷ length w_variants
    ∷ length v_variants
    ∷ 3
    ∷ []

-- `InstrId::try_from`; an `upper` past the end has no instruction.
unfoldable pub try_from : ℕ → Result (Unit {0}) InstrId
unfolding variant_counts
try_from value =
    let upper = value / 2 ^ 3 in
    let lower = bit_and value 0b111 in
    if ltb lower (get_or variant_counts upper 0) then ok value else err tt

-- The names by `upper` and `lower`.
names : List (List String)
unfolding r_name i_name s_name b_name j_name e_name h_name k_name x_name y_name w_name v_name
names =
    map r_name r_variants
    ∷ map i_name i_variants
    ∷ map s_name s_variants
    ∷ map b_name b_variants
    ∷ []
    ∷ map j_name j_variants
    ∷ ("outb" ∷ "inw" ∷ "finw" ∷ [])
    ∷ map e_name e_variants
    ∷ []
    ∷ map h_name h_variants
    ∷ map k_name k_variants
    ∷ map x_name x_variants
    ∷ map y_name y_variants
    ∷ map w_name w_variants
    ∷ map v_name v_variants
    ∷ ("flw" ∷ "fsw" ∷ "end" ∷ [])
    ∷ []

-- `Display` of an id; `none` stands for the unchecked or unreachable cases.
unfoldable pub display : InstrId → Option String
unfolding names
display id = get_elem? (get_or names (id / 2 ^ 3) []) (bit_and id 0b111)

make_id : ℕ → ℕ → InstrId
make_id upper lower = upper * 2 ^ 3 + lower

module _ {IR IW FR FW : Type 0} where
  f_id : FInstr IR IW FR FW → InstrId
  unfolding make_id e_index h_index k_index x_index y_index w_index v_index
  f_id (e_fmt instr _ _ _) = make_id 7 (e_index instr)
  f_id (g_fmt instr _ _ _ _) = elim instr [ ]
  f_id (h_fmt instr _ _) = make_id 9 (h_index instr)
  f_id (k_fmt instr _ _ _) = make_id 10 (k_index instr)
  f_id (x_fmt instr _ _) = make_id 11 (x_index instr)
  f_id (y_fmt instr _ _) = make_id 12 (y_index instr)
  f_id (w_fmt instr _ _ _) = make_id 13 (w_index instr)
  f_id (v_fmt instr _ _) = make_id 14 (v_index instr)
  f_id (flw _ _ _) = make_id 15 0
  f_id (fsw _ _ _) = make_id 15 1

  unfoldable pub id : Instr IR IW FR FW → InstrId
  unfolding make_id f_id r_index i_index s_index b_index j_index
  id (r_fmt instr _ _ _) = make_id 0 (r_index instr)
  id (i_fmt instr _ _ _) = make_id 1 (i_index instr)
  id (s_fmt instr _ _ _) = make_id 2 (s_index instr)
  id (b_fmt instr _ _ _) = make_id 3 (b_index instr)
  id (p_fmt instr _ _ _) = elim instr [ ]
  id (j_fmt instr _ _) = make_id 5 (j_index instr)
  id (io_fmt (outb _)) = make_id 6 0
  id (io_fmt (inw _)) = make_id 6 1
  id (io_fmt (finw _)) = make_id 6 2
  id (f_fmt f) = f_id f
  id (misc_fmt end_instr) = make_id 15 2
