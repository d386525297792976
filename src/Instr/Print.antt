-- ===== src/Instr/Print.antt =====
-- `Display` of instructions in core_sim/src/instr.rs: their assembly. How registers and numbers are
-- printed are parameters.
use Prim.Native.String.{String, ◌++◌ as ◌<>◌}
use cpuex2022_7_simulator.Common.{ℕ}
use cpuex2022_7_simulator.Instr.{
  lw, IoInstr, outb, inw, finw, FInstr, e_fmt, g_fmt, h_fmt, k_fmt, x_fmt, y_fmt, w_fmt, v_fmt, flw,
  fsw, end_instr, Instr, r_fmt, i_fmt, s_fmt, b_fmt, p_fmt, j_fmt, io_fmt, f_fmt, misc_fmt, IInstr,
}
use cpuex2022_7_simulator.Instr.Id.{
  r_name, i_name, s_name, b_name, j_name, e_name, h_name, k_name, x_name, y_name, w_name, v_name,
}

-- Numbers as `i32` and as `u32`.
pub record Numbers : Type 0 where
  pub signed : ℕ → String
  pub unsigned : ℕ → String

unfoldable pub two_operands : String → String → String → String
two_operands name a b = name <> (" " <> (a <> (", " <> b)))

unfoldable pub three_operands : String → String → String → String → String
three_operands name a b c = name <> (" " <> (a <> (", " <> (b <> (", " <> c)))))

-- a register and an address beside a register
unfoldable pub at_address : String → String → String → String → String
at_address name a imm b = name <> (" " <> (a <> (", " <> (imm <> ("(" <> (b <> ")"))))))

module _ {IR IW FR FW : Type 0} (numbers : Numbers) (ir : IR → String) (iw : IW → String)
    (fr : FR → String) (fw : FW → String) where
  unfoldable pub print_io : IoInstr IR IW FW → String
  print_io (outb rs) = "outb " <> ir rs
  print_io (inw rd) = "inw " <> iw rd
  print_io (finw rd) = "finw " <> fw rd

  -- The immediates of these are printed as they are, without a sign.
  unfoldable pub print_float : FInstr IR IW FR FW → String
  unfolding two_operands three_operands at_address e_name h_name k_name x_name y_name w_name v_name
  print_float (e_fmt instr rd rs1 rs2) = three_operands (e_name instr) (fw rd) (fr rs1) (fr rs2)
  print_float (g_fmt instr _ _ _ _) = elim instr [ ]
  print_float (h_fmt instr rd rs1) = two_operands (h_name instr) (fw rd) (fr rs1)
  print_float (k_fmt instr rd rs1 rs2) = three_operands (k_name instr) (iw rd) (fr rs1) (fr rs2)
  print_float (x_fmt instr rd rs1) = two_operands (x_name instr) (fw rd) (ir rs1)
  print_float (y_fmt instr rd rs1) = two_operands (y_name instr) (iw rd) (fr rs1)
  print_float (w_fmt instr rs1 rs2 imm) =
      three_operands (w_name instr) (fr rs1) (fr rs2) (numbers.unsigned imm)
  print_float (v_fmt instr rs1 imm) = two_operands (v_name instr) (fr rs1) (numbers.unsigned imm)
  print_float (flw rd rs1 imm) = at_address "flw" (fw rd) (numbers.unsigned imm) (ir rs1)
  print_float (fsw rs2 rs1 imm) = at_address "fsw" (fr rs2) (numbers.unsigned imm) (ir rs1)

  unfoldable pub print_i : IInstr → String → ℕ → String → String
  unfolding three_operands at_address i_name
  print_i lw rd imm rs1 = at_address (i_name lw) rd (numbers.signed imm) rs1
  print_i instr rd imm rs1 = three_operands (i_name instr) rd rs1 (numbers.signed imm)

  unfoldable pub print_instr : Instr IR IW FR FW → String
  unfolding print_io print_float print_i two_operands three_operands at_address r_name s_name b_name
      j_name
  print_instr (r_fmt instr rd rs1 rs2) = three_operands (r_name instr) (iw rd) (ir rs1) (ir rs2)
  print_instr (i_fmt instr rd rs1 imm) = print_i instr (iw rd) imm (ir rs1)
  print_instr (s_fmt instr rs1 rs2 imm) =
      at_address (s_name instr) (ir rs2) (numbers.signed imm) (ir rs1)
  print_instr (b_fmt instr rs1 rs2 imm) =
      three_operands (b_name instr) (ir rs1) (ir rs2) (numbers.signed imm)
  print_instr (p_fmt instr _ _ _) = elim instr [ ]
  print_instr (j_fmt instr rd imm) = two_operands (j_name instr) (iw rd) (numbers.signed imm)
  print_instr (io_fmt instr) = print_io instr
  print_instr (f_fmt instr) = print_float instr
  print_instr (misc_fmt end_instr) = "end"
