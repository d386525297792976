-- ===== src/Instr/Id/Laws.antt =====
-- `InstrId` of core_sim/src/instr.rs against the instructions and their names.
use Prim.Native.String.{String}
use cpuex2022_7_simulator.Common.{ℕ, ◌<◌, ◌≡◌, refl, arith, some, ok}
use cpuex2022_7_simulator.Instr.{
  add, addi, sw, beq, jal, outb, inw, finw, fadd, fsqrt, flt, fitof, fiszero, fblt, fbeqz, FInstr,
  e_fmt, g_fmt, h_fmt, k_fmt, x_fmt, y_fmt, w_fmt, v_fmt, flw, fsw, end_instr, Instr, r_fmt, i_fmt,
  s_fmt, b_fmt, p_fmt, j_fmt, io_fmt, f_fmt, misc_fmt,
}
use cpuex2022_7_simulator.Instr.Id.{
  max_id, r_name, i_name, s_name, b_name, j_name, e_name, h_name, k_name, x_name, y_name, w_name,
  v_name, try_from, display, id,
}

module _ {IR IW FR FW : Type 0} where
  -- The name at the head of an instruction as `Display` prints it.
  unfoldable pub f_mnemonic : FInstr IR IW FR FW → String
  f_mnemonic (e_fmt instr _ _ _) = e_name instr
  f_mnemonic (g_fmt instr _ _ _ _) = elim instr [ ]
  f_mnemonic (h_fmt instr _ _) = h_name instr
  f_mnemonic (k_fmt instr _ _ _) = k_name instr
  f_mnemonic (x_fmt instr _ _) = x_name instr
  f_mnemonic (y_fmt instr _ _) = y_name instr
  f_mnemonic (w_fmt instr _ _ _) = w_name instr
  f_mnemonic (v_fmt instr _ _) = v_name instr
  f_mnemonic (flw _ _ _) = "flw"
  f_mnemonic (fsw _ _ _) = "fsw"

  unfoldable pub mnemonic : Instr IR IW FR FW → String
  unfolding f_mnemonic
  mnemonic (r_fmt instr _ _ _) = r_name instr
  mnemonic (i_fmt instr _ _ _) = i_name instr
  mnemonic (s_fmt instr _ _ _) = s_name instr
  mnemonic (b_fmt instr _ _ _) = b_name instr
  mnemonic (p_fmt instr _ _ _) = elim instr [ ]
  mnemonic (j_fmt instr _ _) = j_name instr
  mnemonic (io_fmt (outb _)) = "outb"
  mnemonic (io_fmt (inw _)) = "inw"
  mnemonic (io_fmt (finw _)) = "finw"
  mnemonic (f_fmt f) = f_mnemonic f
  mnemonic (misc_fmt end_instr) = "end"

abbrev Good : ℕ → String → Type 0
Good i name = (i < max_id) × (try_from i ≡ ok i) × (display i ≡ some name)

module _ {IR IW FR FW : Type 0} where
  f_id-Good : (f : FInstr IR IW FR FW) → Good (id (f_fmt f)) (mnemonic (f_fmt f))
  unfolding id mnemonic try_from display
  f_id-Good (e_fmt fadd a b c) = (omega arith, refl, refl)
  f_id-Good (e_fmt _ a b c) = (omega arith, refl, refl)
  f_id-Good (h_fmt fsqrt a b) = (omega arith, refl, refl)
  f_id-Good (h_fmt _ a b) = (omega arith, refl, refl)
  f_id-Good (k_fmt flt a b c) = (omega arith, refl, refl)
  f_id-Good (x_fmt fitof a b) = (omega arith, refl, refl)
  f_id-Good (y_fmt fiszero a b) = (omega arith, refl, refl)
  f_id-Good (y_fmt _ a b) = (omega arith, refl, refl)
  f_id-Good (w_fmt fblt a b c) = (omega arith, refl, refl)
  f_id-Good (w_fmt _ a b c) = (omega arith, refl, refl)
  f_id-Good (v_fmt fbeqz a b) = (omega arith, refl, refl)
  f_id-Good (v_fmt _ a b) = (omega arith, refl, refl)
  f_id-Good (g_fmt instr _ _ _ _) = elim instr [ ]
  f_id-Good (flw _ _ _) = (omega arith, refl, refl)
  f_id-Good (fsw _ _ _) = (omega arith, refl, refl)

  -- The id of an instruction is below `MAX`, so that its counter exists, `try_from` accepts it, and
  -- it prints as the name of the instruction.
  pub id-Good :
      (i : Instr IR IW FR FW)
      → (id i < max_id) × (try_from (id i) ≡ ok (id i)) × (display (id i) ≡ some (mnemonic i))
  unfolding id mnemonic try_from display
  id-Good (r_fmt add a b c) = (omega arith, refl, refl)
  id-Good (r_fmt _ a b c) = (omega arith, refl, refl)
  id-Good (i_fmt addi a b c) = (omega arith, refl, refl)
  id-Good (i_fmt _ a b c) = (omega arith, refl, refl)
  id-Good (s_fmt sw a b c) = (omega arith, refl, refl)
  id-Good (b_fmt beq a b c) = (omega arith, refl, refl)
  id-Good (b_fmt _ a b c) = (omega arith, refl, refl)
  id-Good (j_fmt jal a b) = (omega arith, refl, refl)
  id-Good (p_fmt instr _ _ _) = elim instr [ ]
  id-Good (io_fmt (outb _)) = (omega arith, refl, refl)
  id-Good (io_fmt (inw _)) = (omega arith, refl, refl)
  id-Good (io_fmt (finw _)) = (omega arith, refl, refl)
  id-Good (f_fmt f) = f_id-Good f
  id-Good (misc_fmt end_instr) = (omega arith, refl, refl)
