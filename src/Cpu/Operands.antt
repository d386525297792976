-- ===== src/Cpu/Operands.antt =====
-- `reg_fetch` of core_sim/src/cpu.rs: the registers that an instruction reads, in the order in
-- which they are read.
use cpuex2022_7_simulator.Common.{ℕ, Exec, ◌>>=◌, pure}
use cpuex2022_7_simulator.Register.{RegId, FRegId}
use cpuex2022_7_simulator.RegFile.{RegFile, get, get_f}
use cpuex2022_7_simulator.Instr.{
  outb, inw, finw, FInstr, e_fmt, g_fmt, h_fmt, k_fmt, x_fmt, y_fmt, w_fmt, v_fmt, flw, fsw,
  end_instr, Instr, r_fmt, i_fmt, s_fmt, b_fmt, p_fmt, j_fmt, io_fmt, f_fmt, misc_fmt, DecodedInstr,
}
use cpuex2022_7_simulator.Cpu.State.{RegFetchInput, ExecuteInput, Cpu, in_reg_file}

module _ {F E : Type 0} where
  unfoldable pub fetch_f :
      FInstr RegId RegId FRegId FRegId → Exec (RegFile F) E (FInstr ℕ RegId F FRegId)
  fetch_f (e_fmt instr rd rs1 rs2) = do a ← get_f rs1; b ← get_f rs2; pure (e_fmt instr rd a b)
  fetch_f (g_fmt instr rd rs1 rs2 rs3) = do
    a ← get_f rs1
    b ← get_f rs2
    c ← get_f rs3
    pure (g_fmt instr rd a b c)
  fetch_f (h_fmt instr rd rs1) = do a ← get_f rs1; pure (h_fmt instr rd a)
  fetch_f (k_fmt instr rd rs1 rs2) = do a ← get_f rs1; b ← get_f rs2; pure (k_fmt instr rd a b)
  fetch_f (x_fmt instr rd rs1) = do a ← get rs1; pure (x_fmt instr rd a)
  fetch_f (y_fmt instr rd rs1) = do a ← get_f rs1; pure (y_fmt instr rd a)
  fetch_f (w_fmt instr rs1 rs2 imm) = do a ← get_f rs1; b ← get_f rs2; pure (w_fmt instr a b imm)
  fetch_f (v_fmt instr rs1 imm) = do a ← get_f rs1; pure (v_fmt instr a imm)
  fetch_f (flw rd rs1 imm) = do a ← get rs1; pure (flw rd a imm)
  fetch_f (fsw rs2 rs1 imm) = do b ← get_f rs2; a ← get rs1; pure (fsw b a imm)

  unfoldable pub fetch : DecodedInstr → Exec (RegFile F) E (Instr ℕ RegId F FRegId)
  unfolding fetch_f
  fetch (r_fmt instr rd rs1 rs2) = do a ← get rs1; b ← get rs2; pure (r_fmt instr rd a b)
  fetch (i_fmt instr rd rs1 imm) = do a ← get rs1; pure (i_fmt instr rd a imm)
  fetch (s_fmt instr rs1 rs2 imm) = do a ← get rs1; b ← get rs2; pure (s_fmt instr a b imm)
  fetch (b_fmt instr rs1 rs2 imm) = do a ← get rs1; b ← get rs2; pure (b_fmt instr a b imm)
  fetch (p_fmt instr rs1 imm imm2) = do a ← get rs1; pure (p_fmt instr a imm imm2)
  fetch (j_fmt instr rd imm) = pure (j_fmt instr rd imm)
  fetch (io_fmt (outb rs)) = do a ← get rs; pure (io_fmt (outb a))
  fetch (io_fmt (inw rd)) = pure (io_fmt (inw rd))
  fetch (io_fmt (finw rd)) = pure (io_fmt (finw rd))
  fetch (f_fmt f) = do g ← fetch_f f; pure (f_fmt g)
  fetch (misc_fmt end_instr) = pure (misc_fmt end_instr)

unfoldable pub reg_fetch : {F I O E : Type 0} → RegFetchInput → Exec (Cpu F I O) E (ExecuteInput F)
reg_fetch w = do
  instr ← in_reg_file (fetch w.instr)
  pure (record { instr = instr; old_pc = w.old_pc; pc_plus4 = w.pc_plus4 })
