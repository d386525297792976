-- ===== src/Cpu/Targets.antt =====
-- The registers that an instruction of core_sim/src/cpu.rs names, and those that its stages hand on.
use cpuex2022_7_simulator.Common.{ℕ, ◌<◌, Option, none, some}
use cpuex2022_7_simulator.Register.{RegId, FRegId, max_reg_id}
use cpuex2022_7_simulator.Instr.{
  outb, inw, finw, FInstr, e_fmt, g_fmt, h_fmt, k_fmt, x_fmt, y_fmt, w_fmt, v_fmt, flw, fsw,
  IoInstr, Instr, r_fmt, i_fmt, s_fmt, b_fmt, p_fmt, j_fmt, io_fmt, f_fmt, misc_fmt, DecodedInstr,
}
use cpuex2022_7_simulator.Cpu.State.{
  MemoryAccessInput, store_i, store_f, load_i, load_f, WriteBackInput, write_i, write_f,
}

abbrev pub Exists : ℕ → Type 0
Exists id = id < max_reg_id

module _ {IR FR : Type 0} (Source : IR → Type 0) (SourceF : FR → Type 0) where
  abbrev pub IoRegs : IoInstr IR RegId FRegId → Type 0
  IoRegs (outb rs) = Source rs
  IoRegs (inw rd) = Exists rd
  IoRegs (finw rd) = Exists rd

  abbrev pub FRegs : FInstr IR RegId FR FRegId → Type 0
  FRegs (e_fmt _ rd rs1 rs2) = Exists rd × SourceF rs1 × SourceF rs2
  FRegs (g_fmt _ rd rs1 rs2 rs3) = Exists rd × SourceF rs1 × SourceF rs2 × SourceF rs3
  FRegs (h_fmt _ rd rs1) = Exists rd × SourceF rs1
  FRegs (k_fmt _ rd rs1 rs2) = Exists rd × SourceF rs1 × SourceF rs2
  FRegs (x_fmt _ rd rs1) = Exists rd × Source rs1
  FRegs (y_fmt _ rd rs1) = Exists rd × SourceF rs1
  FRegs (w_fmt _ rs1 rs2 _) = SourceF rs1 × SourceF rs2
  FRegs (v_fmt _ rs1 _) = SourceF rs1
  FRegs (flw rd rs1 _) = Exists rd × Source rs1
  FRegs (fsw rs2 rs1 _) = SourceF rs2 × Source rs1

  abbrev pub Regs : Instr IR RegId FR FRegId → Type 0
  Regs (r_fmt _ rd rs1 rs2) = Exists rd × Source rs1 × Source rs2
  Regs (i_fmt _ rd rs1 _) = Exists rd × Source rs1
  Regs (s_fmt _ rs1 rs2 _) = Source rs1 × Source rs2
  Regs (b_fmt _ rs1 rs2 _) = Source rs1 × Source rs2
  Regs (p_fmt _ rs1 _ _) = Source rs1
  Regs (j_fmt _ rd _) = Exists rd
  Regs (io_fmt io) = IoRegs io
  Regs (f_fmt f) = FRegs f
  Regs (misc_fmt _) = Unit {0}

-- every register of a decoded instruction, and every target of one whose operands are fetched
abbrev pub RegsExist : DecodedInstr → Type 0
RegsExist instr = Regs Exists Exists instr

abbrev pub AnyValue : {A : Type 0} → A → Type 0
AnyValue _ = Unit {0}

abbrev pub TargetsExist : {F : Type 0} → Instr ℕ RegId F FRegId → Type 0
TargetsExist {F} instr = Regs (AnyValue {A = ℕ}) (AnyValue {A = F}) instr

module _ {F : Type 0} where
  abbrev pub WriteExists : Option (WriteBackInput F) → Type 0
  WriteExists none = Unit {0}
  WriteExists (some (write_i id _)) = Exists id
  WriteExists (some (write_f id _)) = Exists id

  abbrev pub AccessExists : Option (MemoryAccessInput F) → Type 0
  AccessExists none = Unit {0}
  AccessExists (some (store_i _ _)) = Unit {0}
  AccessExists (some (store_f _ _)) = Unit {0}
  AccessExists (some (load_i id _)) = Exists id
  AccessExists (some (load_f id _)) = Exists id
