-- ===== src/Cpu/OperandsSafe.antt =====
-- `reg_fetch` of core_sim/src/cpu.rs on registers that exist.
use cpuex2022_7_simulator.Common.{ℕ, ◌>>=◌, Exec, Post, Post-bind, returns}
use cpuex2022_7_simulator.Register.{RegId, FRegId}
use cpuex2022_7_simulator.RegFile.{RegFile, get, get_f}
use cpuex2022_7_simulator.RegFile.Access.{IsValid}
use cpuex2022_7_simulator.RegFile.Safe.{get-Post, get_f-Post}
use cpuex2022_7_simulator.Instr.{
  outb, inw, finw, FInstr, e_fmt, g_fmt, h_fmt, k_fmt, x_fmt, y_fmt, w_fmt, v_fmt, flw, fsw,
  end_instr, r_fmt, i_fmt, s_fmt, b_fmt, p_fmt, j_fmt, io_fmt, f_fmt, misc_fmt, DecodedInstr,
}
use cpuex2022_7_simulator.Cpu.Targets.{Exists, FRegs, AnyValue, RegsExist, TargetsExist}
use cpuex2022_7_simulator.Cpu.Operands.{fetch_f, fetch}

module _ {F E : Type 0} (zero_f : F) where
  module _ {B : Type 0} {R : B → RegFile F → Type 0} (rf : RegFile F) (v : IsValid zero_f rf)
      (id : ℕ) (h : Exists id) where
    read :
        (k : ℕ → Exec (RegFile F) E B)
        → ((a : ℕ) (rf' : RegFile F) → IsValid zero_f rf' → Post R (IsValid zero_f) (k a rf'))
        → Post R (IsValid zero_f) ((get id >>= k) rf)
    read k next = Post-bind (get id) k rf (get-Post zero_f rf v id h) next

    read_f :
        (k : F → Exec (RegFile F) E B)
        → ((a : F) (rf' : RegFile F) → IsValid zero_f rf' → Post R (IsValid zero_f) (k a rf'))
        → Post R (IsValid zero_f) ((get_f id >>= k) rf)
    read_f k next = Post-bind (get_f id) k rf (get_f-Post zero_f rf v id h) next

  fetch_f-Post :
      (f : FInstr RegId RegId FRegId FRegId) (rf : RegFile F)
      → FRegs Exists Exists f
      → IsValid zero_f rf
      → Post
          (λ g rf'. FRegs (AnyValue {A = ℕ}) (AnyValue {A = F}) g × IsValid zero_f rf')
          (IsValid zero_f)
          (fetch_f {F = F} {E = E} f rf)
  unfolding fetch_f
  fetch_f-Post (e_fmt instr rd rs1 rs2) rf (d, h1, h2) v =
      read_f rf v rs1 h1 _
        (λ a rf1 v1. read_f rf1 v1 rs2 h2 _ (λ b rf2 v2. returns ((d, tt, tt), v2)))
  fetch_f-Post (g_fmt instr rd rs1 rs2 rs3) rf h v = elim instr [ ]
  fetch_f-Post (h_fmt instr rd rs1) rf (d, h1) v =
      read_f rf v rs1 h1 _ (λ a rf1 v1. returns ((d, tt), v1))
  fetch_f-Post (k_fmt instr rd rs1 rs2) rf (d, h1, h2) v =
      read_f rf v rs1 h1 _
        (λ a rf1 v1. read_f rf1 v1 rs2 h2 _ (λ b rf2 v2. returns ((d, tt, tt), v2)))
  fetch_f-Post (x_fmt instr rd rs1) rf (d, h1) v =
      read rf v rs1 h1 _ (λ a rf1 v1. returns ((d, tt), v1))
  fetch_f-Post (y_fmt instr rd rs1) rf (d, h1) v =
      read_f rf v rs1 h1 _ (λ a rf1 v1. returns ((d, tt), v1))
  fetch_f-Post (w_fmt instr rs1 rs2 imm) rf (h1, h2) v =
      read_f rf v rs1 h1 _ (λ a rf1 v1. read_f rf1 v1 rs2 h2 _ (λ b rf2 v2. returns ((tt, tt), v2)))
  fetch_f-Post (v_fmt instr rs1 imm) rf h1 v = read_f rf v rs1 h1 _ (λ a rf1 v1. returns (tt, v1))
  fetch_f-Post (flw rd rs1 imm) rf (d, h1) v =
      read rf v rs1 h1 _ (λ a rf1 v1. returns ((d, tt), v1))
  fetch_f-Post (fsw rs2 rs1 imm) rf (h2, h1) v =
      read_f rf v rs2 h2 _ (λ b rf1 v1. read rf1 v1 rs1 h1 _ (λ a rf2 v2. returns ((tt, tt), v2)))

  pub fetch-Post :
      (instr : DecodedInstr) (rf : RegFile F)
      → RegsExist instr
      → IsValid zero_f rf
      → Post
          (λ fetched rf'. TargetsExist fetched × IsValid zero_f rf')
          (IsValid zero_f)
          (fetch {F = F} {E = E} instr rf)
  unfolding fetch
  fetch-Post (r_fmt instr rd rs1 rs2) rf (d, h1, h2) v =
      read rf v rs1 h1 _ (λ a rf1 v1. read rf1 v1 rs2 h2 _ (λ b rf2 v2. returns ((d, tt, tt), v2)))
  fetch-Post (i_fmt instr rd rs1 imm) rf (d, h1) v =
      read rf v rs1 h1 _ (λ a rf1 v1. returns ((d, tt), v1))
  fetch-Post (s_fmt instr rs1 rs2 imm) rf (h1, h2) v =
      read rf v rs1 h1 _ (λ a rf1 v1. read rf1 v1 rs2 h2 _ (λ b rf2 v2. returns ((tt, tt), v2)))
  fetch-Post (b_fmt instr rs1 rs2 imm) rf (h1, h2) v =
      read rf v rs1 h1 _ (λ a rf1 v1. read rf1 v1 rs2 h2 _ (λ b rf2 v2. returns ((tt, tt), v2)))
  fetch-Post (p_fmt instr rs1 imm imm2) rf h v = elim instr [ ]
  fetch-Post (j_fmt instr rd imm) rf d v = returns (d, v)
  fetch-Post (io_fmt (outb rs)) rf h v = read rf v rs h _ (λ a rf1 v1. returns (tt, v1))
  fetch-Post (io_fmt (inw rd)) rf d v = returns (d, v)
  fetch-Post (io_fmt (finw rd)) rf d v = returns (d, v)
  fetch-Post (f_fmt f) rf h v =
      Post-bind (fetch_f f) _ rf (fetch_f-Post f rf h v) (λ g rf1 r. returns r)
  fetch-Post (misc_fmt end_instr) rf h v = returns (tt, v)
