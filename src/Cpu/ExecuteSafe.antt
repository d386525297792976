-- ===== src/Cpu/ExecuteSafe.antt =====
-- `execute` of core_sim/src/cpu.rs on the states of Cpu/Valid.
use cpuex2022_7_simulator.Common.{
  ℕ, arith, Bool, Exec, map_err, Post, Post-bind, Post-within, Post-map_err, returns, u8,
  Post-weaken,
}
use cpuex2022_7_simulator.Float.{Float32}
use cpuex2022_7_simulator.Memory.{Memory}
use cpuex2022_7_simulator.Register.{RegId, FRegId}
use cpuex2022_7_simulator.BranchPredictor.{predict, update_state, num_counters}
use cpuex2022_7_simulator.BranchPredictor.Safe.{predict-Post, update_state-Post}
use cpuex2022_7_simulator.Instr.{
  IInstr, addi, xori, ori, andi, slli, slti, lw, jalr, sw, jal, IoInstr, outb, inw, finw, FInstr,
  e_fmt, g_fmt, h_fmt, k_fmt, x_fmt, y_fmt, w_fmt, v_fmt, flw, fsw, end_instr, flt, fitof, Instr,
  r_fmt, i_fmt, s_fmt, b_fmt, p_fmt, j_fmt, io_fmt, f_fmt, misc_fmt,
}
use cpuex2022_7_simulator.Cpu.State.{
  AnyhowError, anyhow, Ports, ExecuteInput, ExecuteOutput, Cpu, in_predictor, in_input, in_output,
}
use cpuex2022_7_simulator.Cpu.Execute.{
  execute, execute_instr, execute_f, execute_io, execute_i, branch, b_cond, w_cond, v_cond,
}
use cpuex2022_7_simulator.Cpu.Targets.{
  Exists, WriteExists, AccessExists, TargetsExist, FRegs, IoRegs, AnyValue,
}
use cpuex2022_7_simulator.Cpu.Valid.{IsValid, with_predictor}

-- The input and the output do not panic, whatever their state.
pub record NoPanic {F I O : Type 0} (ports : Ports F I O) : Type 0 where
  pub inw : (i : I) → Post (λ (_ : ℕ) (_ : I). Unit {0}) (λ (_ : I). Unit {0}) (ports.inw i)
  pub finw : (i : I) → Post (λ (_ : F) (_ : I). Unit {0}) (λ (_ : I). Unit {0}) (ports.finw i)
  pub outb :
      (byte : ℕ) (o : O)
      → Post (λ (_ : Unit {0}) (_ : O). Unit {0}) (λ (_ : O). Unit {0}) (ports.outb byte o)

abbrev pub OutputExists : {F : Type 0} → ExecuteOutput F → Type 0
OutputExists out = AccessExists out.ma_in × WriteExists out.wb_in

module _ (fl : Float32) (size nlines : ℕ) (text : Memory) {I O : Type 0} (ports : Ports fl.F I O)
    (np : NoPanic ports) where
  open fl use {F}

  abbrev Valid : Cpu F I O → Type 0
  Valid c = IsValid fl.zero size nlines text c

  abbrev Good : ExecuteOutput F → Cpu F I O → Type 0
  Good out c = OutputExists out × Valid c

  branch-Post :
      (cond : Bool) (old_pc imm : ℕ) (c : Cpu F I O)
      → Valid c
      → Post Good Valid (branch fl ports cond old_pc imm c)
  unfolding branch
  branch-Post cond old_pc imm c v =
      Post-bind {Q = λ (_ : Bool). Valid} (in_predictor (predict num_counters c.pc)) _ c
        (Post-within (λ c'. c'.branch_predictor) (λ part c'. record c' { branch_predictor = part })
          (predict num_counters c.pc) c
          (Post-weaken (predict-Post num_counters c.pc c.branch_predictor (omega arith) v.counters)
            (λ a b h. with_predictor v h) (λ b h. with_predictor v h)))
        (λ predicted c1 v1.
          Post-bind {Q = λ (_ : Unit {0}). Valid}
            (in_predictor (update_state num_counters c.pc cond)) _ c1
            (Post-within (λ c'. c'.branch_predictor)
              (λ part c'. record c' { branch_predictor = part })
              (update_state num_counters c.pc cond) c1
              (Post-weaken
                (update_state-Post num_counters c.pc c1.branch_predictor (omega arith) v1.counters
                  cond)
                (λ a b h. with_predictor v1 h) (λ b h. with_predictor v1 h)))
            (λ _ c2 v2. returns ((tt, tt), v2)))

  execute_i-OutputExists :
      (instr : IInstr) (rd a imm pc_plus4 : ℕ)
      → Exists rd
      → OutputExists (execute_i fl ports instr rd a imm pc_plus4)
  unfolding execute_i
  execute_i-OutputExists addi rd a imm pc_plus4 h = (tt, h)
  execute_i-OutputExists xori rd a imm pc_plus4 h = (tt, h)
  execute_i-OutputExists ori rd a imm pc_plus4 h = (tt, h)
  execute_i-OutputExists andi rd a imm pc_plus4 h = (tt, h)
  execute_i-OutputExists slli rd a imm pc_plus4 h = (tt, h)
  execute_i-OutputExists slti rd a imm pc_plus4 h = (tt, h)
  execute_i-OutputExists lw rd a imm pc_plus4 h = (h, tt)
  execute_i-OutputExists jalr rd a imm pc_plus4 h = (tt, h)

  -- A call on the input or the output changes nothing that `IsValid` reads.
  input-Post :
      {A : Type 0} (m : Exec I AnyhowError A) (c : Cpu F I O)
      → Valid c
      → Post (λ (_ : A) (_ : I). Unit {0}) (λ (_ : I). Unit {0}) (m c.input)
      → Post (λ (_ : A). Valid) Valid (map_err anyhow (in_input {F = F} {O = O} m) c)
  input-Post m c v h = Post-map_err anyhow (in_input m) c (
      Post-within (λ c'. c'.input) (λ part c'. record c' { input = part }) m c
        (Post-weaken h (λ a i u. v) (λ i u. v)))

  output-Post :
      {A : Type 0} (m : Exec O AnyhowError A) (c : Cpu F I O)
      → Valid c
      → Post (λ (_ : A) (_ : O). Unit {0}) (λ (_ : O). Unit {0}) (m c.output)
      → Post (λ (_ : A). Valid) Valid (map_err anyhow (in_output {F = F} {I = I} m) c)
  output-Post m c v h = Post-map_err anyhow (in_output m) c (
      Post-within (λ c'. c'.output) (λ part c'. record c' { output = part }) m c
        (Post-weaken h (λ a i u. v) (λ i u. v)))

  execute_io-Post :
      (io : IoInstr ℕ RegId FRegId) (c : Cpu F I O)
      → IoRegs (AnyValue {A = ℕ}) (AnyValue {A = F}) io
      → Valid c
      → Post Good Valid (execute_io fl ports io c)
  unfolding execute_io
  execute_io-Post (outb rs) c h v =
      Post-bind (map_err anyhow (in_output (ports.outb (u8 rs)))) _ c
        (output-Post (ports.outb (u8 rs)) c v (np.outb (u8 rs) c.output))
        (λ _ c1 v1. returns ((tt, tt), v1))
  execute_io-Post (inw rd) c h v =
      Post-bind (map_err anyhow (in_input ports.inw)) _ c
        (input-Post ports.inw c v (np.inw c.input)) (λ val c1 v1. returns ((tt, h), v1))
  execute_io-Post (finw rd) c h v =
      Post-bind (map_err anyhow (in_input ports.finw)) _ c
        (input-Post ports.finw c v (np.finw c.input)) (λ val c1 v1. returns ((tt, h), v1))

  execute_f-Post :
      (f : FInstr ℕ RegId F FRegId) (old_pc : ℕ) (c : Cpu F I O)
      → FRegs (AnyValue {A = ℕ}) (AnyValue {A = F}) f
      → Valid c
      → Post Good Valid (execute_f fl ports f old_pc c)
  unfolding execute_f
  execute_f-Post (e_fmt instr rd a b) old_pc c h v = returns ((tt, h.0), v)
  execute_f-Post (g_fmt instr rd a b d) old_pc c h v = elim instr [ ]
  execute_f-Post (h_fmt instr rd a) old_pc c h v = returns ((tt, h.0), v)
  execute_f-Post (k_fmt flt rd a b) old_pc c h v = returns ((tt, h.0), v)
  execute_f-Post (x_fmt fitof rd a) old_pc c h v = returns ((tt, h.0), v)
  execute_f-Post (y_fmt instr rd a) old_pc c h v = returns ((tt, h.0), v)
  execute_f-Post (w_fmt instr a b imm) old_pc c h v =
      branch-Post (w_cond fl instr a b) old_pc imm c v
  execute_f-Post (v_fmt instr a imm) old_pc c h v = branch-Post (v_cond fl instr a) old_pc imm c v
  execute_f-Post (flw rd a imm) old_pc c h v = returns ((h.0, tt), v)
  execute_f-Post (fsw b a imm) old_pc c h v = returns ((tt, tt), v)

  execute_instr-Post :
      (instr : Instr ℕ RegId F FRegId) (old_pc pc_plus4 : ℕ) (c : Cpu F I O)
      → TargetsExist instr
      → Valid c
      → Post Good Valid (execute_instr fl ports instr old_pc pc_plus4 c)
  unfolding execute_instr
  execute_instr-Post (r_fmt instr rd a b) old_pc pc_plus4 c h v = returns ((tt, h.0), v)
  execute_instr-Post (i_fmt instr rd a imm) old_pc pc_plus4 c h v =
      returns (execute_i-OutputExists instr rd a imm pc_plus4 h.0, v)
  execute_instr-Post (s_fmt sw a b imm) old_pc pc_plus4 c h v = returns ((tt, tt), v)
  execute_instr-Post (b_fmt instr a b imm) old_pc pc_plus4 c h v =
      branch-Post (b_cond instr a b) old_pc imm c v
  execute_instr-Post (p_fmt instr a imm imm2) old_pc pc_plus4 c h v = elim instr [ ]
  execute_instr-Post (j_fmt jal rd imm) old_pc pc_plus4 c h v = returns ((tt, h), v)
  execute_instr-Post (io_fmt io) old_pc pc_plus4 c h v = execute_io-Post io c h v
  execute_instr-Post (f_fmt f) old_pc pc_plus4 c h v = execute_f-Post f old_pc c h v
  execute_instr-Post (misc_fmt end_instr) old_pc pc_plus4 c h v = returns ((tt, tt), v)

  pub execute-Post :
      (ex_in : ExecuteInput F) (c : Cpu F I O)
      → TargetsExist ex_in.instr
      → Valid c
      → Post Good Valid (execute fl ports ex_in c)
  unfolding execute
  execute-Post ex_in c h v = execute_instr-Post ex_in.instr ex_in.old_pc ex_in.pc_plus4 c h v
