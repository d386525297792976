-- ===== src/Cpu/Execute.antt =====
-- `execute` of core_sim/src/cpu.rs. The source's `match` on the instruction is one function for
-- each format. Results that go to `usize` are `u32`s, so `as usize` does nothing.
use cpuex2022_7_simulator.Common.{
  ℕ, bit_and, bit_or, bit_xor, Bool, true, not, none, some, ◌==◌, if◌then◌else◌, Exec, ◌>>=◌, ◌>>◌,
  pure, modify, map_err, wrapping_add, wrapping_sub, shl, shr, u8, ltb_i32, leb_i32, u32_of_bool,
}
use cpuex2022_7_simulator.Float.{Float32, fmul, fdiv, fsqrt, fhalf, ffloor, fcvtsw, fcvtws}
use cpuex2022_7_simulator.Register.{RegId, FRegId}
use cpuex2022_7_simulator.BranchPredictor.{predict, update_state, num_counters}
use cpuex2022_7_simulator.Instr.{
  RInstr, add, sub, xor, or, and, sll, sra, slt, IInstr, addi, xori, ori, andi, slli, slti, lw,
  jalr, sw, BInstr, beq, bne, blt, bge, jal, IoInstr, outb, inw, finw, EInstr, fadd, fsub, fsgnj,
  fsgnjn, fsgnjx, HInstr, YInstr, fiszero, fispos, fisneg, fftoi, WInstr, fblt, fbge, VInstr, fbeqz,
  fbnez, FInstr, e_fmt, g_fmt, h_fmt, k_fmt, x_fmt, y_fmt, w_fmt, v_fmt, flw, fsw, end_instr, flt,
  fitof, Instr, r_fmt, i_fmt, s_fmt, b_fmt, p_fmt, j_fmt, io_fmt, f_fmt, misc_fmt,
}
use cpuex2022_7_simulator.Cpu.State.{
  RuntimeError, anyhow, Ports, ExecuteInput, ExecuteOutput, default_output, store_i, store_f,
  load_i, load_f, write_i, write_f, Cpu, in_predictor, in_input, in_output,
}
use cpuex2022_7_simulator.Cpu.Stat.{update_branch}

-- `Sra` shifts a `u32`, so zeros come in.
unfoldable pub r_value : RInstr → ℕ → ℕ → ℕ
r_value add a b = wrapping_add a b
r_value sub a b = wrapping_sub a b
r_value xor a b = bit_xor a b
r_value or a b = bit_or a b
r_value and a b = bit_and a b
r_value sll a b = shl a b
r_value sra a b = shr a b
r_value slt a b = u32_of_bool (ltb_i32 a b)

unfoldable pub b_cond : BInstr → ℕ → ℕ → Bool
b_cond beq a b = a == b
b_cond bne a b = not (a == b)
b_cond blt a b = ltb_i32 a b
b_cond bge a b = leb_i32 b a

unfoldable pub e_cycles : EInstr → ℕ
e_cycles fadd = 5
e_cycles fsub = 5
e_cycles EInstr.fmul = 2
e_cycles EInstr.fdiv = 11
e_cycles fsgnj = 1
e_cycles fsgnjn = 1
e_cycles fsgnjx = 1

unfoldable pub h_cycles : HInstr → ℕ
h_cycles HInstr.fsqrt = 8
h_cycles HInstr.fhalf = 1
h_cycles HInstr.ffloor = 8

unfoldable pub y_cycles : YInstr → ℕ
y_cycles fiszero = 1
y_cycles fispos = 1
y_cycles fisneg = 1
y_cycles fftoi = 2

module _ (fl : Float32) where
  open fl use {F}

  unfoldable pub e_value : EInstr → F → F → F
  unfolding fmul fdiv
  e_value fadd a b = fl.add a b
  e_value fsub a b = fl.sub a b
  e_value EInstr.fmul a b = fmul fl a b
  e_value EInstr.fdiv a b = fdiv fl a b
  e_value fsgnj a b = fl.copysign a b
  e_value fsgnjn a b = fl.copysign a (fl.neg b)
  e_value fsgnjx a b = fl.copysign a (fl.mul (fl.signum a) (fl.signum b))

  unfoldable pub h_value : HInstr → F → F
  unfolding fsqrt fhalf ffloor
  h_value HInstr.fsqrt a = fsqrt fl a
  h_value HInstr.fhalf a = fhalf fl a
  h_value HInstr.ffloor a = ffloor fl a

  unfoldable pub y_value : YInstr → F → ℕ
  unfolding fcvtws
  y_value fiszero a = u32_of_bool (fl.eq a fl.zero)
  y_value fispos a = u32_of_bool (fl.lt fl.zero a)
  y_value fisneg a = u32_of_bool (fl.lt a fl.zero)
  y_value fftoi a = fcvtws fl a

  unfoldable pub w_cond : WInstr → F → F → Bool
  w_cond fblt a b = fl.lt a b
  w_cond fbge a b = fl.ge a b

  unfoldable pub v_cond : VInstr → F → Bool
  v_cond fbeqz a = fl.eq a fl.zero
  v_cond fbnez a = not (fl.eq a fl.zero)

  module _ {I O : Type 0} (ports : Ports F I O) where
    abbrev Execute : Type 0
    Execute = Exec (Cpu F I O) RuntimeError (ExecuteOutput F)

    -- The `match` of the `I` format: `lw` returns early, `jalr` flushes. `cycles` stays 0.
    unfoldable pub execute_i : IInstr → RegId → ℕ → ℕ → ℕ → ExecuteOutput F
    execute_i addi rd a imm pc_plus4 = record default_output {
      wb_in = some (write_i rd (wrapping_add a imm));
    }
    execute_i xori rd a imm pc_plus4 = record default_output {
      wb_in = some (write_i rd (bit_xor a imm));
    }
    execute_i ori rd a imm pc_plus4 = record default_output {
      wb_in = some (write_i rd (bit_or a imm));
    }
    execute_i andi rd a imm pc_plus4 = record default_output {
      wb_in = some (write_i rd (bit_and a imm));
    }
    execute_i slli rd a imm pc_plus4 = record default_output {
      wb_in = some (write_i rd (shl a imm));
    }
    execute_i slti rd a imm pc_plus4 = record default_output {
      wb_in = some (write_i rd (u32_of_bool (ltb_i32 a imm)));
    }
    execute_i lw rd a imm pc_plus4 = record default_output {
      ma_in = some (load_i rd (wrapping_add a imm));
    }
    execute_i jalr rd a imm pc_plus4 = record default_output {
      flush = true;
      new_pc = some (wrapping_add a imm);
      wb_in = some (write_i rd pc_plus4);
    }

    -- What the formats `B`, `W` and `V` do once `cond` is known: the predictor is read and
    -- updated at the program counter, which has moved on by 4.
    unfoldable pub branch : Bool → ℕ → ℕ → Execute
    unfolding predict update_state update_branch
    branch cond old_pc imm c =
        (do
          prediction_result ← in_predictor (predict num_counters c.pc)
          in_predictor (update_state num_counters c.pc cond)
          modify (λ c'. record c' { b_stat = update_branch prediction_result cond c'.b_stat })
          pure (record default_output {
            new_pc = if cond then some (wrapping_add old_pc imm) else none;
            flush = if prediction_result then not cond else cond;
            cycles = 1;
          }))
          c

    unfoldable pub execute_io : IoInstr ℕ RegId FRegId → Execute
    execute_io (outb rs) = do
      map_err anyhow (in_output (ports.outb (u8 rs)))
      pure (record default_output { cycles = 1 })
    execute_io (inw rd) = do
      val ← map_err anyhow (in_input ports.inw)
      pure (record default_output { wb_in = some (write_i rd val); cycles = 1 })
    execute_io (finw rd) = do
      val ← map_err anyhow (in_input ports.finw)
      pure (record default_output { wb_in = some (write_f rd val); cycles = 1 })

    unfoldable pub execute_f : FInstr ℕ RegId F FRegId → ℕ → Execute
    unfolding e_value e_cycles h_value h_cycles fcvtsw y_value y_cycles w_cond v_cond branch
    execute_f (e_fmt instr rd a b) old_pc = pure (record default_output {
      wb_in = some (write_f rd (e_value instr a b));
      use_fpu = true;
      cycles = e_cycles instr;
    })
    execute_f (g_fmt instr rd a b c) old_pc = elim instr [ ]
    execute_f (h_fmt instr rd a) old_pc = pure (record default_output {
      wb_in = some (write_f rd (h_value instr a));
      use_fpu = true;
      cycles = h_cycles instr;
    })
    execute_f (k_fmt flt rd a b) old_pc =
        pure (record default_output {
          wb_in = some (write_i rd (u32_of_bool (fl.lt a b)));
          cycles = 1;
        })
    execute_f (x_fmt fitof rd a) old_pc = pure (record default_output {
      wb_in = some (write_f rd (fcvtsw fl a));
      use_fpu = true;
      cycles = 4;
    })
    execute_f (y_fmt instr rd a) old_pc = pure (record default_output {
      wb_in = some (write_i rd (y_value instr a));
      use_fpu = true;
      cycles = y_cycles instr;
    })
    execute_f (w_fmt instr a b imm) old_pc = branch (w_cond instr a b) old_pc imm
    execute_f (v_fmt instr a imm) old_pc = branch (v_cond instr a) old_pc imm
    execute_f (flw rd a imm) old_pc =
        pure (record default_output { ma_in = some (load_f rd (wrapping_add a imm)) })
    execute_f (fsw b a imm) old_pc =
        pure (record default_output { ma_in = some (store_f (wrapping_add a imm) b); cycles = 1 })

    unfoldable pub execute_instr : Instr ℕ RegId F FRegId → ℕ → ℕ → Execute
    unfolding r_value execute_i b_cond branch execute_io execute_f
    execute_instr (r_fmt instr rd a b) old_pc pc_plus4 =
        pure (record default_output { wb_in = some (write_i rd (r_value instr a b)); cycles = 1 })
    execute_instr (i_fmt instr rd a imm) old_pc pc_plus4 = pure (execute_i instr rd a imm pc_plus4)
    execute_instr (s_fmt sw a b imm) old_pc pc_plus4 =
        pure (record default_output { ma_in = some (store_i (wrapping_add a imm) b); cycles = 1 })
    execute_instr (b_fmt instr a b imm) old_pc pc_plus4 = branch (b_cond instr a b) old_pc imm
    execute_instr (p_fmt instr a imm imm2) old_pc pc_plus4 = elim instr [ ]
    execute_instr (j_fmt jal rd imm) old_pc pc_plus4 = pure (record default_output {
      wb_in = some (write_i rd pc_plus4);
      new_pc = some (wrapping_add old_pc imm);
      cycles = 1;
    })
    execute_instr (io_fmt io) old_pc pc_plus4 = execute_io io
    execute_instr (f_fmt f) old_pc pc_plus4 = execute_f f old_pc
    execute_instr (misc_fmt end_instr) old_pc pc_plus4 =
        pure (record default_output { cycles = 1; ends = true })

    unfoldable pub execute : ExecuteInput F → Execute
    unfolding execute_instr
    execute ex_in = execute_instr ex_in.instr ex_in.old_pc ex_in.pc_plus4
