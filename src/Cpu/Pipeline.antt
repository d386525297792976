-- ===== src/Cpu/Pipeline.antt =====
-- The pipeline timing of core_sim/src/cpu.rs: `calc_stall_cycles` and
-- `push_instr_to_pipeline_and_get_cycles`.
use cpuex2022_7_simulator.Common.{
  ℕ, zero, suc, ◌+◌, max, Bool, false, List, [], ◌∷◌, Option, none, some, ◌==◌, ◌||◌, length,
  if◌then◌else◌, Exec, done, abort, ◌>>=◌, pure, index,
}
use cpuex2022_7_simulator.Register.{RegId, FRegId}
use cpuex2022_7_simulator.Instr.{
  outb, inw, finw, FInstr, e_fmt, g_fmt, h_fmt, k_fmt, x_fmt, y_fmt, w_fmt, v_fmt, flw, fsw, r_fmt,
  i_fmt, s_fmt, b_fmt, p_fmt, j_fmt, io_fmt, f_fmt, misc_fmt, DecodedInstr,
}
use cpuex2022_7_simulator.Cpu.State.{
  PipelineStage, write_back_stage, memory_access_stage, PipelineStat, Cpu,
}

unfoldable pub regid_is_included_in_srcs : DecodedInstr → RegId → Bool
regid_is_included_in_srcs (r_fmt _ _ rs1 rs2) regid = rs1 == regid || rs2 == regid
regid_is_included_in_srcs (i_fmt _ _ rs1 _) regid = rs1 == regid
regid_is_included_in_srcs (s_fmt _ rs1 rs2 _) regid = rs1 == regid || rs2 == regid
regid_is_included_in_srcs (b_fmt _ rs1 rs2 _) regid = rs1 == regid || rs2 == regid
regid_is_included_in_srcs (p_fmt _ rs1 _ _) regid = rs1 == regid
regid_is_included_in_srcs (j_fmt _ _ _) regid = false
regid_is_included_in_srcs (io_fmt (outb rs)) regid = rs == regid
regid_is_included_in_srcs (io_fmt (inw _)) regid = false
regid_is_included_in_srcs (io_fmt (finw _)) regid = false
regid_is_included_in_srcs (f_fmt (x_fmt _ _ rs1)) regid = rs1 == regid
regid_is_included_in_srcs (f_fmt (flw _ rs1 _)) regid = rs1 == regid
regid_is_included_in_srcs (f_fmt (fsw _ rs1 _)) regid = rs1 == regid
regid_is_included_in_srcs (f_fmt _) regid = false
regid_is_included_in_srcs (misc_fmt _) regid = false

freg_in_srcs : FInstr RegId RegId FRegId FRegId → FRegId → Bool
freg_in_srcs (e_fmt _ _ rs1 rs2) fregid = rs1 == fregid || rs2 == fregid
freg_in_srcs (g_fmt _ _ rs1 rs2 rs3) fregid = rs1 == fregid || rs2 == fregid || rs3 == fregid
freg_in_srcs (h_fmt _ _ rs1) fregid = rs1 == fregid
freg_in_srcs (k_fmt _ _ rs1 rs2) fregid = rs1 == fregid || rs2 == fregid
freg_in_srcs (x_fmt _ _ _) fregid = false
freg_in_srcs (y_fmt _ _ rs1) fregid = rs1 == fregid
freg_in_srcs (w_fmt _ rs1 rs2 _) fregid = rs1 == fregid || rs2 == fregid
freg_in_srcs (v_fmt _ rs1 _) fregid = rs1 == fregid
freg_in_srcs (flw _ _ _) fregid = false
freg_in_srcs (fsw rs2 _ _) fregid = rs2 == fregid

unfoldable pub fregid_is_included_in_srcs : DecodedInstr → FRegId → Bool
unfolding freg_in_srcs
fregid_is_included_in_srcs (f_fmt f) fregid = freg_in_srcs f fregid
fregid_is_included_in_srcs _ fregid = false

-- `id.is_some() && included(instr, &id.unwrap())`
some_and : Option ℕ → (ℕ → Bool) → Bool
some_and none p = false
some_and (some id) p = p id

-- the local `hazard`
unfoldable pub hazard : DecodedInstr → PipelineStat → Bool
unfolding regid_is_included_in_srcs fregid_is_included_in_srcs some_and
hazard instr st =
    some_and st.write_back_id (regid_is_included_in_srcs instr)
    || some_and st.float_write_back_id (fregid_is_included_in_srcs instr)

-- the stalls for a stage in which the result is ready: one stage behind, and two behind
unfoldable pub ex_stalls : PipelineStage → ℕ
ex_stalls write_back_stage = 2
ex_stalls memory_access_stage = 1
ex_stalls _ = 0

unfoldable pub ma_stalls : PipelineStage → ℕ
ma_stalls write_back_stage = 1
ma_stalls _ = 0

unfoldable pub stalls_of : (PipelineStage → ℕ) → DecodedInstr → Option PipelineStat → ℕ
unfolding hazard
stalls_of count instr none = 0
stalls_of count instr (some st) = elim st.result_ready_stage [
  | none ↦ 0
  | some stage ↦ if hazard instr st then count stage else 0
]

unfoldable pub pop_back : {A : Type 0} → List A → List A
pop_back [] = []
pop_back (x ∷ []) = []
pop_back (x ∷ y ∷ xs) = x ∷ pop_back (y ∷ xs)

-- `pop_back`, `push_front`, and the assertion on the length
unfoldable pub push : Option PipelineStat → List (Option PipelineStat) → List (Option PipelineStat)
unfolding pop_back
push instr pipeline = instr ∷ pop_back pipeline

-- the `ex_cycles` or `ma_cycles` of an instruction, and 1 for a bubble
unfoldable pub cycles_or_1 : (PipelineStat → ℕ) → Option PipelineStat → ℕ
cycles_or_1 cycles none = 1
cycles_or_1 cycles (some st) = cycles st

module _ {F I O E : Type 0} where
  unfoldable pub calc_stall_cycles : DecodedInstr → Exec (Cpu F I O) E ℕ
  unfolding stalls_of ex_stalls ma_stalls
  calc_stall_cycles instr c =
      (do
        ex ← index c.pipeline_state 0
        ma ← index c.pipeline_state 1
        pure (max (stalls_of ex_stalls instr ex) (stalls_of ma_stalls instr ma)))
        c

  unfoldable pub push_instr_to_pipeline_and_get_cycles : Option PipelineStat → Exec (Cpu F I O) E ℕ
  unfolding push cycles_or_1
  push_instr_to_pipeline_and_get_cycles instr c =
      (do
        first ← index c.pipeline_state 0
        (λ c'.
            if length (push instr c.pipeline_state) == 5
            then done
                (max (cycles_or_1 (λ st. st.ex_cycles) instr)
                  (cycles_or_1 (λ st. st.ma_cycles) first))
                (record c' { pipeline_state = push instr c.pipeline_state })
            else abort))
        c

  -- `for _ in 0..n { res.cycles += self.push_instr_to_pipeline_and_get_cycles(None); }`
  unfoldable pub push_bubbles : ℕ → ℕ → Exec (Cpu F I O) E ℕ
  unfolding push_instr_to_pipeline_and_get_cycles
  push_bubbles zero total = pure total
  push_bubbles (suc n) total = do
    cycles ← push_instr_to_pipeline_and_get_cycles none
    push_bubbles n (total + cycles)
