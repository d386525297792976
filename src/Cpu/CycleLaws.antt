-- ===== src/Cpu/CycleLaws.antt =====
-- The whole cycle of core_sim/src/cpu.rs, from `memory_stage` to `cycle_one_full`.
use cpuex2022_7_simulator.Common.{
  ℕ, ◌<◌, ◌≤◌, ◌≡◌, ◌⊎◌, inl, inr, refl, arith, Bool, Option, none, some, Post, Post-bind, returns,
  Bool-cases,
}
use cpuex2022_7_simulator.Float.{Float32}
use cpuex2022_7_simulator.Memory.{Memory}
use cpuex2022_7_simulator.Instr.{DecodedInstr}
use cpuex2022_7_simulator.Cpu.Stat.{encounter_instr}
use cpuex2022_7_simulator.Cpu.State.{
  RuntimeError, Ports, ExecuteOutput, MemoryAccessInput, WriteBackInput, ExecutionTrace,
  CycleResult, exit, Cpu, in_i_stat,
}
use cpuex2022_7_simulator.Cpu.Operands.{reg_fetch}
use cpuex2022_7_simulator.Cpu.Execute.{execute}
use cpuex2022_7_simulator.Cpu.ExecuteSafe.{execute-Post, NoPanic, OutputExists}
use cpuex2022_7_simulator.Cpu.MemoryAccess.{memory_access}
use cpuex2022_7_simulator.Cpu.MemorySafe.{memory_access-Post, write_back-Post}
use cpuex2022_7_simulator.Cpu.CycleSafe.{
  Decodes, instr_fetch-Post, instr_decode-Post, encounter_instr-Post, reg_fetch-Post,
  update_pipeline-Post,
}
use cpuex2022_7_simulator.Cpu.Targets.{WriteExists, AccessExists}
use cpuex2022_7_simulator.Cpu.Valid.{IsValid}
use cpuex2022_7_simulator.Cpu.{
  instr_fetch, instr_decode, memory_stage, Stage, finish_cycle, after_execute, cycle_one_full,
  update_pipeline, write_back_of, stat_of, jump, loaded,
}

loaded-WriteExists :
    {F : Type 0} (out : ExecuteOutput F) (bram : Bool) (wb : Option (WriteBackInput F))
    → WriteExists out.wb_in
    → WriteExists wb
    → WriteExists (loaded out bram wb).0
unfolding loaded
loaded-WriteExists out bram none h g = h
loaded-WriteExists out bram (some wb) h g = g

module _ (fl : Float32) (size nlines : ℕ) (text : Memory) {I O : Type 0} (ports : Ports fl.F I O)
    (np : NoPanic ports) (pos : 0 < nlines) where
  open fl use {F}

  abbrev Valid : Cpu F I O → Type 0
  Valid c = IsValid fl.zero size nlines text c

  abbrev GoodStage : Stage F → Cpu F I O → Type 0
  GoodStage st c = WriteExists st.wb_in × (1 ≤ st.ma_cycles) × Valid c

  access_stage-Post :
      (out : ExecuteOutput F) (ma_in : Option (MemoryAccessInput F)) (c : Cpu F I O)
      → AccessExists ma_in
      → WriteExists out.wb_in
      → Valid c
      → Post GoodStage Valid (memory_stage fl size nlines ports (record out { ma_in = ma_in }) c)
  unfolding memory_stage
  access_stage-Post out none c h w v = returns (w, omega arith, v)
  access_stage-Post out (some ma_in) c h w v =
      Post-bind (memory_access fl size nlines ma_in none) _ c
        (memory_access-Post fl size nlines text ma_in none c pos h v)
        (λ r c1 g. returns (loaded-WriteExists out r.0.use_bram r.0.wb_in w g.0, g.1, g.2))

  write_back_of-Post :
      (wb : Option (WriteBackInput F)) (c : Cpu F I O)
      → WriteExists wb
      → Valid c
      → Post (λ (_ : Unit {0}). Valid) Valid (write_back_of {E = RuntimeError} wb c)
  unfolding write_back_of
  write_back_of-Post none c h v = returns v
  write_back_of-Post (some wb) c h v = write_back-Post fl size nlines text wb c h v

  jump-Valid : (new_pc : Option ℕ) (c : Cpu F I O) → Valid c → Valid (jump new_pc c)
  unfolding jump
  jump-Valid none c v = v
  jump-Valid (some val) c v = v

  abbrev Good : CycleResult → Cpu F I O → Type 0
  Good res c = ((res.flow ≡ exit) ⊎ (1 ≤ res.cycles)) × Valid c

  finish_cycle-Post :
      (instr : DecodedInstr) (trace : Option ExecutionTrace) (out : ExecuteOutput F) (c : Cpu F I O)
      → OutputExists out
      → Valid c
      → Post Good Valid (finish_cycle fl size nlines ports instr trace out c)
  unfolding finish_cycle
  finish_cycle-Post instr trace out c h v =
      Post-bind (memory_stage fl size nlines ports out) _ (jump out.new_pc c)
        (access_stage-Post out out.ma_in (jump out.new_pc c) h.0 h.1 (jump-Valid out.new_pc c v))
        (λ st c1 r1.
          Post-bind (write_back_of st.wb_in) _ c1 (write_back_of-Post st.wb_in c1 r1.0 r1.2)
            (λ _ c2 v2.
              Post-bind (update_pipeline instr out.flush (stat_of out st)) _ c2
                (update_pipeline-Post fl size nlines text instr out.flush (stat_of out st) c2
                  (unfold stat_of in r1.1) v2)
                (λ cycles c3 r3. returns (inr r3.0, r3.1))))

  after_execute-Post :
      (instr : DecodedInstr) (trace : Option ExecutionTrace) (out : ExecuteOutput F) (c : Cpu F I O)
      → OutputExists out
      → Valid c
      → Post Good Valid (after_execute fl size nlines ports instr trace out c)
  after_execute-Post instr trace out c h v = elim (Bool-cases out.ends) [
    | inl e ↦ unfold after_execute in rw (after_execute, e) (returns (inl refl, v))
    | inr e ↦
        unfold after_execute in rw (after_execute, e) (finish_cycle-Post instr trace out c h v)
  ]

  -- A cycle does not panic, if the fetch and the decoder do not panic on the word at the program
  -- counter, nor the input and the output ever, and the cache has a line. Whether it returns or fails, it leaves a valid
  -- processor with the same instructions in its instruction memory. If it returns and the program
  -- has not ended, it has counted at least one clock cycle.
  pub cycle_one_full-IsValid :
      (c : Cpu F I O) (do_trace : Bool)
      → Decodes c
      → Valid c
      → Post Good Valid (cycle_one_full fl size nlines ports do_trace c)
  unfolding cycle_one_full
  cycle_one_full-IsValid c do_trace d v =
      Post-bind instr_fetch _ c (instr_fetch-Post fl size nlines text c d v) (λ fetched c1 r1.
        Post-bind (instr_decode fetched.bin) _ c1
          (instr_decode-Post fl size nlines text fetched.bin c1 r1.0 r1.1)
          (λ instr c2 r2.
            Post-bind (in_i_stat (encounter_instr instr)) _ c2
              (encounter_instr-Post fl size nlines text instr c2 r2.1)
              (λ _ c3 v3.
                Post-bind (reg_fetch _) _ c3 (reg_fetch-Post fl size nlines text _ c3 r2.0 v3)
                  (λ ex_in c4 r4.
                    Post-bind (execute fl ports ex_in) _ c4
                      (execute-Post fl size nlines text ports np ex_in c4 r4.0 r4.1)
                      (λ out c5 r5. after_execute-Post instr _ out c5 r5.0 r5.1)))))
