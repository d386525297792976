-- ===== src/Cpu/CycleSafe.antt =====
-- The stages of a cycle of core_sim/src/cpu.rs, on the states of Cpu/Valid.
use cpuex2022_7_simulator.Common.{
  ℕ, ◌+◌, ◌≤◌, ◌≡◌, ◌≢◌, inl, inr, ap, arith, ◌∙◌, Bool, Option, some, panic, map_err,
  if◌then◌else◌, Post, Post-bind, Post-within, Post-map_err, Post-weaken, returns, fails, returned,
  not_aborted, Bool-cases, Option-cases, get_elem?-eq-get_or, length-set,
}
use cpuex2022_7_simulator.Float.{Float32}
use cpuex2022_7_simulator.Bytes.{word_at}
use cpuex2022_7_simulator.Memory.{Memory, contains, get_from_pc, get_raw_addr}
use cpuex2022_7_simulator.Memory.Safe.{IsSound}
use cpuex2022_7_simulator.Decode.{decode_from}
use cpuex2022_7_simulator.Decode.Registers.{decode_from_cases}
use cpuex2022_7_simulator.Instr.{DecodedInstr}
use cpuex2022_7_simulator.Instr.Id.{id}
use cpuex2022_7_simulator.Instr.Id.Laws.{id-Good}
use cpuex2022_7_simulator.Cpu.Stat.{encounter_instr}
use cpuex2022_7_simulator.Cpu.State.{
  RuntimeError, memory_access_error, PipelineStat, RegFetchInput, Cpu, in_memory, in_reg_file,
  in_i_stat,
}
use cpuex2022_7_simulator.Cpu.Operands.{reg_fetch, fetch}
use cpuex2022_7_simulator.Cpu.OperandsSafe.{fetch-Post}
use cpuex2022_7_simulator.Cpu.Pipeline.{
  calc_stall_cycles, push_bubbles, push_instr_to_pipeline_and_get_cycles,
}
use cpuex2022_7_simulator.Cpu.PipelineSafe.{
  calc_stall_cycles-Post, push_instr-Post, push_bubbles-Post,
}
use cpuex2022_7_simulator.Cpu.Targets.{RegsExist, TargetsExist}
use cpuex2022_7_simulator.Cpu.Valid.{IsValid, with_memory, with_registers, with_counts}
use cpuex2022_7_simulator.Cpu.{instr_fetch, instr_decode, update_pipeline}

-- The fetch at the program counter does not panic, and neither does the decoder on its word.
abbrev pub Decodes : {F I O : Type 0} → Cpu F I O → Type 0
Decodes c =
    Post (λ bin (_ : Memory). decode_from bin ≢ panic) (λ (_ : Memory). Unit {0})
      (get_from_pc c.pc c.memory)

-- A fetch leaves the memory as it was.
get_from_pc-Post :
    (P : ℕ → Type 0) (Q : Memory → Type 0) (pc : ℕ) (m : Memory)
    → Q m
    → Post (λ bin (_ : Memory). P bin) (λ (_ : Memory). Unit {0}) (get_from_pc pc m)
    → Post (λ bin m'. P bin × Q m') Q (get_from_pc pc m)
get_from_pc-Post P Q pc m q = elim (Bool-cases (contains m.instr_mem_range pc)) [
  | inr out ↦ unfold get_from_pc in rw (get_from_pc, out) (λ h. fails q)
  | inl at ↦ elim (Option-cases (word_at m.inner pc)) [
    | inl e ↦
        unfold get_from_pc get_raw_addr in
        rw (get_from_pc, at, get_raw_addr, e) (λ h. elim (not_aborted h) [ ])
    | inr (w, e) ↦
        unfold get_from_pc get_raw_addr in
        rw (get_from_pc, at, get_raw_addr, e) (λ h. returns (returned h, q))
  ]
]

same_stat :
    {st st' : PipelineStat}
    → 1 ≤ st.ma_cycles
    → ◌≡◌ {A = Option PipelineStat} (some st) (some st')
    → 1 ≤ st'.ma_cycles
same_stat {st} {st'} h e =
    let same : st ≡ st' = cc in omega (arith, h, ap (λ (s : PipelineStat). s.ma_cycles) same)

module _ (fl : Float32) (size nlines : ℕ) (text : Memory) {I O : Type 0} where
  open fl use {F}

  abbrev Valid : Cpu F I O → Type 0
  Valid c = IsValid fl.zero size nlines text c

  pub instr_fetch-Post :
      (c : Cpu F I O)
      → Decodes c
      → Valid c
      → Post (λ out c'. (decode_from out.bin ≢ panic) × Valid c') Valid (instr_fetch c)
  unfolding instr_fetch
  instr_fetch-Post c h v =
      Post-bind (map_err memory_access_error (in_memory (get_from_pc c.pc))) _ c
        (Post-map_err memory_access_error (in_memory (get_from_pc c.pc)) c (
          Post-within (λ c'. c'.memory) (λ part c'. record c' { memory = part }) (get_from_pc c.pc)
            c
            (Post-weaken
              (get_from_pc-Post (λ bin. decode_from bin ≢ panic) (IsSound size text) c.pc c.memory
                v.memory h)
              (λ bin m r. (r.0, with_memory v r.1)) (λ m r. with_memory v r))))
        (λ bin c1 r. returns r)

  pub instr_decode-Post :
      (bin : ℕ) (c : Cpu F I O)
      → decode_from bin ≢ panic
      → Valid c
      → Post (λ instr c'. RegsExist instr × Valid c') Valid (instr_decode bin c)
  unfolding instr_decode
  instr_decode-Post bin c h v = elim (decode_from_cases bin h) [
    | inl (e, wrong) ↦ rw (instr_decode, wrong) (fails v)
    | inr (instr, right, regs) ↦ rw (instr_decode, right) (returns (regs, v))
  ]

  pub encounter_instr-Post :
      (instr : DecodedInstr) (c : Cpu F I O)
      → Valid c
      → Post
          (λ (_ : Unit {0}). Valid)
          Valid
          (in_i_stat {E = RuntimeError} (encounter_instr instr) c)
  encounter_instr-Post instr c v =
      Post-within (λ c'. c'.i_stat) (λ part c'. record c' { i_stat = part }) (encounter_instr instr)
        c
        (unfold encounter_instr in
          rw
            (
              encounter_instr,
              get_elem?-eq-get_or c.i_stat.instr_executed (id instr) 0
                  (omega (arith, (id-Good instr).0, v.instr_counts)),
            )
            (returns (with_counts v (length-set _ _ _ ∙ v.instr_counts))))

  pub reg_fetch-Post :
      (w : RegFetchInput) (c : Cpu F I O)
      → RegsExist w.instr
      → Valid c
      → Post
          (λ ex_in c'. TargetsExist ex_in.instr × Valid c')
          Valid
          (reg_fetch {E = RuntimeError} w c)
  unfolding reg_fetch
  reg_fetch-Post w c h v =
      Post-bind (in_reg_file (fetch w.instr)) _ c
        (Post-within (λ c'. c'.reg_file) (λ part c'. record c' { reg_file = part }) (fetch w.instr)
          c
          (Post-weaken (fetch-Post fl.zero w.instr c.reg_file h v.registers)
            (λ instr rf r. (r.0, with_registers v r.1)) (λ rf r. with_registers v r)))
        (λ instr c1 r. returns r)

  pub update_pipeline-Post :
      (instr : DecodedInstr) (flush : Bool) (st : PipelineStat) (c : Cpu F I O)
      → 1 ≤ st.ma_cycles
      → Valid c
      → Post
          (λ cycles c'. (1 ≤ cycles) × Valid c')
          Valid
          (update_pipeline {E = RuntimeError} instr flush st c)
  unfolding update_pipeline
  update_pipeline-Post instr flush st c h v =
      Post-bind (calc_stall_cycles instr) _ c
        (calc_stall_cycles-Post fl.zero size nlines text instr c v)
        (λ stall c1 r1.
          Post-bind (push_bubbles stall 0) _ c1
            (push_bubbles-Post fl.zero size nlines text stall 0 c1 r1.1)
            (λ stalled c2 r2.
              Post-bind (push_instr_to_pipeline_and_get_cycles (some st)) _ c2
                (push_instr-Post fl.zero size nlines text (some st) c2 (λ st' e. same_stat h e)
                  r2.1)
                (λ pushed c3 r3.
                  Post-weaken
                    (push_bubbles-Post fl.zero size nlines text (if flush then 2 else 0)
                      (stalled + pushed) c3 r3.1)
                    (λ all c4 r4. (omega (arith, r4.0, r3.0), r4.1)) (λ c4 r4. r4))))
