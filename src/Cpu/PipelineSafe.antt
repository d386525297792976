-- ===== src/Cpu/PipelineSafe.antt =====
-- The pipeline timing of core_sim/src/cpu.rs on the states of Cpu/Valid.
use cpuex2022_7_simulator.Common.{
  ℕ, zero, suc, ◌+◌, ◌≤◌, ◌≡◌, arith, refl, inl, inr, List, [], ◌∷◌, Option, none, some, length,
  index, Post, Post-bind, returns, Bool-cases, Option-cases, index-Post, ap, ◌∙◌, ◌≢◌, Post-weaken,
}
use cpuex2022_7_simulator.Instr.{DecodedInstr}
use cpuex2022_7_simulator.Cpu.State.{
  PipelineStage, memory_access_stage, write_back_stage, PipelineStat, Cpu, RuntimeError,
}
use cpuex2022_7_simulator.Cpu.Valid.{IsValid, PipelineValid, with_pipeline}
use cpuex2022_7_simulator.Cpu.Pipeline.{
  ex_stalls, ma_stalls, stalls_of, hazard, push, pop_back, cycles_or_1, calc_stall_cycles,
  push_instr_to_pipeline_and_get_cycles, push_bubbles,
}
use cpuex2022_7_simulator.Memory.{Memory}

ex_stalls_bound : (stage : PipelineStage) → ex_stalls stage ≤ 2
unfolding ex_stalls
ex_stalls_bound write_back_stage = omega arith
ex_stalls_bound memory_access_stage = omega arith
ex_stalls_bound _ = omega arith

ma_stalls_bound : (stage : PipelineStage) → ma_stalls stage ≤ 2
unfolding ma_stalls
ma_stalls_bound write_back_stage = omega arith
ma_stalls_bound _ = omega arith

stalls_of_bound :
    (count : PipelineStage → ℕ) (instr : DecodedInstr) (st : Option PipelineStat)
    → ((stage : PipelineStage) → count stage ≤ 2)
    → stalls_of count instr st ≤ 2
unfolding stalls_of
stalls_of_bound count instr none h = omega arith
stalls_of_bound count instr (some st) h = elim (Option-cases st.result_ready_stage) [
  | inl e ↦ rw (stalls_of, e) (omega arith)
  | inr (stage, e) ↦ elim (Bool-cases (hazard instr st)) [
    | inl dep ↦ rw (stalls_of, e, dep) (h stage)
    | inr free ↦ rw (stalls_of, e, free) (omega arith)
  ]
]

absurd_length : {m n : ℕ} → m ≡ n → m ≢ n → ⊥
absurd_length e ne = ne e

some_injective :
    (instr : Option PipelineStat) (st : PipelineStat)
    → ◌≡◌ {A = Option (Option PipelineStat)} (some instr) (some (some st))
    → instr ≡ some st
some_injective instr st e = cc

none≢some : (st : PipelineStat) → ¬ (◌≡◌ {A = Option PipelineStat} none (some st))
none≢some st e = cc

-- A list of five stages, written out.
record Five (pipeline : List (Option PipelineStat)) : Type 0 where
  a : Option PipelineStat
  b : Option PipelineStat
  c : Option PipelineStat
  d : Option PipelineStat
  e : Option PipelineStat
  same : pipeline ≡ a ∷ b ∷ c ∷ d ∷ e ∷ []

five : (pipeline : List (Option PipelineStat)) → length pipeline ≡ 5 → Five pipeline
five (a ∷ b ∷ c ∷ d ∷ e ∷ []) h = record { a = a; b = b; c = c; d = d; e = e; same = refl }
five [] h = elim (absurd_length h (omega arith)) [ ]
five (a ∷ []) h = elim (absurd_length h (omega arith)) [ ]
five (a ∷ b ∷ []) h = elim (absurd_length h (omega arith)) [ ]
five (a ∷ b ∷ c ∷ []) h = elim (absurd_length h (omega arith)) [ ]
five (a ∷ b ∷ c ∷ d ∷ []) h = elim (absurd_length h (omega arith)) [ ]
five (a ∷ b ∷ c ∷ d ∷ e ∷ f ∷ rest) h = elim (absurd_length h (omega arith)) [ ]

-- The bubble or the instruction in front, and what `push` leaves behind it.
push-PipelineValid :
    (instr : Option PipelineStat) (pipeline : List (Option PipelineStat))
    → Five pipeline
    → ((st : PipelineStat) → instr ≡ some st → 1 ≤ st.ma_cycles)
    → PipelineValid (push instr pipeline)
unfolding push
push-PipelineValid instr pipeline f h = record {
  five = rw (f.same, pop_back) refl;
  accessed = λ st e. h st (some_injective instr st e);
}

cycles_or_1_pos :
    (instr : Option PipelineStat)
    → ((st : PipelineStat) → instr ≡ some st → 1 ≤ st.ma_cycles)
    → 1 ≤ cycles_or_1 (λ st. st.ma_cycles) instr
unfolding cycles_or_1
cycles_or_1_pos none h = omega arith
cycles_or_1_pos (some st) h = h st refl

module _ {F I O : Type 0} (zero_f : F) (size nlines : ℕ) (text : Memory) where
  abbrev Valid : Cpu F I O → Type 0
  Valid c = IsValid zero_f size nlines text c

  -- On a valid processor `calc_stall_cycles` does not panic, asks for at most two cycles, and leaves
  -- a valid processor.
  pub calc_stall_cycles-Post :
      (instr : DecodedInstr) (c : Cpu F I O)
      → Valid c
      → Post
          (λ stall c'. (stall ≤ 2) × Valid c')
          Valid
          (calc_stall_cycles {E = RuntimeError} instr c)
  unfolding calc_stall_cycles
  calc_stall_cycles-Post instr c v =
      Post-bind (index c.pipeline_state 0) _ c
        (index-Post c.pipeline_state 0 c (omega (arith, v.stages.five)) v)
        (λ ex c1 r1.
          Post-bind (index c.pipeline_state 1) _ c1
            (index-Post c.pipeline_state 1 c1 (omega (arith, v.stages.five)) r1.1)
            (λ ma c2 r2. returns (
              omega (
                arith,
                stalls_of_bound ex_stalls instr ex ex_stalls_bound,
                stalls_of_bound ma_stalls instr ma ma_stalls_bound,
              ),
              r2.1,
            )))

  pub push_instr-Post :
      (instr : Option PipelineStat) (c : Cpu F I O)
      → ((st : PipelineStat) → instr ≡ some st → 1 ≤ st.ma_cycles)
      → Valid c
      → Post
          (λ cycles c'. (1 ≤ cycles) × Valid c')
          Valid
          (push_instr_to_pipeline_and_get_cycles {E = RuntimeError} instr c)
  unfolding push_instr_to_pipeline_and_get_cycles
  push_instr-Post instr c h v =
      let w : PipelineValid (push instr c.pipeline_state) =
        push-PipelineValid instr c.pipeline_state (five c.pipeline_state v.stages.five) h in
      Post-bind (index c.pipeline_state 0) _ c
        (index-Post c.pipeline_state 0 c (omega (arith, v.stages.five)) v)
        (λ first c1 r. rw (w.five) (
          returns (
            omega (arith, cycles_or_1_pos first (λ st e. v.stages.accessed st (r.0 ∙ ap some e))),
            with_pipeline r.1 w,
          )))

  pub push_bubbles-Post :
      (n total : ℕ) (c : Cpu F I O)
      → Valid c
      → Post
          (λ cycles c'. (total ≤ cycles) × Valid c')
          Valid
          (push_bubbles {E = RuntimeError} n total c)
  unfolding push_bubbles
  push_bubbles-Post zero total c v = returns (omega arith, v)
  push_bubbles-Post (suc n) total c v =
      Post-bind (push_instr_to_pipeline_and_get_cycles none) _ c
        (push_instr-Post none c (λ st e. elim (none≢some st e) [ ]) v)
        (λ cycles c1 v1.
          Post-weaken (push_bubbles-Post n (total + cycles) c1 v1.1)
            (λ all c2 v2. (omega (arith, v2.0), v2.1)) (λ c2 v2. v2))
