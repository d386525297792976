-- ===== src/Cpu/Stat.antt =====
-- `mod stat` of core_sim/src/cpu.rs: the counts of instructions, branches and cache accesses.
use cpuex2022_7_simulator.Common.{
  ℕ, ◌+◌, Bool, List, none, some, get_elem?, set, replicate, if◌then◌else◌, Exec, done, abort,
}
use cpuex2022_7_simulator.Instr.{DecodedInstr}
use cpuex2022_7_simulator.Instr.Id.{id, max_id}

pub record InstrStat : Type 0 where
  pub instr_executed : List ℕ

unfoldable pub new_instr_stat : InstrStat
new_instr_stat = record { instr_executed = replicate max_id 0 }

unfoldable pub encounter_instr : {E : Type 0} → DecodedInstr → Exec InstrStat E (Unit {0})
unfolding id
encounter_instr d st = elim (get_elem? st.instr_executed (id d)) [
  | none ↦ abort
  | some n ↦ done tt (record { instr_executed = set st.instr_executed (id d) (n + 1) })
]

pub record BranchStat : Type 0 where
  pub taken_pred_taken_count : ℕ
  pub taken_pred_untaken_count : ℕ
  pub untaken_pred_taken_count : ℕ
  pub untaken_pred_untaken_count : ℕ

unfoldable pub new_branch_stat : BranchStat
new_branch_stat = record {
  taken_pred_taken_count = 0;
  taken_pred_untaken_count = 0;
  untaken_pred_taken_count = 0;
  untaken_pred_untaken_count = 0;
}

unfoldable pub update_branch : Bool → Bool → BranchStat → BranchStat
update_branch predicted actual st =
    if predicted
    then (if actual
        then record st { taken_pred_taken_count = st.taken_pred_taken_count + 1 }
        else record st { untaken_pred_taken_count = st.untaken_pred_taken_count + 1 })
    else if actual
    then record st { taken_pred_untaken_count = st.taken_pred_untaken_count + 1 }
    else record st { untaken_pred_untaken_count = st.untaken_pred_untaken_count + 1 }

pub record CacheStat : Type 0 where
  pub hit_count : ℕ
  pub miss_count : ℕ

unfoldable pub new_cache_stat : CacheStat
new_cache_stat = record { hit_count = 0; miss_count = 0 }

unfoldable pub update_cache : Bool → CacheStat → CacheStat
update_cache result st =
    if result
    then record st { hit_count = st.hit_count + 1 }
    else record st { miss_count = st.miss_count + 1 }
