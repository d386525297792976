-- ===== src/Cpu/Start.antt =====
-- `Cpu::new` of core_sim/src/cpu.rs, with a memory of `size` bytes and a cache of `nlines` lines for
-- the source's RAM_BYTE_SIZE and CACHE_NUM_LINES.
use cpuex2022_7_simulator.Common.{
  ℕ, ◌-◌, ◌/◌, ◌^◌, List, [], ◌∷◌, Option, none, some, drop, Exec, done, fail, abort, ◌>>◌,
  wrapping_add, shl,
}
use cpuex2022_7_simulator.Bytes.{word_at}
use cpuex2022_7_simulator.Float.{Float32}
use cpuex2022_7_simulator.RegFile
use cpuex2022_7_simulator.RegFile.{RegFile, set_sp, set_hp, end_init}
use cpuex2022_7_simulator.Memory
use cpuex2022_7_simulator.Memory.{Memory, Range, init_from_slice, get_from_pc}
use cpuex2022_7_simulator.Cache
use cpuex2022_7_simulator.BranchPredictor
use cpuex2022_7_simulator.BranchPredictor.{num_counters}
use cpuex2022_7_simulator.Cpu.Stat.{new_instr_stat, new_branch_stat, new_cache_stat}
use cpuex2022_7_simulator.Cpu.State.{Pc, RuntimeError, Cpu}

-- `none` is a panic on a file of fewer than 8 bytes.
unfoldable pub get_data_and_text_len : List ℕ → Option (ℕ × ℕ)
get_data_and_text_len mem = elim (word_at mem 0) [
  | none ↦ none
  | some data_len ↦ elim (word_at mem 4) [ none ↦ none | some text_len ↦ some (data_len, text_len) ]
]

unfoldable pub text_range : ℕ → ℕ → Range
text_range data_len text_len =
    let text_begin = shl data_len 2 in
    record { start = text_begin; end = wrapping_add text_begin (shl text_len 2) }

module _ (fl : Float32) (size nlines : ℕ) where
  open fl use {F}

  -- the calls on the register file in `new`
  unfoldable pub init_registers : {E : Type 0} → ℕ → Exec (RegFile F) E (Unit {0})
  unfolding set_hp set_sp RegFile.set_f end_init
  init_registers hp = do set_hp hp; set_sp (size / 2 ^ 2 - 1); RegFile.set_f 1 fl.one; end_init

  module _ {I O : Type 0} where
    unfoldable pub build : RegFile F → Memory → Pc → I → O → Cpu F I O
    unfolding Cache.new BranchPredictor.new new_instr_stat new_branch_stat new_cache_stat
    build reg_file memory pc input output = record {
      reg_file = reg_file;
      memory = memory;
      cache = Cache.new nlines;
      pc = pc;
      input = input;
      output = output;
      branch_predictor = BranchPredictor.new num_counters;
      pipeline_state = none ∷ none ∷ none ∷ none ∷ none ∷ [];
      i_stat = new_instr_stat;
      c_stat = new_cache_stat;
      b_stat = new_branch_stat;
    }

    unfoldable pub new_with : ℕ → ℕ → List ℕ → I → O → Option (Cpu F I O)
    new_with data_len text_len mem input output =
        elim (init_registers {E = RuntimeError} (wrapping_add data_len text_len)
          (RegFile.new fl.zero)) [
            | done _ rf ↦
                elim (init_from_slice {E = RuntimeError} (drop 8 mem) (text_range data_len text_len)
                  (Memory.new size)) [
                    | done _ m ↦ some (build rf m (shl data_len 2) input output)
                    | fail _ _ ↦ none
                    | abort ↦ none
                  ]
            | fail _ _ ↦ none
            | abort ↦ none
          ]

    -- `new` never returns an error; `none` is a panic.
    unfoldable pub new : List ℕ → I → O → Option (Cpu F I O)
    new mem input output = elim (get_data_and_text_len mem) [
      | none ↦ none
      | some lens ↦ new_with lens.0 lens.1 mem input output
    ]
