-- ===== src/Cpu/StartLaws.antt =====
-- What `Cpu::new` of core_sim/src/cpu.rs builds.
use cpuex2022_7_simulator.Common.{
  ap, ◌+◌, ◌≤◌, ◌%◌, ℕ, ◌/◌, ◌%◌, ◌^◌, ◌≡◌, refl, arith, true, List, Option, none, some, length,
  drop, replicate, ◌++◌, leb, leb→le, length-append, length-drop, length-replicate, done,
  wrapping_add, shl,
}
use mathlib.Core.Option
use cpuex2022_7_simulator.Bytes.{word_at}
use cpuex2022_7_simulator.Bytes.Words.{word_at_total}
use cpuex2022_7_simulator.Float.{Float32}
use cpuex2022_7_simulator.RegFile
use cpuex2022_7_simulator.RegFile.{RegFile, set_hp, set_sp, set_f, end_init}
use cpuex2022_7_simulator.RegFile.Access
use cpuex2022_7_simulator.Memory
use cpuex2022_7_simulator.Memory.{Memory, init_from_slice}
use cpuex2022_7_simulator.Memory.Protect.{SameText-refl}
use cpuex2022_7_simulator.Memory.Safe.{IsSound}
use cpuex2022_7_simulator.Cpu.State.{Cpu, RuntimeError, PipelineStat}
use cpuex2022_7_simulator.Ty.{unknown}
use cpuex2022_7_simulator.Cache
use cpuex2022_7_simulator.BranchPredictor
use cpuex2022_7_simulator.Cpu.Start.{
  new, new_with, build, init_registers, text_range, get_data_and_text_len,
}
use cpuex2022_7_simulator.Cpu.Valid.{IsValid}

pub no_stage :
    (st : PipelineStat) → ¬ (◌≡◌ {A = Option (Option PipelineStat)} (some none) (some (some st)))
no_stage st e = cc

module _ (fl : Float32) (size nlines : ℕ) where
  open fl use {F}

  init_registers_lem :
      (hp : ℕ)
      → (rf : RegFile F) × (init_registers fl size nlines {E = RuntimeError} hp
            (RegFile.new fl.zero)
          ≡ done tt rf)
        × Access.IsValid fl.zero rf
  unfolding init_registers RegFile.new set_hp set_sp set_f end_init
  init_registers_lem hp = (
    _,
    refl,
    record {
      regs = refl;
      fregs = refl;
      writes_i = refl;
      reads_i = refl;
      writes_f = refl;
      reads_f = refl;
      x0 = refl;
      f0 = refl;
    },
  )

  abbrev loaded : List ℕ → ℕ → ℕ → Memory
  loaded mem d t = record (Memory.new size) {
    inner = mem ++ drop (length mem) (Memory.new size).inner;
    instr_mem_range = text_range d t;
  }

  loaded-IsSound :
      (mem : List ℕ) (d t : ℕ)
      → size % 4 ≡ 0
      → leb (length mem) (length (Memory.new size).inner) ≡ true
      → IsSound size (loaded mem d t) (loaded mem d t)
  unfolding Memory.new text_range
  loaded-IsSound mem d t aligned fits = record {
    valid = record {
      bytes = omega (
        arith,
        length-append mem (drop (length mem) (replicate size 0xcc)),
        length-drop {A = ℕ} (length mem) (replicate size 0xcc),
        length-replicate {A = ℕ} size 0xcc,
        leb→le (length mem) (length (replicate size 0xcc)) fits,
      );
      types = omega (arith, length-replicate (size / 2 ^ 2) unknown, aligned);
    };
    aligned = record { start_aligned = omega arith; end_aligned = omega arith };
    same_text = SameText-refl (loaded mem d t);
  }

  fits_test :
      (mem : List ℕ)
      → length mem ≤ size + 8
      → leb (length (drop 8 mem)) (length (Memory.new size).inner) ≡ true
  unfolding Memory.new
  fits_test mem small =
      ground (arith, small, length-drop {A = ℕ} 8 mem, length-replicate {A = ℕ} size 0xcc)

  module _ {I O : Type 0} (input : I) (output : O) (aligned : size % 4 ≡ 0) where
    abbrev Fresh : Cpu F I O → Type 0
    Fresh c = IsValid fl.zero size nlines c.memory c

    build-Fresh :
        (rf : RegFile F) (m : Memory) (pc : ℕ)
        → Access.IsValid fl.zero rf
        → IsSound size m m
        → Fresh (build fl size nlines rf m pc input output)
    unfolding build Cache.new BranchPredictor.new
    build-Fresh rf m pc r s = record {
      registers = r;
      memory = s;
      lines = length-replicate nlines 0;
      counters = refl;
      stages = record { five = refl; accessed = λ st e. elim (no_stage st e) [ ] };
      instr_counts = refl;
    }

    -- Where the file has its header and fits into the memory, whose size is a whole number of words,
    -- `new` does not panic. The processor is valid, with its own instructions, and starts at the
    -- end of the data, which the first word of the file counts in words.
    pub new-IsValid :
        (mem : List ℕ)
        → 8 ≤ length mem
        → length mem ≤ size + 8
        → (c : Cpu F I O) × (new fl size nlines mem input output ≡ some c)
          × IsValid fl.zero size nlines c.memory c
          × (some (c.pc / 4) ≡ Option.map (λ (d : ℕ). d % 2 ^ 30) (word_at mem 0))
    unfolding build
    new-IsValid mem header small =
        let (d, first) = word_at_total mem 0 (omega (arith, header)) in
        let (t, second) = word_at_total mem 4 (omega (arith, header)) in
        let (rf, e, r) = init_registers_lem (wrapping_add d t) in
        let fits : leb (length (drop 8 mem)) (length (Memory.new size).inner) ≡ true =
          fits_test mem small in
        (
          build fl size nlines rf (loaded (drop 8 mem) d t) (shl d 2) input output,
          unfold new get_data_and_text_len new_with init_from_slice in
              rw (new, get_data_and_text_len, first, second, new_with, e, init_from_slice, fits)
                refl,
          build-Fresh rf (loaded (drop 8 mem) d t) (shl d 2) r
              (loaded-IsSound (drop 8 mem) d t aligned fits),
          rw first (ap some (omega arith)),
        )
