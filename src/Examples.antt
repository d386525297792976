-- ===== src/Examples.antt =====
-- Concrete memories, register files and processors, on which the theorems apply.
pub mod Parts
pub mod Processor
pub mod CommandLine
pub mod Images
pub mod Scenes
pub mod SecondSet
pub mod Simulation
pub mod Prompt
pub mod Symbols
pub mod Tables
use cpuex2022_7_simulator.Common.{
  ℕ, ◌≡◌, ◌≢◌, ◌↔◌, ◌⊎◌, ◌<◌, ◌≤◌, ◌++◌, ◌==◌, ◌^◌, ◌/◌, length, replicate, wrapping_add, set, ◌&&◌,
  refl, arith, Bool, true, false, not, List, [], ◌∷◌, Option, none, some, Outcome, done, fail, Post,
  Leaves, returns, fails, panic, signed, if◌then◌else◌, get_or, pure, ◌>>=◌, err, ok,
}
use Prim.Native.Nat.{Ordering}
use mathlib.Core.Option
use cpuex2022_7_simulator.Float.{Float32}
use cpuex2022_7_simulator.Bin.{sign_extend}
use cpuex2022_7_simulator.Bin.Signed.{signed-sign_extend}
use cpuex2022_7_simulator.Ty.{Ty, i32, unknown, i32_or_usize, f32, partial_cmp, ty_lt, ty_ge, typed}
use cpuex2022_7_simulator.Ty.Order.{partial_cmp_order, flip}
use cpuex2022_7_simulator.RegFile.Region.{MemoryRegionStatBuilder}
use cpuex2022_7_simulator.Memory
use cpuex2022_7_simulator.Memory.{Memory, set_word, set_f, get_i, get_f, violate_transmutation}
use cpuex2022_7_simulator.Memory.Watch.{spied_read, SpyResult}
use cpuex2022_7_simulator.Memory.Access as MemoryAccess
use cpuex2022_7_simulator.Memory.Access.{word, type_at, spied_after}
use cpuex2022_7_simulator.Memory.Laws.{get_i-set_word, transmutation_refused}
use cpuex2022_7_simulator.Memory.Protect.{IsAligned, SameText, set-SameText}

-- Two floats, 0.0 and 1.0.
pub bits : Bool → ℕ
bits true = 0x3f800000
bits false = 0

pub bits-lt : (x : Bool) → bits x < 2 ^ 32
unfolding bits
bits-lt true = omega arith
bits-lt false = omega arith

pub from_bits-bits : (x : Bool) → bits x == 0x3f800000 ≡ x
unfolding bits
from_bits-bits true = refl
from_bits-bits false = refl

abbrev pub two_floats : Float32
two_floats = record {
  F = Bool;
  from_bits = λ n. n == 0x3f800000;
  to_bits = bits;
  to_bits_lt = bits-lt;
  from_bits-to_bits = from_bits-bits;
  zero = false;
  half = false;
  one = true;
  add = λ a b. a;
  sub = λ a b. a;
  mul = λ a b. a && b;
  neg = λ a. a;
  signum = λ a. true;
  copysign = λ a b. a;
  eq = λ a b. bits a == bits b;
  lt = λ a b. not a && b;
  ge = λ a b. not (not a && b);
  c_fmul = λ a b. a && b;
  c_fdiv = λ a b. a;
  c_fsqrt = λ a. a;
  c_ffloor = λ a. a;
  c_fcvtsw = λ n. n == 1;
  c_fcvtws = λ a. if a then 1 else 0;
}

abbrev region : MemoryRegionStatBuilder
region = record { hp_min = 1; sp_min = 2000; sp_max = 2000 }

-- 16 bytes, of which 4 to 7 are instruction memory
abbrev small : Memory
small = record (Memory.new 16) { instr_mem_range = record { start = 4; end = 8 } }

small-IsValid : MemoryAccess.IsValid 16 small
unfolding Memory.new
small-IsValid = record { bytes = refl; types = refl }

small-IsAligned : IsAligned small
small-IsAligned = record { start_aligned = refl; end_aligned = refl }

small-in_range : Memory.out_of_range 16 small 2 ≡ false
unfolding Memory.out_of_range Memory.contains
small-in_range = refl

set-SameText_example :
    Leaves (SameText small) (set_word 16 region 1 77 none small)
    × Leaves (SameText small) (set_f 16 region bits 1 true none small)
set-SameText_example =
    set-SameText bits 16 region small 1 77 true none small-IsValid small-IsAligned

get_i-set_word_example :
    (m' : Memory) × (set_word 16 region 2 77 none small
      ≡ done (spied_after small 2 (typed 77 i32_or_usize) none) m')
    × (m'' : Memory) × (get_i 16 region 2 none m'
        ≡ done (typed 77 i32_or_usize, spied_read m'.spy 2 none) m'')
    × (word m' 3 ≡ word small 3)
    × (type_at m' 3 ≡ type_at small 3)
get_i-set_word_example =
    get_i-set_word 16 region small 2 77 3 none small-IsValid (omega arith) small-in_range
      (omega arith)

transmutation_refused_example :
    ((m' : Memory) × (set_word 16 region 2 77 none small
        ≡ done (spied_after small 2 (typed 77 i32_or_usize) none) m')
      × (get_f 16 region (Float32.from_bits two_floats) 2 none m'
          ≡ fail (violate_transmutation i32_or_usize f32) m'))
    × ((m' : Memory) × (set_f 16 region (Float32.to_bits two_floats) 2 true none small
          ≡ done (spied_after small 2 (typed (Float32.to_bits two_floats true) f32) none) m')
        × (get_i 16 region 2 none m' ≡ fail (violate_transmutation f32 i32_or_usize) m')
        × (m'' : Memory) × (get_f 16 region (Float32.from_bits two_floats) 2 none m'
            ≡ done (true, spied_read small.spy 2 none) m''))
transmutation_refused_example =
    transmutation_refused two_floats 16 region small 2 77 true small-IsValid small-in_range
      (omega arith)

partial_cmp_order_example :
    ((partial_cmp i32 i32_or_usize ≡ some Ordering.eq) ↔ (i32 ≡ i32_or_usize))
    × (partial_cmp i32_or_usize i32 ≡ Option.map flip (partial_cmp i32 i32_or_usize))
    × (ty_lt i32 i32_or_usize && ty_lt i32_or_usize f32 && not (ty_lt i32 f32) ≡ false)
    × (ty_ge i32 unknown ≡ true)
partial_cmp_order_example = partial_cmp_order i32 i32_or_usize f32

signed-sign_extend_example : signed 31 (sign_extend 12 (2060 / 2 ^ 11) 2060) ≡ signed 11 2060
signed-sign_extend_example = signed-sign_extend 11 2060 (omega arith) (omega arith)
