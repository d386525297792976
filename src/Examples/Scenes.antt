-- ===== src/Examples/Scenes.antt =====
-- core_sim/src/sld.rs: a scene with one object, over a scanner that takes a list of numbers.
use cpuex2022_7_simulator.Common.{
  ℕ, suc, ◌<◌, ◌≡◌, arith, List, [], ◌∷◌, Option, none, some, length, sym, refl, done,
}
use cpuex2022_7_simulator.Ty.{TypedU32, typed, i32, f32}
use cpuex2022_7_simulator.Sld.{
  Scanner, IsScanner, SldData, minus_one, from_sld, parse_sld, inw, finw,
}
use cpuex2022_7_simulator.Sld.Reads.{
  ReadsTo, no_read, int_read, float_read, Handed, reads-Handed, scene_is_read,
}
use cpuex2022_7_simulator.Sld.Ends.{Ends, from_sld-Ends}

next_number : List ℕ → Option (List ℕ × ℕ)
next_number [] = none
next_number (x ∷ xs) = some (xs, x)

abbrev numbers : Scanner (List ℕ) ℕ ℕ
numbers = record {
  len = length;
  multispace0 = λ t. t;
  int = next_number;
  recognize_float = next_number;
  parse = some;
  to_bits = λ v. v;
}

next_number-shorter :
    (t rest : List ℕ) (v : ℕ) → next_number t ≡ some (rest, v) → length rest < length t
unfolding next_number
next_number-shorter [] rest v e = absurd cc
next_number-shorter (x ∷ xs) rest v e = let same : xs ≡ rest = cc in rw (sym same) (omega arith)

numbers-IsScanner : IsScanner numbers
numbers-IsScanner = record {
  space_le = λ t. omega arith;
  int_lt = next_number-shorter;
  float_lt = next_number-shorter;
  float_parses = λ t rest text e. (text, refl);
}

abbrev one_sphere : List ℕ
one_sphere =
    1 ∷ 2 ∷ 3 ∷ 4 ∷ 5 ∷ 1 ∷ 6 ∷ 7 ∷ 255 ∷ 0 ∷ 3 ∷ 1 ∷ 0 ∷ 30 ∷ 30 ∷ 30 ∷ 0 ∷ 5 ∷ 0 ∷ 1 ∷ 1 ∷ 250
    ∷ 128 ∷ 210 ∷ 0 ∷ minus_one ∷ 0 ∷ minus_one ∷ minus_one ∷ 99 ∷ 0 ∷ minus_one ∷ minus_one ∷ []

from_sld-Ends_example :
    Ends numbers (length one_sphere) (from_sld numbers (suc (length one_sphere)) one_sphere)
from_sld-Ends_example = from_sld-Ends numbers numbers-IsScanner one_sphere

abbrev two_words : ℕ → SldData
two_words i = record {
  seq = typed 7 i32 ∷ typed 0x3f800000 f32 ∷ [];
  read_index = i;
  info = record { num_objects = 0 };
}

two_words-ReadsTo : ReadsTo (two_words 0) (typed 7 i32 ∷ typed 0x3f800000 f32 ∷ []) (two_words 2)
unfolding inw finw
two_words-ReadsTo =
    int_read (two_words 0) (two_words 1) (two_words 2) 7 _ refl (
      float_read (two_words 1) (two_words 2) (two_words 2) 0x3f800000 _ refl
        (no_read (two_words 2)))

reads-Handed_example : Handed (two_words 0) (typed 7 i32 ∷ typed 0x3f800000 f32 ∷ []) (two_words 2)
reads-Handed_example =
    reads-Handed (two_words 0) (two_words 2) (typed 7 i32 ∷ typed 0x3f800000 f32 ∷ [])
      two_words-ReadsTo

-- a scene without objects
abbrev no_spheres : List ℕ
no_spheres =
    1 ∷ 2 ∷ 3 ∷ 4 ∷ 5 ∷ 1 ∷ 6 ∷ 7 ∷ 255 ∷ minus_one ∷ minus_one ∷ 99 ∷ 0 ∷ minus_one ∷ minus_one
    ∷ []

abbrev no_spheres_words : List TypedU32
no_spheres_words =
    typed 1 f32
    ∷ typed 2 f32
    ∷ typed 3 f32
    ∷ typed 4 f32
    ∷ typed 5 f32
    ∷ typed 1 i32
    ∷ typed 6 f32
    ∷ typed 7 f32
    ∷ typed 255 f32
    ∷ typed minus_one i32
    ∷ typed minus_one i32
    ∷ typed 99 i32
    ∷ typed 0 i32
    ∷ typed minus_one i32
    ∷ typed minus_one i32
    ∷ []

abbrev no_spheres_data : ℕ → SldData
no_spheres_data i = record {
  seq = no_spheres_words;
  read_index = i;
  info = record { num_objects = 0 };
}

no_spheres-parsed :
    parse_sld numbers no_spheres
    ≡ done (no_spheres_data 0) (record { rest = []; seq = no_spheres_words })
unfolding parse_sld next_number
no_spheres-parsed = refl

scene_is_read_example : ReadsTo (no_spheres_data 0) no_spheres_words (no_spheres_data 15)
scene_is_read_example =
    scene_is_read numbers no_spheres (no_spheres_data 0)
      (record { rest = []; seq = no_spheres_words }) no_spheres-parsed
