-- ===== src/Examples/Images.antt =====
-- core_sim/src/ppm.rs: an image of one pixel, over a scanner of tally marks.
use cpuex2022_7_simulator.Common.{
  ℕ, zero, suc, ◌+◌, ◌≡◌, ◌==◌, ◌&&◌, if◌then◌else◌, arith, refl, List, [], ◌∷◌, ◌++◌, Option, none,
  some, Outcome, done,
}
use cpuex2022_7_simulator.Ppm.{PpmDataV6, PpmHeaderInfo, HeaderScanner, new, verify_header}
use cpuex2022_7_simulator.Ppm.Header.{
  IsHeaderScanner, FitsU32, space, header, outb_all, verify_header-outb_all,
}

tag : List ℕ → Option (List ℕ)
tag (a ∷ b ∷ rest) = if (a == 0x50) && (b == 0x36) then some rest else none
tag _ = none

skip_spaces : List ℕ → List ℕ
skip_spaces [] = []
skip_spaces (c ∷ rest) = if c == space then skip_spaces rest else c ∷ rest

spaces : List ℕ → Option (List ℕ)
unfolding skip_spaces
spaces [] = none
spaces (c ∷ rest) = if c == space then some (skip_spaces rest) else none

-- the number n is n + 1 marks
mark : ℕ → List ℕ → List ℕ × ℕ
mark n [] = ([], n)
mark n (c ∷ rest) = if c == 0x31 then mark (suc n) rest else (c ∷ rest, n)

number : List ℕ → Option (List ℕ × ℕ)
unfolding mark
number [] = none
number (c ∷ rest) = if c == 0x31 then some (mark 0 rest) else none

abbrev marks : ℕ → List ℕ
marks zero = 0x31 ∷ []
marks (suc n) = 0x31 ∷ marks n

abbrev tally : HeaderScanner
tally = record { tag_p6 = tag; multispace1 = spaces; number = number }

mark-marks :
    (n k : ℕ) (rest : List ℕ) → mark k (marks n ++ (space ∷ rest)) ≡ (space ∷ rest, k + n + 1)
unfolding mark
mark-marks zero k rest = let here : k + 0 + 1 ≡ suc k = omega arith in rw here refl
mark-marks (suc n) k rest =
    let next : k + suc n + 1 ≡ suc k + n + 1 = omega arith in rw next (mark-marks n (suc k) rest)

number-marks : (n : ℕ) (rest : List ℕ) → number (marks n ++ (space ∷ rest)) ≡ some (space ∷ rest, n)
unfolding number mark
number-marks zero rest = refl
number-marks (suc n) rest =
    let here : 0 + n + 1 ≡ suc n = omega arith in rw (mark-marks n 0 rest, here) refl

spaces-marks : (n : ℕ) (rest : List ℕ) → spaces (space ∷ (marks n ++ rest)) ≡ some (marks n ++ rest)
unfolding spaces skip_spaces
spaces-marks zero rest = refl
spaces-marks (suc n) rest = refl

tally-IsHeaderScanner : IsHeaderScanner tally marks
unfolding tag spaces
tally-IsHeaderScanner = record {
  tag_taken = λ rest. refl;
  number_taken = λ n rest l. number-marks n rest;
  space_taken = spaces-marks;
  spaces_taken = λ rest. (skip_spaces rest, refl);
}

abbrev one_pixel : PpmHeaderInfo
one_pixel = record { width = 1; height = 1; color = 3 }

one_pixel-FitsU32 : FitsU32 one_pixel
one_pixel-FitsU32 = record {
  width_lt = omega arith;
  height_lt = omega arith;
  color_lt = omega arith;
}

verify_header-outb_all_example :
    (d : PpmDataV6) × (◌≡◌ {A = Outcome PpmDataV6 ℕ (Unit {0})}
      (outb_all (header marks one_pixel (3 ∷ 2 ∷ 1 ∷ [])) new)
      (done tt d))
    × (verify_header tally d ≡ some one_pixel)
verify_header-outb_all_example =
    verify_header-outb_all tally marks tally-IsHeaderScanner one_pixel (3 ∷ 2 ∷ 1 ∷ [])
      one_pixel-FitsU32
