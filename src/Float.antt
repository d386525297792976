-- ===== src/Float.antt =====
-- `f32` and the C library of core_sim/src/fpu_wrapper.rs, which the build script compiles and
-- binds: both are a parameter of the model. The wrapper itself is below.
use cpuex2022_7_simulator.Common.{ℕ, Bool, ◌<◌, ◌^◌, ◌≡◌}

pub record Float32 : Type 1 where
  pub F : Type 0
  pub from_bits : ℕ → F
  pub to_bits : F → ℕ
  -- `to_bits` is documented as a transmutation to `u32`, and `from_bits` as its inverse.
  pub to_bits_lt : (x : F) → to_bits x < 2 ^ 32
  pub from_bits-to_bits : (x : F) → from_bits (to_bits x) ≡ x
  -- the literals 0.0, 0.5 and 1.0
  pub zero : F
  pub half : F
  pub one : F
  pub add : F → F → F
  pub sub : F → F → F
  pub mul : F → F → F
  pub neg : F → F
  pub signum : F → F
  pub copysign : F → F → F
  -- the comparisons `==`, `<` and `>=`, of which `>` and `!=` are the converse and the negation
  pub eq : F → F → Bool
  pub lt : F → F → Bool
  pub ge : F → F → Bool
  -- binding::{fmul, fdiv, fsqrt, fcvtsw, fcvtws, ffloor}; an `i32` is its bit pattern
  pub c_fmul : F → F → F
  pub c_fdiv : F → F → F
  pub c_fsqrt : F → F
  pub c_ffloor : F → F
  pub c_fcvtsw : ℕ → F
  pub c_fcvtws : F → ℕ

-- the functions of `mod fpu` under the feature `fpu_sim` that the first instruction set uses
module _ (fl : Float32) where
  open fl use {F, half, c_fmul, c_fdiv, c_fsqrt, c_ffloor, c_fcvtsw, c_fcvtws}

  unfoldable pub fmul : F → F → F
  fmul a b = c_fmul a b

  unfoldable pub fdiv : F → F → F
  fdiv a b = c_fdiv a b

  unfoldable pub fsqrt : F → F
  fsqrt a = c_fsqrt a

  unfoldable pub fcvtsw : ℕ → F
  fcvtsw a = c_fcvtsw a

  unfoldable pub fcvtws : F → ℕ
  fcvtws a = c_fcvtws a

  unfoldable pub ffloor : F → F
  ffloor a = c_ffloor a

  unfoldable pub fhalf : F → F
  fhalf a = c_fmul a half
