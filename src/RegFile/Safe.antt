-- ===== src/RegFile/Safe.antt =====
-- The methods of core_sim/src/reg_file.rs on registers that exist.
use cpuex2022_7_simulator.Common.{ℕ, ◌<◌, Post, returns}
use cpuex2022_7_simulator.Register.{max_reg_id}
use cpuex2022_7_simulator.RegFile.{RegFile, get, get_f, set_reg, set_f}
use cpuex2022_7_simulator.RegFile.Access.{
  IsValid, get_lem, get_f_lem, set_reg_lem, set_f_lem, after_get-IsValid, after_get_f-IsValid,
  after_set-IsValid, after_set_f-IsValid,
}

module _ {F E : Type 0} (zero_f : F) (rf : RegFile F) (v : IsValid zero_f rf) (id : ℕ)
    (h : id < max_reg_id) where
  pub get-Post : Post (λ (_ : ℕ). IsValid zero_f) (IsValid zero_f) (get {E = E} id rf)
  get-Post = rw (get_lem zero_f rf v id h) (returns (after_get-IsValid zero_f rf v id))

  pub get_f-Post : Post (λ (_ : F). IsValid zero_f) (IsValid zero_f) (get_f {E = E} id rf)
  get_f-Post = rw (get_f_lem zero_f rf v id h) (returns (after_get_f-IsValid zero_f rf v id))

  pub set_reg-Post :
      (val : ℕ)
      → Post (λ (_ : Unit {0}). IsValid zero_f) (IsValid zero_f) (set_reg {E = E} id val rf)
  set_reg-Post val =
      rw (set_reg_lem zero_f rf v id h val) (returns (after_set-IsValid zero_f rf v id val))

  pub set_f-Post :
      (val : F) → Post (λ (_ : Unit {0}). IsValid zero_f) (IsValid zero_f) (set_f {E = E} id val rf)
  set_f-Post val =
      rw (set_f_lem zero_f rf v id h val) (returns (after_set_f-IsValid zero_f rf v id val))
