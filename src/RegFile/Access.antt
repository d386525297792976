-- ===== src/RegFile/Access.antt =====
-- The registers under the methods of core_sim/src/reg_file.rs.
use cpuex2022_7_simulator.Common.{
  ℕ, ◌+◌, ◌<◌, ◌≡◌, ◌∙◌, ap, arith, some, Outcome, done, set, length, length-set, get_elem?, get_or,
  get_elem?-set_ne, get_elem?-eq-get_or, get_or-set_self, get_or-set_ne, if◌then◌else◌, ◌==◌,
  get_or-set_ne,
}
use cpuex2022_7_simulator.Register.{max_reg_id}
use cpuex2022_7_simulator.RegFile.Region.{update_sp}
use cpuex2022_7_simulator.RegFile.{
  RegFileStat, RegFile, encounter_read, encounter_write, get, get_f, set_reg, set_f,
}

-- Both files have 32 registers, register 0 of each is zero, and the counters are as many.
pub record IsValid {F : Type 0} (zero_f : F) (rf : RegFile F) : Type 0 where
  pub regs : length rf.inner ≡ max_reg_id
  pub fregs : length rf.inner_f ≡ max_reg_id
  pub writes_i : length rf.stat_i.write ≡ max_reg_id
  pub reads_i : length rf.stat_i.read ≡ max_reg_id
  pub writes_f : length rf.stat_f.write ≡ max_reg_id
  pub reads_f : length rf.stat_f.read ≡ max_reg_id
  pub x0 : get_elem? rf.inner 0 ≡ some 0
  pub f0 : get_elem? rf.inner_f 0 ≡ some zero_f

-- The counters after an access of a register.
abbrev pub count_read : ℕ → RegFileStat → RegFileStat
count_read id st = record st { read = set st.read id (get_or st.read id 0 + 1) }

abbrev pub count_write : ℕ → RegFileStat → RegFileStat
count_write id st = record st { write = set st.write id (get_or st.write id 0 + 1) }

module _ {F : Type 0} where
  abbrev pub after_get : ℕ → RegFile F → RegFile F
  after_get id rf = record rf { stat_i = count_read id rf.stat_i }

  abbrev pub after_get_f : ℕ → RegFile F → RegFile F
  after_get_f id rf = record rf { stat_f = count_read id rf.stat_f }

  abbrev pub after_set : ℕ → ℕ → RegFile F → RegFile F
  after_set id val rf = record rf {
    inner = if id == 0 then rf.inner else set rf.inner id val;
    stat_memregion = if id == 2 then update_sp val rf.stat_memregion else rf.stat_memregion;
    stat_i = count_write id rf.stat_i;
  }

  abbrev pub after_set_f : ℕ → F → RegFile F → RegFile F
  after_set_f id val rf = record rf {
    inner_f = if id == 0 then rf.inner_f else set rf.inner_f id val;
    stat_f = count_write id rf.stat_f;
  }

  module _ (zero_f : F) (rf : RegFile F) (v : IsValid zero_f rf) (id : ℕ)
      (h : id < max_reg_id) where
    pub get_lem :
        {E : Type 0}
        → ◌≡◌ {A = Outcome (RegFile F) E ℕ}
            (get id rf)
            (done (get_or rf.inner id 0) (after_get id rf))
    unfolding get encounter_read
    get_lem = ground (
      arith,
      v.reads_i,
      v.regs,
      get_elem?-eq-get_or rf.stat_i.read id 0,
      get_elem?-eq-get_or rf.inner id 0,
    )

    pub get_f_lem :
        {E : Type 0}
        → ◌≡◌ {A = Outcome (RegFile F) E F}
            (get_f id rf)
            (done (get_or rf.inner_f id zero_f) (after_get_f id rf))
    unfolding get_f encounter_read
    get_f_lem = ground (
      arith,
      v.reads_f,
      v.fregs,
      get_elem?-eq-get_or rf.stat_f.read id 0,
      get_elem?-eq-get_or rf.inner_f id zero_f,
    )

    pub set_reg_lem :
        {E : Type 0} (val : ℕ)
        → ◌≡◌ {A = Outcome (RegFile F) E (Unit {0})}
            (set_reg id val rf)
            (done tt (after_set id val rf))
    unfolding set_reg encounter_write
    set_reg_lem val = ground (
      arith,
      v.writes_i,
      v.regs,
      get_elem?-eq-get_or rf.stat_i.write id 0,
      get_elem?-eq-get_or rf.inner id 0,
    )

    pub set_f_lem :
        {E : Type 0} (val : F)
        → ◌≡◌ {A = Outcome (RegFile F) E (Unit {0})}
            (set_f id val rf)
            (done tt (after_set_f id val rf))
    unfolding set_f encounter_write
    set_f_lem val = ground (
      arith,
      v.writes_f,
      v.fregs,
      get_elem?-eq-get_or rf.stat_f.write id 0,
      get_elem?-eq-get_or rf.inner_f id zero_f,
    )

-- Writes keep the registers valid, register 0 included.
module _ {F : Type 0} (zero_f : F) (rf : RegFile F) (v : IsValid zero_f rf) where
  pub after_get-IsValid : (id : ℕ) → IsValid zero_f (after_get id rf)
  after_get-IsValid id = record {
    regs = v.regs;
    fregs = v.fregs;
    writes_i = v.writes_i;
    reads_i = length-set _ _ _ ∙ v.reads_i;
    writes_f = v.writes_f;
    reads_f = v.reads_f;
    x0 = v.x0;
    f0 = v.f0;
  }

  pub after_get_f-IsValid : (id : ℕ) → IsValid zero_f (after_get_f id rf)
  after_get_f-IsValid id = record {
    regs = v.regs;
    fregs = v.fregs;
    writes_i = v.writes_i;
    reads_i = v.reads_i;
    writes_f = v.writes_f;
    reads_f = length-set _ _ _ ∙ v.reads_f;
    x0 = v.x0;
    f0 = v.f0;
  }

  pub after_set-IsValid : (id val : ℕ) → IsValid zero_f (after_set id val rf)
  after_set-IsValid id val = record {
    regs = ground (arith, v.regs, length-set rf.inner id val);
    fregs = v.fregs;
    writes_i = length-set _ _ _ ∙ v.writes_i;
    reads_i = v.reads_i;
    writes_f = v.writes_f;
    reads_f = v.reads_f;
    x0 = ground (arith, v.x0, get_elem?-set_ne rf.inner {i = id} {j = 0} val);
    f0 = v.f0;
  }

  pub after_set_f-IsValid : (id : ℕ) (val : F) → IsValid zero_f (after_set_f id val rf)
  after_set_f-IsValid id val = record {
    regs = v.regs;
    fregs = ground (arith, v.fregs, length-set rf.inner_f id val);
    writes_i = v.writes_i;
    reads_i = v.reads_i;
    writes_f = length-set _ _ _ ∙ v.writes_f;
    reads_f = v.reads_f;
    x0 = v.x0;
    f0 = ground (arith, v.f0, get_elem?-set_ne rf.inner_f {i = id} {j = 0} val);
  }

-- On a valid register file a write of a register never panics and keeps the file valid, and the
-- read that follows returns 0 for register 0, the value for the register that was written, and
-- what was there before for any other.
pub get-set_reg :
    {F E : Type 0} (zero_f : F) (rf : RegFile F) (id val other : ℕ)
    → IsValid zero_f rf
    → id < max_reg_id
    → other < max_reg_id
    → (rf' : RegFile F) × ◌≡◌ {A = Outcome (RegFile F) E (Unit {0})}
        (set_reg id val rf)
        (done tt rf')
      × IsValid zero_f rf'
      × ◌≡◌ {A = Outcome (RegFile F) E ℕ} (get other rf') (
          done
            (if other == 0 then 0 else if other == id then val else get_or rf.inner other 0)
            (after_get other rf'))
get-set_reg {F} {E} zero_f rf id val other v h g = (
  after_set id val rf,
  set_reg_lem zero_f rf v id h val,
  after_set-IsValid zero_f rf v id val,
  get_lem zero_f (after_set id val rf) (after_set-IsValid zero_f rf v id val) other g
      ∙ ap (λ (n : ℕ). done n (after_get other (after_set id val rf)))
          (ground (
            arith,
            v.regs,
            v.x0,
            get_elem?-eq-get_or rf.inner 0 0,
            get_or-set_self rf.inner id val 0,
            get_or-set_ne rf.inner id other val 0,
          )),
)
