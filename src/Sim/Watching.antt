-- ===== src/Sim/Watching.antt =====
-- The values that core_sim/src/sim.rs gathers at a stop.
use cpuex2022_7_simulator.Common.{
  ap, Has, Has-insert, insert, lookup-insert_self, ℕ, ◌<◌, ◌≡◌, refl, ◌∙◌, List, [], ◌∷◌, Option,
  some, none, Map, Exec, ◌>>=◌, unwrap, Post, Post-bind, Post-within, Post-weaken, returns,
}
use cpuex2022_7_simulator.Float.{Float32}
use cpuex2022_7_simulator.Register.{max_reg_id}
use cpuex2022_7_simulator.RegFile
use cpuex2022_7_simulator.RegFile.Access as RegFileAccess
use cpuex2022_7_simulator.Ty.{unknown}
use cpuex2022_7_simulator.Memory.{Memory}
use cpuex2022_7_simulator.Memory.Watch
use cpuex2022_7_simulator.Memory.Access.{InRange}
use cpuex2022_7_simulator.Memory.Access as MemoryAccess
use cpuex2022_7_simulator.Memory.Bounds.{SameText-InRange}
use cpuex2022_7_simulator.Memory.Safe.{read-IsSound}
use cpuex2022_7_simulator.Cpu.State.{Cpu, RuntimeError}
use cpuex2022_7_simulator.Cpu.Valid.{IsValid, with_registers, with_memory}
use cpuex2022_7_simulator.Cpu.Inspect
use cpuex2022_7_simulator.Sim.Options.{Watchings, SimulationOption}
use cpuex2022_7_simulator.Sim.State.{
  WatchingValues, OnBreak, Simulator, BreakReason, break, ControlFlow,
}
use cpuex2022_7_simulator.Sim.{
  get_reg, get_freg, get_mem, gather, gather_watchings, break_sim, leave,
}

abbrev pub Each : (ℕ → Type 0) → List ℕ → Type 0
Each P [] = Unit {0}
Each P (k ∷ ks) = P k × Each P ks

-- Registers that exist, and addresses outside the instruction memory of `text`.
pub record CanWatch (size : ℕ) (text : Memory) (w : Watchings) : Type 0 where
  pub regs : Each (λ id. id < max_reg_id) w.reg
  pub fregs : Each (λ id. id < max_reg_id) w.freg
  pub addrs : Each (λ addr. InRange size text addr) w.memory

-- Every value that is watched has been gathered.
abbrev pub HasWatched : {F : Type 0} → Watchings → WatchingValues F → Type 0
HasWatched w values =
    Each (λ k. Has k values.reg_map) w.reg
    × Each (λ k. Has k values.freg_map) w.freg
    × Each (λ k. Has k values.memory_map) w.memory

-- A stop for the reason.
pub record Stops {F : Type 0} (opt : SimulationOption F) (reason : BreakReason) (on : OnBreak F)
    : Type 0 where
  pub same_reason : on.reason ≡ reason
  pub gathered : HasWatched opt.watchings on.watchings

-- A processor and a simulator without counts of accesses and types of words: what it takes to see
-- that nothing else has changed.
abbrev pub uncounted_cpu : {F I O : Type 0} → Cpu F I O → Cpu F I O
uncounted_cpu c = record c {
  reg_file = record c.reg_file { stat_i = RegFile.new_stat; stat_f = RegFile.new_stat };
  memory = record c.memory { stat_mem = Watch.new_stat; ty = [] };
}

abbrev pub uncounted : {F I O : Type 0} → Simulator F I O → Simulator F I O
uncounted s = record s { cpu = uncounted_cpu s.cpu }

module _ (fl : Float32) (size nlines : ℕ) (text : Memory) {I O : Type 0} where
  open fl use {F}

  -- A valid processor, and nothing changed but counts of accesses and types of words: `unchanged`
  -- says so of the whole simulator, the other fields name parts of it.
  pub record Held (s s' : Simulator F I O) : Type 0 where
    pub valid : IsValid fl.zero size nlines text s'.cpu
    pub unchanged : uncounted s' ≡ uncounted s
    pub pc : s'.cpu.pc ≡ s.cpu.pc
    pub registers : s'.cpu.reg_file.inner ≡ s.cpu.reg_file.inner
    pub float_registers : s'.cpu.reg_file.inner_f ≡ s.cpu.reg_file.inner_f
    pub bytes : s'.cpu.memory.inner ≡ s.cpu.memory.inner
    pub elapsed_clocks : s'.elapsed_clocks ≡ s.elapsed_clocks
    pub cycle : s'.cycle ≡ s.cycle
    pub fatal_error : s'.fatal_error ≡ s.fatal_error
    pub stat_builder : s'.stat_builder ≡ s.stat_builder

  module _ (s s' : Simulator F I O) (v : Held s s') where
    -- Another processor with the same values.
    still :
        (c : Cpu F I O)
        → IsValid fl.zero size nlines text c
        → uncounted_cpu c ≡ uncounted_cpu s'.cpu
        → Held s (record s' { cpu = c })
    still c valid same = record {
      valid = valid;
      unchanged = ap (λ (part : Cpu F I O). record s' { cpu = part }) same ∙ v.unchanged;
      pc = ap (λ (part : Cpu F I O). part.pc) same ∙ v.pc;
      registers = ap (λ (part : Cpu F I O). part.reg_file.inner) same ∙ v.registers;
      float_registers = ap (λ (part : Cpu F I O). part.reg_file.inner_f) same ∙ v.float_registers;
      bytes = ap (λ (part : Cpu F I O). part.memory.inner) same ∙ v.bytes;
      elapsed_clocks = v.elapsed_clocks;
      cycle = v.cycle;
      fatal_error = v.fatal_error;
      stat_builder = v.stat_builder;
    }

    get_reg-Held :
        {E : Type 0} (id : ℕ)
        → id < max_reg_id
        → Post (λ _. Held s) (λ _. ⊥) (get_reg {E = E} id s')
    unfolding get_reg
    get_reg-Held id h =
        let rf = s'.cpu.reg_file in
        let valid = v.valid.registers in
        rw (◌>>=◌, RegFileAccess.get_lem fl.zero rf valid id h)
          (returns (
            still _ (with_registers v.valid (RegFileAccess.after_get-IsValid fl.zero rf valid id))
              refl))

    get_f-Held :
        {E : Type 0} (id : ℕ)
        → id < max_reg_id
        → Post
            (λ (_ : F) rf. Held s (record s' { cpu = record s'.cpu { reg_file = rf } }))
            (λ _. ⊥)
            (RegFile.get_f {E = E} id s'.cpu.reg_file)
    get_f-Held id h =
        let rf = s'.cpu.reg_file in
        let valid = v.valid.registers in
        rw (RegFileAccess.get_f_lem fl.zero rf valid id h) (
          returns (
            still _ (with_registers v.valid (RegFileAccess.after_get_f-IsValid fl.zero rf valid id))
              refl))

    get_freg-Held :
        {E : Type 0} (id : ℕ)
        → id < max_reg_id
        → Post (λ _. Held s) (λ _. ⊥) (get_freg {E = E} id s')
    unfolding get_freg
    get_freg-Held id h =
        Post-within (λ s1. s1.cpu) (λ part s1. record s1 { cpu = part }) (Inspect.get_freg id) s'
          (Post-within (λ c. c.reg_file) (λ part c. record c { reg_file = part }) (RegFile.get_f id)
            s'.cpu (get_f-Held id h))

    get_mem-Held :
        {E : Type 0} (addr : ℕ)
        → InRange size text addr
        → Post (λ _. Held s) (λ _. ⊥) (unwrap {D = E} (get_mem size addr) s')
    unfolding get_mem
    get_mem-Held addr h =
        let m = s'.cpu.memory in
        let sound = v.valid.memory in
        let region = s'.cpu.reg_file.stat_memregion in
        rw
          (
            unwrap,
            ◌>>=◌,
            MemoryAccess.get_lem size m sound.valid addr
                (SameText-InRange size text m addr sound.same_text h) region none,
          )
          (returns (
            still _ (with_memory v.valid (read-IsSound size text m sound region addr none unknown))
              refl))

  module _ {E V : Type 0} (s : Simulator F I O) (P : ℕ → Type 0)
      (look : ℕ → Exec (Simulator F I O) E V)
      (each : (s' : Simulator F I O)
        → Held s s'
        → (k : ℕ) → P k
        → Post (λ _. Held s) (λ _. ⊥) (look k s')) where
    -- The keys looked up are in the map, and so are those that were there.
    gather-Held :
        (ks : List ℕ) (values : Map V) (s' : Simulator F I O)
        → Each P ks
        → Held s s'
        → Post
            (λ m s1. (Each (λ k. Has k m) ks × ((k : ℕ) → Has k values → Has k m)) × Held s s1)
            (λ _. ⊥)
            (gather look ks values s')
    unfolding gather
    gather-Held [] values s' h v = returns ((tt, λ k has. has), v)
    gather-Held (k ∷ ks) values s' h v = Post-bind (look k) _ s' (each s' v k h.0) (λ a s1 v1.
        Post-weaken (gather-Held ks (insert k a values) s1 h.1 v1)
          (λ m s2 q. (
            (
              (q.0.1 k (a, lookup-insert_self k a values), q.0.0),
              λ j has. q.0.1 j (Has-insert k j a values has),
            ),
            q.1,
          ))
          (λ _ b. b))

  Held-refl : (s : Simulator F I O) → IsValid fl.zero size nlines text s.cpu → Held s s
  Held-refl s valid = record {
    valid = valid;
    unchanged = refl;
    pc = refl;
    registers = refl;
    float_registers = refl;
    bytes = refl;
    elapsed_clocks = refl;
    cycle = refl;
    fatal_error = refl;
    stat_builder = refl;
  }

  module _ (opt : SimulationOption F) (can : CanWatch size text opt.watchings) (s : Simulator F I O)
      (valid : IsValid fl.zero size nlines text s.cpu) where
    gather_watchings-Held :
        {E : Type 0}
        → Post
            (λ values s'. HasWatched opt.watchings values × Held s s')
            (λ _. ⊥)
            (gather_watchings {E = E} size opt.watchings s)
    unfolding gather_watchings
    gather_watchings-Held =
        let w = opt.watchings in
        Post-bind (gather get_reg w.reg []) _ s
          (gather-Held s (λ id. id < max_reg_id) get_reg (λ s' v k h. get_reg-Held s s' v k h) w.reg
            [] s can.regs (Held-refl s valid))
          (λ _ s1 v1.
            Post-bind (gather get_freg w.freg []) _ s1
              (gather-Held s (λ id. id < max_reg_id) get_freg (λ s' v k h. get_freg-Held s s' v k h)
                w.freg [] s1 can.fregs v1.1)
              (λ _ s2 v2.
                Post-bind (gather (λ addr. unwrap (get_mem size addr)) w.memory []) _ s2
                  (gather-Held s (λ addr. InRange size text addr)
                    (λ addr. unwrap (get_mem size addr)) (λ s' v k h. get_mem-Held s s' v k h)
                    w.memory [] s2 can.addrs v2.1)
                  (λ _ s3 v3. returns ((v1.0.0, v2.0.0, v3.0.0), v3.1))))

    -- `break_sim!`
    leave-Stops :
        (reason : BreakReason)
        → Post {E = RuntimeError}
            (λ flow s'. (on : OnBreak F) × (flow ≡ break on) × Stops opt reason on × Held s s')
            (λ _. ⊥)
            (break_sim size opt reason s)
    unfolding break_sim
    leave-Stops reason =
        Post-bind (gather_watchings size opt.watchings) _ s gather_watchings-Held
          (λ w s1 v1. returns (_, refl, record { same_reason = refl; gathered = v1.0 }, v1.1))

    pub leave-Post :
        {Q : Option (ControlFlow F) → Simulator F I O → Type 0} (reason : BreakReason)
        → ((on : OnBreak F) (s' : Simulator F I O)
            → Stops opt reason on
            → Held s s'
            → Q (some (break on)) s')
        → Post {E = RuntimeError} Q (λ _. ⊥) (leave size opt reason s)
    unfolding leave
    leave-Post {Q} reason h =
        Post-bind (break_sim size opt reason) _ s (leave-Stops reason)
          (λ flow s1 q. rw q.1 (returns (h q.0 s1 q.2 q.3)))
