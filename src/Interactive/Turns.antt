-- ===== src/Interactive/Turns.antt =====
-- The loop of cli/src/interactive.rs: showing what was asked for, running, and telling of a stop.
use mathlib.Core.Option
use cpuex2022_7_simulator.Common.{
  ℕ, Bool, true, false, List, [], ◌∷◌, Option, none, some, Exec, done, fail, abort, ◌>>=◌, ◌>>◌,
  pure, within, Map, lookup,
}
use cpuex2022_7_simulator.Float.{Float32}
use cpuex2022_7_simulator.Ty.{TypedU32}
use cpuex2022_7_simulator.Register.{RegId, FRegId}
use cpuex2022_7_simulator.Memory.{MemoryAccessError}
use cpuex2022_7_simulator.Memory.Watch.{SpyResult}
use cpuex2022_7_simulator.Cpu.State.{Pc, Ports, RuntimeError}
use cpuex2022_7_simulator.Sim.Options.{Addr, ExecuteMode}
use cpuex2022_7_simulator.Sim.State.{
  Instant, Simulator, BreakReason, cannot_restart, failed, reached, step_ended, break_point, spy,
  OnBreak, ControlFlow, break, exit,
}
use cpuex2022_7_simulator.Sim.{get_reg, get_freg, get_mem, exit_sim, single_cycle}
use cpuex2022_7_simulator.Interactive.{
  ShowRegFileKind, reg_file_i, reg_file_f, reg_file_all, ShowKind, show_pc, is_trace_enabled,
  show_memory, show_register_i, show_register_f, Command, dynamic, static, exit_command, Session,
  static_command, begin,
}

-- What is shown; `as_asked` is what is formatted without a method that changes the simulator.
pub data Shown (F : Type 0) : Type 0 where
  pc_and_cycle : Pc → ℕ → Shown F
  trace : Bool → Shown F
  word : Addr → TypedU32 → Shown F
  word_error : MemoryAccessError → Shown F
  register_i : RegId → TypedU32 → Shown F
  register_f : FRegId → F → Shown F
  as_asked : ShowKind → Shown F

-- What is told of the reason of a stop.
pub data Told : Type 0 where
  nothing : Told
  reached_breakpoint : Addr → Told
  detected : SpyResult → Told
  cannot_restart_due_to : RuntimeError → Told
  failed_at : ℕ → RuntimeError → Told

pub record Printed (F : Type 0) : Type 0 where
  pub told : Told
  pub files : List ShowRegFileKind
  pub regs : List (ℕ × TypedU32)
  pub fregs : List (ℕ × F)
  pub words : List (ℕ × TypedU32)

pub data Turn (F : Type 0) : Type 0 where
  prompt : Turn F
  stopped : Printed F → Turn F
  running : Turn F
  halted : Turn F
  left_prompt : Turn F

-- `map[key]` for each key: a missing one panics.
unfoldable pub values : {V : Type 0} → List ℕ → Map V → Option (List (ℕ × V))
values [] m = some []
values (k ∷ ks) m = elim (lookup k m) [
  | none ↦ none
  | some v ↦ Option.map (λ rest. (k, v) ∷ rest) (values ks m)
]

-- the views of whole files
unfoldable pub shown_files : Bool → Bool → List ShowRegFileKind
shown_files true true = reg_file_all ∷ []
shown_files true false = reg_file_i ∷ []
shown_files false true = reg_file_f ∷ []
shown_files false false = []

-- A register is printed by itself where its file is not.
unfoldable pub unless_shown : {V : Type 0} → Bool → List ℕ → Map V → Option (List (ℕ × V))
unfolding values
unless_shown true keys m = some []
unless_shown false keys m = values keys m

module _ {F I O : Type 0} where
  -- `sim.get_error_msg().unwrap()` panics where there is no error.
  unfoldable pub tell : BreakReason → Simulator F I O → Option Told
  tell cannot_restart sim = Option.map cannot_restart_due_to sim.fatal_error
  tell failed sim = Option.map (failed_at sim.cycle) sim.fatal_error
  tell (reached _) sim = some nothing
  tell step_ended sim = some nothing
  tell (break_point a) sim = some (reached_breakpoint a)
  tell (spy result) sim = some (detected result)

  -- `none` is a panic.
  unfoldable pub print_stop : Session F I O → OnBreak F → Option (Printed F)
  unfolding tell shown_files unless_shown values
  print_stop s on = elim (tell on.reason s.sim) [
    | none ↦ none
    | some told ↦
        elim (unless_shown s.watching_regfile.integers s.opt.watchings.reg on.watchings.reg_map) [
          | none ↦ none
          | some regs ↦
              elim (unless_shown s.watching_regfile.floats s.opt.watchings.freg
                on.watchings.freg_map) [
                  | none ↦ none
                  | some fregs ↦ elim (values s.opt.watchings.memory on.watchings.memory_map) [
                    | none ↦ none
                    | some words ↦ some (record {
                      told = told;
                      files = shown_files s.watching_regfile.integers s.watching_regfile.floats;
                      regs = regs;
                      fregs = fregs;
                      words = words;
                    })
                  ]
                ]
        ]
  ]

  abbrev pub in_sim : {E A : Type 0} → Exec (Simulator F I O) E A → Exec (Session F I O) E A
  in_sim m = within (λ s. s.sim) (λ part s. record s { sim = part }) m

  -- A failed read is printed.
  unfoldable pub show_word : {E : Type 0} → ℕ → Addr → Exec (Simulator F I O) E (Shown F)
  unfolding get_mem
  show_word size addr sim = elim (get_mem size addr sim) [
    | done v sim' ↦ done (word addr v) sim'
    | fail e sim' ↦ done (word_error e) sim'
    | abort ↦ abort
  ]

  unfoldable pub show_now : {E : Type 0} → ℕ → Bool → ShowKind → Exec (Simulator F I O) E (Shown F)
  unfolding show_word get_reg get_freg
  show_now size do_trace show_pc sim = done (pc_and_cycle sim.cpu.pc sim.cycle) sim
  show_now size do_trace is_trace_enabled sim = done (trace do_trace) sim
  show_now size do_trace (show_memory addr) sim = show_word size addr sim
  show_now size do_trace (show_register_i id) sim =
      (get_reg id >>= λ val. pure (register_i id val)) sim
  show_now size do_trace (show_register_f id) sim =
      (get_freg id >>= λ val. pure (register_f id val)) sim
  show_now size do_trace k sim = done (as_asked k) sim

  -- the head of the loop: what is to be shown is taken, and shown
  unfoldable pub take_show : {E : Type 0} → ℕ → Exec (Session F I O) E (Option (Shown F))
  unfolding show_now
  take_show size s = elim s.show_next [
    | none ↦ done none s
    | some k ↦
        (in_sim (show_now size s.opt.do_trace k) >>= λ shown. pure (some shown))
          (record s { show_next = none })
  ]

  unfoldable pub update_mode : Option ExecuteMode → Session F I O → Session F I O
  update_mode none s = s
  update_mode (some mode) s = record s { opt = record s.opt { mode = mode } }

  -- What follows `single_cycle`.
  unfoldable pub after_run : {E : Type 0} → Option (ControlFlow F) → Exec (Session F I O) E (Turn F)
  unfolding print_stop
  after_run none s = done running s
  after_run (some exit) s = done halted s
  after_run (some (break on)) s = elim (print_stop s on) [
    | none ↦ abort
    | some p ↦ done (stopped p) s
  ]

module _ (fl : Float32) (size nlines : ℕ) {I O : Type 0} (ports : Ports fl.F I O) (now : Instant)
    (fuel : ℕ) where
  open fl use {F}

  unfoldable pub start : Exec (Session F I O) RuntimeError (Turn F)
  unfolding single_cycle after_run
  start s = (in_sim (single_cycle fl size nlines ports s.opt now fuel) >>= λ flow. after_run flow) s

  unfoldable pub command : Command F → Exec (Session F I O) RuntimeError (Turn F)
  unfolding static_command update_mode start exit_sim
  command (static c) s = elim (static_command c s) [ none ↦ abort | some s' ↦ done prompt s' ]
  command (dynamic mode) s = start (update_mode mode s)
  command exit_command s = done left_prompt (record s { sim = exit_sim now s.sim })

  -- The loop over the commands that are typed. `none`: the prompt waits for another one, or the
  -- program that was started last is still running.
  unfoldable pub after_turn :
      {E : Type 0}
      → Turn F
      → Exec (Session F I O) E (Option (Unit {0}))
      → Exec (Session F I O) E (Option (Unit {0}))
  after_turn prompt next = next
  after_turn (stopped p) next = next
  after_turn running next = pure none
  after_turn halted next = pure (some tt)
  after_turn left_prompt next = pure (some tt)

  unfoldable pub take_turns :
      List (Command F) → Exec (Session F I O) RuntimeError (Option (Unit {0}))
  unfolding take_show command after_turn
  take_turns [] = pure none
  take_turns (c ∷ cs) = do take_show size; turn ← command c; after_turn turn (take_turns cs)

  unfoldable pub execute_interactive :
      List (Command F) → Exec (Simulator F I O) RuntimeError (Option (Unit {0}))
  unfolding begin take_turns
  execute_interactive cs sim = elim (take_turns cs (begin sim)) [
    | done a s ↦ done a s.sim
    | fail e s ↦ fail e s.sim
    | abort ↦ abort
  ]
