-- ===== src/Interactive.antt =====
-- cli/src/interactive.rs: the prompt, whose commands change the options of a run and start it. The
-- parser is the code that the library peg generates from a grammar: this begins at what it returns.
-- What is printed is modelled as far as printing can fail or touches the simulator.
pub mod Turns
pub mod View
pub mod Watches
pub mod Commands
pub mod Stops
use cpuex2022_7_simulator.Common.{
  ℕ, ◌==◌, Bool, true, false, not, List, [], ◌∷◌, ◌++◌, Option, none, some, ◌&&◌, if◌then◌else◌,
  Exec, done, fail, abort, ◌>>=◌, ◌>>◌, pure, modify, within, unwrap, Outcome, Map, lookup, insert,
  delete,
}
use cpuex2022_7_simulator.Float.{Float32}
use cpuex2022_7_simulator.Ty.{TypedU32}
use cpuex2022_7_simulator.Register.{RegId, FRegId}
use cpuex2022_7_simulator.Memory.{MemoryAccessError}
use cpuex2022_7_simulator.Memory.Watch.{
  SpyUnit, SpyWatchKind, SpyKind, SpyResult, memory, register_i, register_f,
}
use cpuex2022_7_simulator.Cpu.State.{Pc, Ports, RuntimeError}
use cpuex2022_7_simulator.Cpu.Inspect.{add_mem_spy, remove_mem_spy}
use cpuex2022_7_simulator.Sim.Options.{
  Addr, BreakPoint, ExecuteMode, SimulationOption, Watchings, default_option,
}
use cpuex2022_7_simulator.Sim.State.{
  Instant, Simulator, BreakReason, cannot_restart, failed, reached, step_ended, break_point,
  WatchingValues, OnBreak, ControlFlow, break, exit,
}
use cpuex2022_7_simulator.Sim.State as SimState
use cpuex2022_7_simulator.Sim.{get_reg, get_freg, get_mem, exit_sim, single_cycle}

-- `ShowRegFileKind` of core_sim/src/reg_file.rs
pub data ShowRegFileKind : Type 0 where
  reg_file_i reg_file_f reg_file_all : ShowRegFileKind

-- `Spy` of core_sim/src/common.rs
pub record Spy : Type 0 where
  pub kind : SpyWatchKind
  pub target : SpyKind

pub data Operation : Type 0 where
  add remove : Operation

pub data WatchingKind : Type 0 where
  reg_file : ShowRegFileKind → WatchingKind
  reg : RegId → WatchingKind
  freg : FRegId → WatchingKind
  mem_addr : Addr → WatchingKind

-- `Stat(StatKind::Cpu)` is `stat`.
pub data ShowKind : Type 0 where
  show_pc : ShowKind
  label_def_near_pc : Bool → ShowKind
  stat : ShowKind
  all_bp : ShowKind
  is_trace_enabled : ShowKind
  show_watchings : ShowKind
  added_spy : Spy → ShowKind
  removed_spy : Spy → ShowKind
  show_memory : Addr → ShowKind
  show_reg_file : ShowRegFileKind → ShowKind
  show_register_i : RegId → ShowKind
  show_register_f : FRegId → ShowKind

pub data StaticCommand (F : Type 0) : Type 0 where
  update_whether_trace : Bool → StaticCommand F
  show : ShowKind → StaticCommand F
  add_bp : BreakPoint F → StaticCommand F
  remove_bp : Addr → StaticCommand F
  watch : Operation → WatchingKind → StaticCommand F
  spy : Operation → Spy → StaticCommand F

pub data Command (F : Type 0) : Type 0 where
  dynamic : Option ExecuteMode → Command F
  static : StaticCommand F → Command F
  exit_command : Command F

-- the two flags of the bit mask `WatchRegFile`
pub record WatchRegFile : Type 0 where
  pub integers : Bool
  pub floats : Bool

-- `WatchRegFile::none()`
abbrev pub no_file : WatchRegFile
no_file = record { integers = false; floats = false }

-- the locals of `execute_interactive`
pub record Session (F I O : Type 0) : Type 0 where
  pub sim : Simulator F I O
  pub opt : SimulationOption F
  pub watching_regfile : WatchRegFile
  pub show_next : Option ShowKind

unfoldable pub begin : {F I O : Type 0} → Simulator F I O → Session F I O
begin sim = record { sim = sim; opt = default_option; watching_regfile = no_file; show_next = none }

-- `contains`, a `push` of what is not there, and the removal at the first position
unfoldable pub contains : ℕ → List ℕ → Bool
contains k [] = false
contains k (x ∷ xs) = let further = contains k xs in if x == k then true else further

unfoldable pub push_new : ℕ → List ℕ → List ℕ
unfolding contains
push_new k xs = if contains k xs then xs else xs ++ (k ∷ [])

unfoldable pub remove_first : ℕ → List ℕ → List ℕ
remove_first k [] = []
remove_first k (x ∷ xs) = let further = remove_first k xs in if x == k then xs else x ∷ further

-- the mask under `= all()` and `|=`, and under `= none()` and `^=`
unfoldable pub add_file : ShowRegFileKind → WatchRegFile → WatchRegFile
add_file reg_file_all files = record { integers = true; floats = true }
add_file reg_file_i files = record files { integers = true }
add_file reg_file_f files = record files { floats = true }

unfoldable pub remove_file : ShowRegFileKind → WatchRegFile → WatchRegFile
remove_file reg_file_all files = no_file
remove_file reg_file_i files = record files { integers = not files.integers }
remove_file reg_file_f files = record files { floats = not files.floats }

module _ {F I O : Type 0} where
  change_watchings : (Watchings → Watchings) → Session F I O → Session F I O
  change_watchings f s = record s { opt = record s.opt { watchings = f s.opt.watchings } }

  unfoldable pub watch_add : WatchingKind → Session F I O → Session F I O
  unfolding push_new add_file change_watchings
  watch_add (reg r) s = change_watchings (λ w. record w { reg = push_new r w.reg }) s
  watch_add (freg r) s = change_watchings (λ w. record w { freg = push_new r w.freg }) s
  watch_add (mem_addr a) s = change_watchings (λ w. record w { memory = push_new a w.memory }) s
  watch_add (reg_file k) s = record s { watching_regfile = add_file k s.watching_regfile }

  unfoldable pub watch_remove : WatchingKind → Session F I O → Session F I O
  unfolding remove_first remove_file change_watchings
  watch_remove (reg r) s = change_watchings (λ w. record w { reg = remove_first r w.reg }) s
  watch_remove (freg r) s = change_watchings (λ w. record w { freg = remove_first r w.freg }) s
  watch_remove (mem_addr a) s =
      change_watchings (λ w. record w { memory = remove_first a w.memory }) s
  watch_remove (reg_file k) s = record s { watching_regfile = remove_file k s.watching_regfile }

  -- A spy on a register is a `todo!()`, which panics: `none`.
  unfoldable pub spy_on :
      Operation → SpyWatchKind → SpyKind → Simulator F I O → Option (Simulator F I O)
  unfolding add_mem_spy remove_mem_spy
  spy_on add kind (memory unit) sim = some (record sim { cpu = add_mem_spy kind unit sim.cpu })
  spy_on remove kind (memory unit) sim =
      some (record sim { cpu = remove_mem_spy kind unit sim.cpu })
  spy_on _ kind (register_i _) sim = none
  spy_on _ kind (register_f _) sim = none

  unfoldable pub show_after : ShowKind → Session F I O → Session F I O
  show_after k s = record s { show_next = some k }

  unfoldable pub spied_session :
      ShowKind → Session F I O → Option (Simulator F I O) → Option (Session F I O)
  spied_session k s none = none
  spied_session k s (some sim) = some (record s { sim = sim; show_next = some k })

  -- `Command::Static`, from a session whose `show` has been taken
  unfoldable pub static_command : StaticCommand F → Session F I O → Option (Session F I O)
  unfolding watch_add watch_remove spy_on show_after spied_session
  static_command (show k) s = some (show_after k s)
  static_command (spy add command) s =
      spied_session (added_spy command) s (spy_on add command.kind command.target s.sim)
  static_command (spy remove command) s =
      spied_session (removed_spy command) s (spy_on remove command.kind command.target s.sim)
  static_command (update_whether_trace b) s =
      some (show_after is_trace_enabled (record s { opt = record s.opt { do_trace = b } }))
  static_command (add_bp bp) s = some (
      show_after all_bp
        (record s { opt = record s.opt { breakpoints = insert bp.addr bp s.opt.breakpoints } }))
  static_command (remove_bp pc) s = some (
      show_after all_bp
        (record s { opt = record s.opt { breakpoints = delete pc s.opt.breakpoints } }))
  static_command (watch add w) s = some (show_after show_watchings (watch_add w s))
  static_command (watch remove w) s = some (show_after show_watchings (watch_remove w s))
