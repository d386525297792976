-- ===== src/Sim.antt =====
-- core_sim/src/sim.rs: the simulator, which runs the processor in a mode up to a reason to stop.
-- The features `stat` and `time_predict` are on. A trace line that is printed is left out, and `now`
-- is what the clock of the machine says.
pub mod Options
pub mod State
pub mod Watching
pub mod Runs
pub mod Rounds
pub mod Loop
pub mod Answers
pub mod Restart
pub mod Steps
pub mod Disassemble
pub mod Windows
use cpuex2022_7_simulator.Common.{
  ℕ, zero, suc, Bool, true, false, not, List, [], ◌∷◌, Option, none, some, ◌==◌, ◌&&◌,
  if◌then◌else◌, Exec, Outcome, done, fail, abort, ◌>>=◌, ◌>>◌, pure, modify, unwrap, ◌+◌,
  wrapping_add, Map, lookup, insert,
}
use cpuex2022_7_simulator.Float.{Float32}
use cpuex2022_7_simulator.Ty.{TypedU32, typed}
use cpuex2022_7_simulator.Register.{RegId, FRegId, reg_ty}
use cpuex2022_7_simulator.DebugSymbol
use cpuex2022_7_simulator.DebugSymbol.{DebugSymbol, no_symbols, is_empty}
use cpuex2022_7_simulator.Memory.{MemoryAccessError}
use cpuex2022_7_simulator.Cpu.State.{Cpu, Ports, RuntimeError, CycleResult, continue, break_spy}
use cpuex2022_7_simulator.Cpu.State as CpuState
use cpuex2022_7_simulator.Cpu.Inspect
use cpuex2022_7_simulator.Cpu.Start
use cpuex2022_7_simulator.Cpu.{cycle_one_full}
use Options.{
  Addr, BreakPoint, ExecuteMode, run, skip_until, run_step, get_step, SimulationOption, Watchings,
}
use State.{
  Instant, Simulator, BreakReason, cannot_restart, failed, reached, step_ended, break_point, spy,
  WatchingValues, no_values, OnBreak, ControlFlow, break, exit, in_cpu, new_builder, stop_timer,
}

-- `none` is a panic.
unfoldable pub new :
    {I O : Type 0} (fl : Float32) (size nlines : ℕ)
    → List ℕ
    → I
    → O
    → Instant
    → Option (Simulator fl.F I O)
unfolding Start.new Start.get_data_and_text_len new_builder
new fl size nlines mem input output now = elim (Start.get_data_and_text_len mem) [
  | none ↦ none
  | some (data_sec_size, text_sec_size) ↦ elim (Start.new fl size nlines mem input output) [
    | none ↦ none
    | some cpu ↦ some (record {
      cpu = cpu;
      elapsed_clocks = 0;
      cycle = 0;
      debug_symbol = no_symbols;
      fatal_error = none;
      stat_builder = record (new_builder now) {
        instr_file_len = some (wrapping_add data_sec_size text_sec_size);
      };
    })
  ]
]

unfoldable pub do_break : {F : Type 0} → BreakPoint F → Bool
do_break bp = true

-- A step of a loop: `none` where the loop goes on.
abbrev pub Round : Type 0 → Type 0 → Type 0 → Type 0
Round F I O = Exec (Simulator F I O) RuntimeError (Option (ControlFlow F))

module _ {F I O : Type 0} where
  unfoldable pub provide_dbg_symb : DebugSymbol → Simulator F I O → Simulator F I O
  unfolding is_empty DebugSymbol.merge
  provide_dbg_symb symbols s =
      if is_empty symbols
      then s
      else record s { debug_symbol = DebugSymbol.merge s.debug_symbol symbols }

  unfoldable pub exit_sim : Instant → Simulator F I O → Simulator F I O
  unfolding stop_timer
  exit_sim now s = record s {
    stat_builder =
        stop_timer now
          (record s.stat_builder { cycle = some s.cycle; elapsed_clocks = some s.elapsed_clocks });
  }

  unfoldable pub get_freg : {E : Type 0} → FRegId → Exec (Simulator F I O) E F
  unfolding Inspect.get_freg
  get_freg id = in_cpu (Inspect.get_freg id)

  unfoldable pub get_reg : {E : Type 0} → RegId → Exec (Simulator F I O) E TypedU32
  unfolding Inspect.get_reg reg_ty
  get_reg id = do val ← in_cpu (Inspect.get_reg id); pure (typed val (reg_ty id))

  unfoldable pub get_mem : ℕ → Addr → Exec (Simulator F I O) MemoryAccessError TypedU32
  unfolding Inspect.get_mem
  get_mem size addr = in_cpu (Inspect.get_mem size addr)

  unfoldable pub get_mem_pc : ℕ → Exec (Simulator F I O) RuntimeError ℕ
  unfolding Inspect.get_mem_pc
  get_mem_pc addr = in_cpu (Inspect.get_mem_pc addr)

  -- a loop of `gather_watchings`: the values of the keys, put into a map
  unfoldable pub gather :
      {E V : Type 0}
      → (ℕ → Exec (Simulator F I O) E V)
      → List ℕ
      → Map V
      → Exec (Simulator F I O) E (Map V)
  gather look [] values = pure values
  gather look (k ∷ ks) values = look k >>= λ v. gather look ks (insert k v values)

  unfoldable pub gather_watchings :
      {E : Type 0} → ℕ → Watchings → Exec (Simulator F I O) E (WatchingValues F)
  unfolding gather get_reg get_freg get_mem
  gather_watchings size w = do
    reg_map ← gather get_reg w.reg []
    freg_map ← gather get_freg w.freg []
    memory_map ← gather (λ addr. unwrap (get_mem size addr)) w.memory []
    pure (record { reg_map = reg_map; freg_map = freg_map; memory_map = memory_map })

  unfoldable pub break_sim :
      {E : Type 0} → ℕ → SimulationOption F → BreakReason → Exec (Simulator F I O) E (ControlFlow F)
  unfolding gather_watchings
  break_sim size opt reason = do
    watchings ← gather_watchings size opt.watchings
    pure (break (record { watchings = watchings; reason = reason }))

  -- `break_sim!`: the loop is left.
  unfoldable pub leave :
      {E : Type 0}
      → ℕ
      → SimulationOption F
      → BreakReason
      → Exec (Simulator F I O) E (Option (ControlFlow F))
  leave size opt reason = do flow ← break_sim size opt reason; pure (some flow)

  -- A `return` out of the loop, or what follows.
  unfoldable pub unless_left : Option (ControlFlow F) → Round F I O → Round F I O
  unless_left none next = next
  unless_left (some flow) next = pure (some flow)

  unfoldable pub count_cycle : ℕ → Simulator F I O → Simulator F I O
  count_cycle cycles s = record s {
    elapsed_clocks = s.elapsed_clocks + cycles;
    cycle = s.cycle + 1;
  }

module _ (fl : Float32) (size nlines : ℕ) {I O : Type 0} (ports : Ports fl.F I O)
    (opt : SimulationOption fl.F) (now : Instant) where
  open fl use {F}

  unfoldable pub after_cycle : CpuState.ControlFlow → Round F I O
  unfolding exit_sim
  after_cycle continue = pure none
  after_cycle (break_spy spied) = leave size opt (spy spied)
  after_cycle CpuState.exit = do modify (exit_sim now); pure (some exit)

  -- `execute!` behind the call of `cycle_one_full`; every error is fatal
  unfoldable pub settle : Outcome (Cpu F I O) RuntimeError CycleResult → Round F I O
  unfolding after_cycle count_cycle
  settle (done r c) s = after_cycle r.flow (count_cycle r.cycles (record s { cpu = c }))
  settle (fail e c) s = leave size opt failed (record s { cpu = c; fatal_error = some e })
  settle abort s = abort

  unfoldable pub execute_cycle : Round F I O
  unfolding settle
  execute_cycle s = settle (cycle_one_full fl size nlines ports opt.do_trace s.cpu) s

  unfoldable pub at_breakpoint : Option (BreakPoint F) → Round F I O
  unfolding do_break execute_cycle
  at_breakpoint none = execute_cycle
  at_breakpoint (some bp) =
      if do_break bp then leave size opt (break_point bp.addr) else execute_cycle

  -- `execute!`
  unfoldable pub execute : Bool → Round F I O
  unfolding at_breakpoint execute_cycle
  execute true s = execute_cycle s
  execute false s = at_breakpoint (lookup s.cpu.pc opt.breakpoints) s

  -- A round of the loop of a mode. Only `SkipUntil` tests the program counter before.
  unfoldable pub round : ExecuteMode → Bool → Round F I O
  unfolding execute
  round (skip_until pc) false s =
      if pc == s.cpu.pc then leave size opt (reached pc) s else execute false s
  round (skip_until pc) true s = execute true s
  round run is_enter s = execute is_enter s
  round (run_step r) is_enter s = execute is_enter s

  unfoldable pub rounds : ExecuteMode → ℕ → Bool → Round F I O
  unfolding round unless_left
  rounds mode zero is_enter = pure none
  rounds mode (suc n) is_enter = do
    left ← round mode is_enter
    unless_left left (rounds mode n false)

  -- The loops of `Run` and `SkipUntil` have no bound: after `fuel` rounds the answer is `none`, and
  -- the simulator is still running.
  unfoldable pub run_mode : ExecuteMode → ℕ → Round F I O
  unfolding rounds get_step unless_left
  run_mode run fuel = rounds run fuel true
  run_mode (skip_until pc) fuel = rounds (skip_until pc) fuel true
  run_mode (run_step r) fuel = do
    left ← rounds (run_step r) (get_step r) true
    unless_left left (leave size opt step_ended)

  unfoldable pub unless_fatal : Option RuntimeError → ℕ → Round F I O
  unfolding run_mode
  unless_fatal none fuel = run_mode opt.mode fuel
  unless_fatal (some _) fuel = leave size opt cannot_restart

  unfoldable pub single_cycle : ℕ → Round F I O
  unfolding unless_fatal
  single_cycle fuel s = unless_fatal s.fatal_error fuel s
