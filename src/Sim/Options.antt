-- ===== src/Sim/Options.antt =====
-- The options of a run of core_sim/src/common.rs, and core_sim/src/breakpoint.rs. `F` is `f32`.
use cpuex2022_7_simulator.Common.{ℕ, Bool, false, List, [], Option, none, some, Map}
use cpuex2022_7_simulator.Register.{RegId, FRegId}

abbrev pub Addr : Type 0
Addr = ℕ

pub data OrdChainKind : Type 0 where
  less greater : OrdChainKind

pub data OrdOpKind : Type 0 where
  equal weak strong : OrdOpKind

pub data BreakPointExpr (F : Type 0) : Type 0 where
  int : ℕ → BreakPointExpr F
  float : F → BreakPointExpr F
  reg : RegId → BreakPointExpr F
  freg : FRegId → BreakPointExpr F
  mem : Addr → BreakPointExpr F

pub data BreakPointExprTy : Type 0 where
  int_ty float_ty no_ty : BreakPointExprTy

unfoldable pub expr_ty : {F : Type 0} → BreakPointExpr F → BreakPointExprTy
expr_ty (int x) = int_ty
expr_ty (float x) = float_ty
expr_ty (reg r) = int_ty
expr_ty (freg r) = float_ty
expr_ty (mem a) = no_ty

pub record OrdChain (F : Type 0) : Type 0 where
  pub chain_kind : OrdChainKind
  pub head : BreakPointExpr F
  pub tail : List (OrdOpKind × BreakPointExpr F)

mutual
  pub data BreakPointCond (F : Type 0) : Type 0 where
    ord_chain : OrdChain F → BreakPointCond F
    not_eq : BreakPointExpr F → BreakPointExpr F → BreakPointCond F
    neg : BreakPointCond F → BreakPointCond F
    conj : Conditions F → BreakPointCond F
    disj : Conditions F → BreakPointCond F

  pub data Conditions (F : Type 0) : Type 0 where
    no_more : Conditions F
    and_then : BreakPointCond F → Conditions F → Conditions F

pub record BreakPoint (F : Type 0) : Type 0 where
  pub addr : Addr
  pub cond : Option (BreakPointCond F)

unfoldable pub new_breakpoint : {F : Type 0} → Addr → BreakPoint F
new_breakpoint addr = record { addr = addr; cond = none }

pub record RunStep : Type 0 where
  pub step : Option ℕ

unfoldable pub get_step : RunStep → ℕ
get_step r = elim r.step [ none ↦ 1 | some n ↦ n ]

pub data ExecuteMode : Type 0 where
  run : ExecuteMode
  skip_until : Addr → ExecuteMode
  run_step : RunStep → ExecuteMode

pub record Watchings : Type 0 where
  pub reg : List RegId
  pub freg : List FRegId
  pub memory : List Addr

pub record SimulationOption (F : Type 0) : Type 0 where
  pub do_trace : Bool
  pub mode : ExecuteMode
  pub breakpoints : Map (BreakPoint F)
  pub watchings : Watchings

-- `SimulationOption::default()`
abbrev pub default_option : {F : Type 0} → SimulationOption F
default_option = record {
  do_trace = false;
  mode = run;
  breakpoints = [];
  watchings = record { reg = []; freg = []; memory = [] };
}
