-- ===== src/Sim/Disassemble.antt =====
-- `disassemble_near` and `pretty_instr` of core_sim/src/sim.rs. The text of a row is left out.
use cpuex2022_7_simulator.Common.{
  unwrap, ◌||◌, ◌%◌, ℕ, zero, suc, ◌+◌, ◌*◌, ◌-◌, ◌/◌, ◌^◌, Bool, List, [], ◌∷◌, Option, none, some,
  ◌==◌, ◌&&◌, ltb, leb, if◌then◌else◌, ok, err, panic, Exec, done, fail, abort, ◌>>=◌, pure, lift,
  wrapping_add, wrapping_sub, shl,
}
use Prim.Native.String.{String}
use cpuex2022_7_simulator.Register.{RegId, is_zero}
use cpuex2022_7_simulator.Instr.{DecodedInstr, i_fmt, addi, xori}
use cpuex2022_7_simulator.Decode.{decode_from}
use cpuex2022_7_simulator.DebugSymbol.{
  SymbolDefRaw, SymbolDef, SymbolError, Found, get_nearest_symbol_addr, get_symbol,
}
use cpuex2022_7_simulator.Cpu.State.{Pc, RuntimeError}
use cpuex2022_7_simulator.Sim.State.{Simulator}
use cpuex2022_7_simulator.Sim.{get_mem_pc}

-- What an instruction is printed as.
pub data PrettyInstr : Type 0 where
  nop : PrettyInstr
  mv : RegId → RegId → PrettyInstr
  li : RegId → ℕ → PrettyInstr
  subi : RegId → RegId → ℕ → PrettyInstr
  not : RegId → RegId → PrettyInstr
  unsugared : DecodedInstr → PrettyInstr

-- The guards on `Addi`, from the first.
pretty_addi : RegId → RegId → ℕ → PrettyInstr
unfolding is_zero
pretty_addi rd rs1 imm =
    if is_zero rs1
    then (if imm == 0 then (if is_zero rd then nop else mv rd rs1) else li rd imm)
    else if leb (2 ^ 31) imm
    then subi rd rs1 (2 ^ 32 - imm)
    else unsugared (i_fmt addi rd rs1 imm)

unfoldable pub pretty_instr : DecodedInstr → PrettyInstr
unfolding pretty_addi
pretty_instr (i_fmt addi rd rs1 imm) = pretty_addi rd rs1 imm
pretty_instr (i_fmt xori rd rs1 imm) =
    if imm == 1 then not rd rs1 else unsugared (i_fmt xori rd rs1 imm)
pretty_instr i = unsugared i

-- Whether the row is the cursor's stands for the three stars.
pub record AssemblyRow : Type 0 where
  pub special : Bool
  pub addr : Pc
  pub bin : ℕ
  pub decoded : Option PrettyInstr

pub record Assembly : Type 0 where
  pub label : String
  pub label_addr : Pc
  pub omitted_head : Bool
  pub rows : List AssemblyRow
  pub omitted_tail : Bool

unfoldable pub did_omit_output : Assembly → Bool
did_omit_output a = a.omitted_head || a.omitted_tail

pub record DisassembleOption : Type 0 where
  pub addr : Option Pc
  pub do_fold : Bool
  pub window_size_half : Option ℕ

-- `DisassembleOption { do_fold, ..Default::default() }`
abbrev pub fold_option : Bool → DisassembleOption
fold_option fold = record { addr = none; do_fold = fold; window_size_half = none }

-- The part of a label's code that is shown, from `omitted_head` to the second `len`. The sums are
-- of `u32`.
pub record Window : Type 0 where
  pub omitted_head : Bool
  pub begin : ℕ
  pub omitted_tail : Bool
  pub len : ℕ

abbrev pub or_default : Option ℕ → ℕ → ℕ
or_default none d = d
or_default (some n) d = n

unfoldable pub window_of : Bool → ℕ → ℕ → Option ℕ → ℕ → Window
window_of do_fold window_size_half def_addr def_size pc_addr =
    let window_size = wrapping_add (window_size_half * 2 % 2 ^ 32) 4 in
    let omitted_head = do_fold && ltb (wrapping_add def_addr window_size_half) pc_addr in
    let begin = if omitted_head then wrapping_sub pc_addr window_size_half else def_addr in
    let end_addr = wrapping_add def_addr (or_default def_size (wrapping_add window_size 1)) in
    let omitted_tail = do_fold && ltb (wrapping_add begin window_size) end_addr in
    record {
      omitted_head = omitted_head;
      begin = begin;
      omitted_tail = omitted_tail;
      len = if omitted_tail then window_size else wrapping_sub end_addr begin;
    }

row_of : Pc → Pc → ℕ → Option PrettyInstr → AssemblyRow
row_of cursor addr bin decoded = record {
  special = cursor == addr;
  addr = addr;
  bin = bin;
  decoded = decoded;
}

module _ {F I O : Type 0} where
  -- `Instr::decode_from(bin).ok().map(..)`
  pretty_of : {E : Type 0} → ℕ → Exec (Simulator F I O) E (Option PrettyInstr)
  unfolding pretty_instr
  pretty_of bin s = elim (decode_from bin) [
    | ok i ↦ done (some (pretty_instr i)) s
    | err _ ↦ done none s
    | panic ↦ abort
  ]

  -- The rows from `disp`: the loop ends where the instruction memory does.
  unfoldable pub rows_from : Pc → ℕ → ℕ → ℕ → Exec (Simulator F I O) RuntimeError (List AssemblyRow)
  unfolding get_mem_pc row_of pretty_of
  rows_from cursor begin zero disp s = done [] s
  rows_from cursor begin (suc n) disp s =
      let addr = wrapping_add begin (shl disp 2) in
      elim (get_mem_pc addr s) [
        | fail _ s' ↦ done [] s'
        | abort ↦ abort
        | done bin s' ↦
            (do
              decoded ← pretty_of bin
              rest ← rows_from cursor begin n (disp + 1)
              pure (row_of cursor addr bin decoded ∷ rest))
              s'
      ]

  -- `self.debug_symbol.get_nearest_symbol_addr(pc_addr)?` and the symbol at that index
  nearest_symbol :
      (List SymbolDefRaw → ℕ → Found) → Pc → Exec (Simulator F I O) SymbolError SymbolDef
  unfolding get_nearest_symbol_addr get_symbol
  nearest_symbol find cursor s =
      (do
        index ← lift (get_nearest_symbol_addr find cursor s.debug_symbol)
        lift (get_symbol index s.debug_symbol))
        s

  abbrev as_default : Option Pc → Simulator F I O → Pc
  as_default none s = s.cpu.pc
  as_default (some addr) s = addr

  -- The errors of the rows end them, and only those of the look-up are returned.
  unfoldable pub disassemble_near :
      (List SymbolDefRaw → ℕ → Found)
      → DisassembleOption
      → Exec (Simulator F I O) SymbolError Assembly
  unfolding nearest_symbol window_of rows_from
  disassemble_near find o s =
      let cursor = as_default o.addr s in
      (do
        def ← nearest_symbol find cursor
        let w =
            window_of o.do_fold (shl (or_default o.window_size_half 4) 2) def.raw.addr def.size
              cursor
        rows ← unwrap (rows_from cursor w.begin (w.len / 2 ^ 2) 0)
        pure (record {
          label = def.raw.label;
          label_addr = def.raw.addr;
          omitted_head = w.omitted_head;
          rows = rows;
          omitted_tail = w.omitted_tail;
        }))
        s
