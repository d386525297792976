-- ===== src/Lib.antt =====
-- A verification of the instruction-set simulator: core_sim/src, what a run of it computes, and the
-- prompt of cli/src/interactive.rs that runs it.
--
-- The program loads a binary (`Cpu::new`), and then runs one instruction after the other
-- (`Cpu::cycle_one_full`): it fetches a word from the instruction memory, decodes it, reads the
-- registers, executes, accesses the memory through a cache, writes a register back, and counts the
-- clock cycles that a five-stage pipeline with a branch predictor would take. The simulator
-- (`Simulator::single_cycle`) repeats this in one of three modes until a breakpoint, a goal, a spy,
-- an error or the end of the program, and gathers the values that are watched. The prompt changes
-- breakpoints, watched values and spies, starts runs and tells of their stops.
--
-- Which file models what, from the repository's root:
--   Bin, Bin/*                core_sim/src/bin.rs: bit fields, as arithmetic in Bin/Fields
--   Ty, Ty/Order              core_sim/src/ty.rs: the types that words carry at run time
--   Register, Register/Names  core_sim/src/register.rs: numbers and names of registers
--   Cache, Cache/*            core_sim/src/cache.rs: `access_cache`, against a history of accesses
--   BranchPredictor, ...      core_sim/src/branch_predictor.rs, against a history of branches
--   Float                     core_sim/src/fpu_wrapper.rs over `f32` and the C library
--   RegFile, RegFile/*        core_sim/src/reg_file.rs: registers, counts and memory regions
--   Memory, Memory/*          core_sim/src/memory.rs: `get`, `get_i`, `get_f`, `set` (`set_word`),
--                             `set_f`, `get_from_pc` and the spies (Memory/Watch)
--   Instr, Instr/*            core_sim/src/instr.rs: instructions, `InstrId`, assembly (Instr/Print)
--   Decode, Decode/*          core_sim/src/decode_instr.rs: `decode_from`, arm by arm
--   Isa2nd, Isa2nd/*          core_sim/src/decode_instr_2nd.rs, and core_sim/src/instr.rs under the
--                             feature `isa_2nd`; Isa2nd/Encode has the layout of the words
--   Cpu, Cpu/*                core_sim/src/cpu.rs: one file for each stage; Cpu/State has the state
--   Io, Io/Laws               core_sim/src/io.rs: inputs and outputs
--   Sld, Sld/*                core_sim/src/sld.rs: the reader of scenes, and the input over them
--   Ppm, Ppm/Header           core_sim/src/ppm.rs: the image that is put out, and its header
--   DebugSymbol, .../*        core_sim/src/debug_symbol.rs: the label table and its look-ups
--   Sim, Sim/*                core_sim/src/sim.rs: `single_cycle` (Sim), its state (Sim/State), the
--                             disassembly (Sim/Disassemble); Sim/Options has the options of
--                             core_sim/src/common.rs and core_sim/src/breakpoint.rs
--   Interactive, .../*        cli/src/interactive.rs: static commands (Interactive), the loop and
--                             what is told of a stop (Interactive/Turns)
--   Stat, Stat/Rows           core_sim/src/stat.rs and what the views of statistics show
--   Main, Main/*              cli/src/main.rs: `execute` (Main), the commands (Main/Commands)
--   Bytes, Bits, Common       shared: little-endian words, bit operations, lists, methods
--   Examples, Examples/*      concrete values on which the theorems are applied
--
-- A method on `&mut self` is a function from the state to an outcome (Common/Methods): a value and
-- a state, an error and a state, or a panic. An error keeps what was changed before it. `Post Q P`
-- of an outcome says that there is no panic, with `Q` of a returned value and `P` after an error.
-- The memory regions that the source shares by `Rc<RefCell<_>>` stand in the register file and are
-- handed to the memory's methods.
--
-- Numbers are natural numbers; `u32` arithmetic wraps where the source's does. The build is the
-- release one: no debug assertions, and `+=` and shifts wrap. The features are the default ones:
-- typed_memory, stat, fpu_sim and time_predict. The size of the memory and the number of cache lines
-- are parameters, for which the source has RAM_BYTE_SIZE and CACHE_NUM_LINES. A cycle needs
-- no fuel: its only loop fills in the bubbles of the pipeline, whose number is known. The loops of
-- `Run` and `SkipUntil` may never end: they make as many rounds as their fuel, and answer `none`
-- with the simulator as it then is if none of them has left the loop. `RunStep` takes no fuel. The
-- loops of the reader of scenes take the length of the text and one more as fuel, for each round
-- takes a number from the text. The loop that looks for the number of entries in a row takes the
-- width of the terminal and one more, for each round makes the row wider. The loop of `execute` may
-- never end, and has fuel for its runs.
--
-- Parameters: `f32` and the C functions of the FPU simulation (`Float32`), of which only the
-- documented inverse of `to_bits` is assumed, the program's input and output (`Ports`),
-- the parsers of the library nom (`Scanner`, `HeaderScanner`), the binary search of the standard
-- library, what the machine's clock says, the files and the logger (`Outside`), and what is typed.
--
-- Not modelled: how the processor executes the second instruction set, the text that is printed of
-- all else than instructions, the grammar of the commands (the library peg makes the parser), the
-- file formats that serde reads, the parser of the arguments (the library clap makes it), and the
-- conditions of breakpoints, which the source never evaluates. Word addresses are taken to be below
-- 2 ^ 62, as those of loads and stores are, which are u32: the shift by two of core_sim/src/memory.rs
-- then loses no bit. Only an address that is typed at the prompt can be larger.
pub mod Common
pub mod Bits
pub mod Bin
pub mod Ty
pub mod Register
pub mod Cache
pub mod BranchPredictor
pub mod Bytes
pub mod Float
pub mod RegFile
pub mod Memory
pub mod Instr
pub mod Decode
pub mod Cpu
pub mod Io
pub mod Ppm
pub mod Isa2nd
pub mod Sld
pub mod DebugSymbol
pub mod Stat
pub mod Main
pub mod Sim
pub mod Interactive
pub mod Examples
