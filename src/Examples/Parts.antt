-- ===== src/Examples/Parts.antt =====
-- Register files, predictors, caches, instructions and outputs, on which the theorems apply.
use cpuex2022_7_simulator.Common.{
  signed, leb, ℕ, ◌≡◌, ◌≢◌, ◌⊎◌, ◌<◌, ◌==◌, ◌%◌, sym, ◌∙◌, Result, refl, arith, Bool, false, List,
  [], ◌∷◌, some, Outcome, done, panic, get_or, pure, ◌>>=◌, err, ok, if◌then◌else◌,
}
use cpuex2022_7_simulator.RegFile
use cpuex2022_7_simulator.RegFile.{RegFile}
use cpuex2022_7_simulator.RegFile.Access as RegFileAccess
use cpuex2022_7_simulator.Cache
use cpuex2022_7_simulator.Cache.{Cache, access_cache, line_of, tag_of}
use cpuex2022_7_simulator.Cache.History as CacheHistory
use cpuex2022_7_simulator.BranchPredictor
use cpuex2022_7_simulator.BranchPredictor.{
  next, prev, weakly_taken, BranchPredictor, predict, update_state, is_taken,
}
use cpuex2022_7_simulator.BranchPredictor.History as BranchHistory
use cpuex2022_7_simulator.BranchPredictor.History.{level_of}
use cpuex2022_7_simulator.Decode.{decode_from, decode_fields, fields_of}
use cpuex2022_7_simulator.Decode.Formats.{DecodeError, decode_i, i_instr, decode_float}
use cpuex2022_7_simulator.Decode.Imm.{i_imm, s_imm, b_imm, j_imm}
use cpuex2022_7_simulator.Decode.Immediates.{immediates_signed, i_field, s_field, b_field, j_field}
use cpuex2022_7_simulator.Bin.{
  extract, mask, bit_range, bit_range_lower, mask_lower, bit_at, sign_extend,
}
use cpuex2022_7_simulator.Decode.Registers.{decode_from_cases, decode_from-panic}
use cpuex2022_7_simulator.Instr.{DecodedInstr, i_fmt, addi}
use cpuex2022_7_simulator.Instr.Id.{id, max_id, try_from, display}
use cpuex2022_7_simulator.Instr.Id.Laws.{id-Good, mnemonic}
use cpuex2022_7_simulator.Cpu.Targets.{RegsExist}
use cpuex2022_7_simulator.Cpu.State.{AnyhowError}
use cpuex2022_7_simulator.Io.{BinaryInput, inw, new_input}
use cpuex2022_7_simulator.Io.Laws.{inw-inw}

ok≢panic : {E A : Type 0} {a : A} → ¬ (◌≡◌ {A = Result E A} (ok a) panic)
ok≢panic e = cc

abbrev pub registers : RegFile Bool
registers = RegFile.new false

pub registers-IsValid : RegFileAccess.IsValid false registers
unfolding RegFile.new
registers-IsValid = record {
  regs = refl;
  fregs = refl;
  writes_i = refl;
  reads_i = refl;
  writes_f = refl;
  reads_f = refl;
  x0 = refl;
  f0 = refl;
}

get-set_reg_example :
    (rf' : RegFile Bool) × ◌≡◌ {A = Outcome (RegFile Bool) DecodeError (Unit {0})}
      (RegFile.set_reg 5 77 registers)
      (done tt rf')
    × RegFileAccess.IsValid false rf'
    × ◌≡◌ {A = Outcome (RegFile Bool) DecodeError ℕ} (RegFile.get 5 rf') (
        done
          (if 5 == 0 then 0 else if 5 == 5 then 77 else get_or registers.inner 5 0)
          (RegFileAccess.after_get 5 rf'))
get-set_reg_example =
    RegFileAccess.get-set_reg {E = DecodeError} false registers 5 77 5 registers-IsValid
      (omega arith) (omega arith)

-- no branch yet
abbrev branches : List (ℕ × Bool)
branches = []

predict-update_state_example :
    ◌≡◌ {A = Outcome BranchPredictor DecodeError Bool}
      (predict 64 68 (BranchPredictor.new 64))
      (done (leb 2 (level_of 64 (68 % 64) branches)) (BranchPredictor.new 64))
    × (b' : BranchPredictor) × ◌≡◌ {A = Outcome BranchPredictor DecodeError (Unit {0})}
        (update_state 64 68 false (BranchPredictor.new 64))
        (done tt b')
    × BranchHistory.Represents 64 ((68, false) ∷ branches) b'
predict-update_state_example =
    BranchHistory.predict-update_state {E = DecodeError} 64 branches (BranchPredictor.new 64) 68
      false (omega arith) (BranchHistory.new-Represents 64)

access_cache_lem_example :
    (c' : Cache) × ◌≡◌ {A = Outcome Cache DecodeError Bool}
      (access_cache 16 100 (Cache.new 16))
      (done (CacheHistory.last_tag 16 (line_of 16 100) [] == tag_of 16 100) c')
    × CacheHistory.Represents 16 (100 ∷ []) c'
access_cache_lem_example =
    CacheHistory.access_cache_lem {E = DecodeError} 16 [] (Cache.new 16) 100 (omega arith)
      (CacheHistory.new-Represents 16)

-- addi x1, x0, 5
abbrev pub addi_word : ℕ
addi_word = 0x00500093

abbrev pub addi_instr : DecodedInstr
addi_instr = i_fmt addi 1 0 5

decode-addi : decode_from addi_word ≡ ok addi_instr
unfolding decode_from decode_fields fields_of decode_i i_instr i_imm extract mask bit_range
    bit_range_lower mask_lower bit_at sign_extend
decode-addi = refl

pub addi_word_decodes : decode_from addi_word ≢ panic
addi_word_decodes e = ok≢panic (sym decode-addi ∙ e)

decode_from_cases_example :
    ((e : DecodeError) × (decode_from addi_word ≡ err e))
    ⊎ ((i : DecodedInstr) × (decode_from addi_word ≡ ok i) × RegsExist i)
decode_from_cases_example = decode_from_cases addi_word addi_word_decodes

id-Good_example :
    (id addi_instr < max_id)
    × (try_from (id addi_instr) ≡ ok (id addi_instr))
    × (display (id addi_instr) ≡ some (mnemonic addi_instr))
id-Good_example = id-Good addi_instr

abbrev file : BinaryInput
file = new_input (1 ∷ 2 ∷ 3 ∷ 4 ∷ 5 ∷ [])

inw-inw_example :
    ◌≡◌ {A = Outcome BinaryInput AnyhowError (ℕ × ℕ)}
      ((inw >>= λ a. inw >>= λ b. pure (a, b)) file)
      ((inw >>= λ a. pure (a, a)) file)
inw-inw_example = inw-inw file

-- beq x0, x0, -8
abbrev beq_word : ℕ
beq_word = 0xfe000ce3

immediates_signed_example :
    (signed 31 (i_imm (bit_at beq_word 31) (extract beq_word 20 31)) ≡ signed 11 (i_field beq_word))
    × (signed 31 (s_imm beq_word (bit_at beq_word 31)) ≡ signed 11 (s_field beq_word))
    × (signed 31 (b_imm beq_word (bit_at beq_word 31)) ≡ signed 12 (b_field beq_word))
    × (signed 31 (j_imm beq_word (bit_at beq_word 31)) ≡ signed 20 (j_field beq_word))
immediates_signed_example = immediates_signed beq_word (omega arith)

-- a float comparison with a wrong funct7
abbrev panicking : ℕ
panicking = 0x00001053

panicking_lem : decode_from panicking ≡ panic
unfolding decode_from decode_fields fields_of decode_float extract mask bit_range bit_range_lower
    mask_lower bit_at
panicking_lem = refl

decode_from-panic_example :
    (mask_lower panicking 6 ≡ 0b1010011)
    × (extract panicking 12 14 ≢ 0)
    × (extract panicking 25 31 ≢ 0b1010001)
decode_from-panic_example = decode_from-panic panicking panicking_lem
