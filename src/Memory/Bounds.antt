-- ===== src/Memory/Bounds.antt =====
-- The addresses of core_sim/src/memory.rs outside the instruction memory.
use cpuex2022_7_simulator.Common.{
  ℕ, ◌*◌, ◌≡◌, refl, ap, ◌∙◌, sym, arith, Bool, true, false, inl, inr, Outcome, done, fail, abort,
  Bool-cases, Option-cases,
}
use cpuex2022_7_simulator.Bytes.{word_at}
use cpuex2022_7_simulator.Memory.{Memory, contains, get_from_pc, get_raw_addr, out_of_range}
use cpuex2022_7_simulator.Memory.Access.{InRange}
use cpuex2022_7_simulator.Memory.Protect.{SameText, at_state}

abbrev fetched : {S E A : Type 0} → Outcome S E A → Bool
fetched (done a s) = true
fetched (fail e s) = false
fetched abort = true

fetched-at_state : {S E A : Type 0} (s : S) (o : Outcome S E A) → fetched (at_state s o) ≡ fetched o
fetched-at_state s (done a _) = refl
fetched-at_state s (fail e _) = refl
fetched-at_state s abort = refl

fetched-get_from_pc :
    (pc : ℕ) (m : Memory) → fetched (get_from_pc pc m) ≡ contains m.instr_mem_range pc
fetched-get_from_pc pc m = elim (Bool-cases (contains m.instr_mem_range pc)) [
  | inr out ↦ unfold get_from_pc in rw (get_from_pc, out) refl
  | inl at ↦ elim (Option-cases (word_at m.inner pc)) [
    | inl e ↦ unfold get_from_pc get_raw_addr in rw (get_from_pc, at, get_raw_addr, e) refl
    | inr (w, e) ↦ unfold get_from_pc get_raw_addr in rw (get_from_pc, at, get_raw_addr, e) refl
  ]
]

pub SameText-InRange :
    (size : ℕ) (text m : Memory) (addr : ℕ)
    → SameText text m
    → InRange size text addr
    → InRange size m addr
unfolding out_of_range
SameText-InRange size text m addr same h =
    let moved : contains m.instr_mem_range (addr * 4) ≡ contains text.instr_mem_range (addr * 4) =
      sym (fetched-get_from_pc (addr * 4) m)
      ∙ (ap fetched (same (addr * 4) (omega arith))
          ∙ (fetched-at_state m (get_from_pc (addr * 4) text)
              ∙ fetched-get_from_pc (addr * 4) text)) in
    rw moved h
