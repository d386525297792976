-- ===== src/Sim/Windows.antt =====
-- The part of a label's code that `disassemble_near` of core_sim/src/sim.rs shows.
use cpuex2022_7_simulator.Common.{
  ℕ, ◌+◌, ◌*◌, ◌^◌, ◌≤◌, ◌<◌, ◌≡◌, arith, Bool, true, false, some, ltb, if◌then◌else◌,
}
use cpuex2022_7_simulator.Sim.Disassemble.{window_of}

-- What is shown lies in the label's code and holds the cursor. Folded, it is no longer than the
-- window; the two flags say whether something is left out before it and behind it. The cursor lies
-- in the code of the label, which ends below 2^31, and half a window is below 2^28.
pub window_of_lem :
    (do_fold : Bool) (half def_addr size pc_addr : ℕ)
    → def_addr ≤ pc_addr
    → pc_addr < def_addr + size
    → def_addr + size < 2 ^ 31
    → half < 2 ^ 28
    → let w = window_of do_fold half def_addr (some size) pc_addr in
      (w.begin ≤ pc_addr)
      × (pc_addr < w.begin + w.len)
      × (def_addr ≤ w.begin)
      × (w.begin + w.len ≤ def_addr + size)
      × (w.len ≤ (if do_fold then half * 2 + 4 else size))
      × (w.omitted_head ≡ ltb def_addr w.begin)
      × (w.omitted_tail ≡ ltb (w.begin + w.len) (def_addr + size))
unfolding window_of
window_of_lem true half def_addr size pc_addr h g k l = ground arith
window_of_lem false half def_addr size pc_addr h g k l = ground arith
