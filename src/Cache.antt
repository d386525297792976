-- ===== src/Cache.antt =====
-- core_sim/src/cache.rs: a direct-mapped cache of tags. `access_cache` of a cache with
-- `nlines` lines; a read past the end of the vector panics.
pub mod History
pub mod Safe
use cpuex2022_7_simulator.Common.{
  ℕ, ◌/◌, ◌%◌, ◌^◌, Bool, true, false, List, none, some, get_elem?, set, replicate, ◌==◌,
  if◌then◌else◌, u32, Exec, done, abort,
}

abbrev pub cache_num_lines : ℕ
cache_num_lines = 16384

pub record Cache : Type 0 where
  pub inner : List ℕ

unfoldable pub new : ℕ → Cache
new nlines = record { inner = replicate nlines 0 }

abbrev pub line_of : ℕ → ℕ → ℕ
line_of nlines addr = addr / 2 ^ 2 % nlines

abbrev pub tag_of : ℕ → ℕ → ℕ
tag_of nlines addr = u32 (addr / 2 ^ 2 / nlines)

unfoldable pub access_cache : {E : Type 0} → ℕ → ℕ → Exec Cache E Bool
access_cache nlines addr c =
    let line = line_of nlines addr in
    let tag = tag_of nlines addr in
    elim (get_elem? c.inner line) [
      | none ↦ abort
      | some old ↦
          if old == tag then done true c else done false (record c { inner = set c.inner line tag })
    ]
