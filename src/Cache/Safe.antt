-- ===== src/Cache/Safe.antt =====
-- The number of lines under `access_cache` of core_sim/src/cache.rs.
use cpuex2022_7_simulator.Common.{
  ℕ, ◌<◌, ◌≡◌, Bool, arith, length, length-set, get_elem?-eq-get_or, Post, returns, ◌∙◌, Bool-cases,
  inl, inr, ◌==◌, get_or,
}
use cpuex2022_7_simulator.Cache.{Cache, access_cache, line_of, tag_of}

abbrev HasLines : ℕ → Cache → Type 0
HasLines nlines c = length c.inner ≡ nlines

pub access_cache-Post :
    {E : Type 0} (nlines addr : ℕ) (c : Cache)
    → 0 < nlines
    → length c.inner ≡ nlines
    → Post (λ (_ : Bool). HasLines nlines) (HasLines nlines) (access_cache {E = E} nlines addr c)
unfolding access_cache
access_cache-Post nlines addr c pos lines =
    rw
      (
        access_cache,
        get_elem?-eq-get_or c.inner (line_of nlines addr) 0 (omega (arith, pos, lines)),
      )
      (elim (Bool-cases (get_or c.inner (line_of nlines addr) 0 == tag_of nlines addr)) [
        | inl hit ↦ rw hit (returns lines)
        | inr miss ↦ rw miss (returns (length-set _ _ _ ∙ lines))
      ])
