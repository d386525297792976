-- ===== src/Cache/History.antt =====
-- The cache against the history of the accesses it has served.
use native.Mathlib.Nat.{mod-lt}
use cpuex2022_7_simulator.Common.{
  ℕ, ◌<◌, ◌/◌, ◌^◌, ◌≡◌, ◌∙◌, arith, Bool, List, [], ◌∷◌, some, get_elem?, set, ◌==◌, if◌then◌else◌,
  Outcome, done, Bool-cases, inl, inr, get_elem?-set_self, get_elem?-set_ne, length, length-set,
  length-replicate, get_elem?-replicate,
}
use cpuex2022_7_simulator.Cache.{Cache, new, line_of, tag_of, access_cache}

-- The tag of the latest access that fell on a line; a line starts with tag 0.
abbrev pub last_tag : ℕ → ℕ → List ℕ → ℕ
last_tag nlines line [] = 0
last_tag nlines line (addr ∷ earlier) =
    if line_of nlines addr == line then tag_of nlines addr else last_tag nlines line earlier

-- The cache holds what `history`, latest access first, has left in it.
pub record Represents (nlines : ℕ) (history : List ℕ) (c : Cache) : Type 0 where
  pub size : length c.inner ≡ nlines
  pub tags :
      (line : ℕ) → line < nlines → get_elem? c.inner line ≡ some (last_tag nlines line history)

pub new-Represents : (nlines : ℕ) → Represents nlines [] (new nlines)
unfolding new
new-Represents nlines = record {
  size = length-replicate nlines 0;
  tags = λ line h. get_elem?-replicate nlines line 0 h;
}

-- What an access leaves: the tag of its line is the one asked for, other lines are as before.
abbrev after : ℕ → ℕ → List ℕ → Cache → Cache
after nlines addr history c =
    if last_tag nlines (line_of nlines addr) history == tag_of nlines addr
    then c
    else record c { inner = set c.inner (line_of nlines addr) (tag_of nlines addr) }

module _ {nlines : ℕ} {history : List ℕ} {c : Cache} (pos : 0 < nlines)
    (r : Represents nlines history c) (addr : ℕ) where
  line_in_range : line_of nlines addr < nlines
  line_in_range = mod-lt (addr / 2 ^ 2) pos

  after-Represents : Represents nlines (addr ∷ history) (after nlines addr history c)
  after-Represents =
      elim (Bool-cases (last_tag nlines (line_of nlines addr) history == tag_of nlines addr)) [
        | inl hit ↦
            rw hit (record { size = r.size; tags = λ line h. ground (arith, r.tags line h) })
        | inr miss ↦ rw miss (record {
          size = length-set _ _ _ ∙ r.size;
          tags = λ line h. ground (
            arith,
            r.tags line h,
            line_in_range,
            r.size,
            get_elem?-set_self c.inner (line_of nlines addr) (tag_of nlines addr),
            get_elem?-set_ne c.inner {i = line_of nlines addr} {j = line} (tag_of nlines addr),
          );
        })
      ]

-- An access of a cache with a line never panics, and hits exactly if the latest access to its line had its tag, or if
-- there was none and its tag is 0; afterwards the cache represents the longer history.
pub access_cache_lem :
    {E : Type 0} (nlines : ℕ) (history : List ℕ) (c : Cache) (addr : ℕ)
    → 0 < nlines
    → Represents nlines history c
    → (c' : Cache) × ◌≡◌ {A = Outcome Cache E Bool}
        (access_cache nlines addr c)
        (done (last_tag nlines (line_of nlines addr) history == tag_of nlines addr) c')
      × Represents nlines (addr ∷ history) c'
access_cache_lem {E} nlines history c addr pos r =
    (after nlines addr history c, step, after-Represents pos r addr)
  where
    step : ◌≡◌ {A = Outcome Cache E Bool} (access_cache nlines addr c) (
        done
          (last_tag nlines (line_of nlines addr) history == tag_of nlines addr)
          (after nlines addr history c))
    step =
        unfold access_cache in
        ground (arith, r.tags (line_of nlines addr) (line_in_range pos r addr))
