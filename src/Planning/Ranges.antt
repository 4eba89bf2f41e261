-- ===== src/Planning/Ranges.antt =====
-- The ranges of the tasks (internal/connectors/source.go, internal/planner/autotune.go) share no row and
-- leave none out.
use o_rabbit.Prelude.{
  ℕ, ◌+◌, ◌≤◌, ◌<◌, Bool, true, false, ◌&&◌, Option, none, some, List, [], ◌∷◌, ltb, leb,
}
use o_rabbit.Planning.Split.{CursorRange}

-- Upper bounds that rise from `cur` to `last`.
pub data Rises (last : ℕ) : ℕ → List ℕ → Type 0 where
  ends : {cur : ℕ} → cur ≤ last → Rises last cur (last ∷ [])
  rises :
      {cur u : ℕ} {rest : List ℕ}
      → cur ≤ u
      → u < last
      → Rises last (u + 1) rest
      → Rises last cur (u ∷ rest)

-- Is a cursor value above the lower bound, and within a range?
abbrev pub is_above : Option ℕ → (exclusive : Bool) → ℕ → Bool
is_above none exclusive v = true
is_above (some l) true v = ltb l v
is_above (some l) false v = leb l v

abbrev pub contains : ℕ → CursorRange → Bool
contains v r = is_above r.lower r.lower_exclusive v && leb v r.upper
