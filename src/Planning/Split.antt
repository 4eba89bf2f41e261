-- ===== src/Planning/Split.antt =====
-- SplitCursorRange (internal/connectors/source.go) and buildOrderedCursorRangeTasks
-- (internal/planner/autotune.go) on a discrete cursor domain. A cursor value is the number of steps from
-- the least value of its domain; that the greatest one has no successor, where the source plans
-- nothing, is left out. `parts` is the number of planned tasks, 0 where it is negative.
use o_rabbit.Prelude.{
  ℕ, zero, suc, ◌+◌, ◌-◌, ◌/◌, ◌%◌, Bool, true, false, Option, none, some, List, [], ◌∷◌, ltb, leb,
  ◌==◌, if◌then◌else◌,
}
use o_rabbit.Store.Tx.{Result, ok, err, invalid_argument, ◌>>=◌}

abbrev pub at_least_one : ℕ → ℕ
at_least_one n = if n == 0 then 1 else n

-- The size of the part with an index: the first `remainder` parts are one larger.
abbrev pub part_size : (base remainder idx : ℕ) → ℕ
part_size base remainder idx = if ltb idx remainder then base + 1 else base

-- The loop, with the number of rounds that are left; the last upper bound is the end.
unfoldable pub split_loop : (rounds base remainder idx cur end_inclusive : ℕ) → List ℕ
split_loop zero base remainder idx cur last = last ∷ []
split_loop (suc rounds) base remainder idx cur last =
    let upper = cur + part_size base remainder idx - 1 in
    let rest = split_loop rounds base remainder (idx + 1) (upper + 1) last in
    if leb last upper
    then last ∷ []
    else (if ltb last (upper + 1) then upper ∷ last ∷ [] else upper ∷ rest)

unfoldable pub split_cursor_range : (start_inclusive end_inclusive parts : ℕ) → Result (List ℕ)
unfolding split_loop
split_cursor_range start last parts =
    if ltb last start
    then err invalid_argument
    else (if leb parts 1
        then ok (last ∷ [])
        else ok (
            split_loop (parts - 1) (at_least_one ((last - start + 1) / parts))
              ((last - start + 1) % parts) 0 start last))

-- The bounds in the partition spec of a task; no lower bound starts at the source minimum.
pub record CursorRange : Type 0 where
  pub lower : Option ℕ
  pub lower_exclusive : Bool
  pub upper : ℕ

-- The loop over the upper bounds.
unfoldable pub range_tasks : Option ℕ → Bool → List ℕ → List CursorRange
range_tasks lower lower_exclusive [] = []
range_tasks lower lower_exclusive (upper ∷ rest) =
    record { lower = lower; lower_exclusive = lower_exclusive; upper = upper }
    ∷ range_tasks (some upper) true rest

abbrev pub start_of : (min_value : ℕ) → Option ℕ → Bool → ℕ
start_of min_value none exclusive = min_value
start_of min_value (some l) true = l + 1
start_of min_value (some l) false = l

unfoldable pub build_range_tasks :
    (min_value max_value : ℕ)
    → Option ℕ
    → (lower_exclusive : Bool) → (parts : ℕ) → Result (List CursorRange)
unfolding split_cursor_range range_tasks
build_range_tasks min_value max_value lower exclusive parts =
    if ltb max_value (start_of min_value lower exclusive)
    then ok []
    else (split_cursor_range (start_of min_value lower exclusive) max_value (at_least_one parts)
        >>= λ uppers. ok (range_tasks lower exclusive uppers))
