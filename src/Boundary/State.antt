-- ===== src/Boundary/State.antt =====
-- The boundary between runs (internal/hwmboundary/hwmboundary.go): what the commit stores, and how the
-- next run resumes. The texts of the plan events are left out.
use o_rabbit.Prelude.{
  ℕ, Bool, true, false, not, ◌||◌, Option, none, some, List, [], ◌∷◌, ltb, ◌==◌, length,
  if◌then◌else◌,
}
use o_rabbit.Boundary.Counts.{Counts, merge_counts}
use o_rabbit.Boundary.Tracker.{Boundary, Skip, max_row_hashes}

-- How a run resumes: at the mark with a skip set, or strictly after it.
pub data Plan : Type 0 where
  resume_at : Skip → Plan
  resume_after : Plan

abbrev pub seeding : ℕ → Skip
seeding hwm = record { cursor_value = hwm; row_hashes = []; seed = true }

abbrev pub is_no_entry : Counts → Bool
is_no_entry [] = true
is_no_entry (_ ∷ _) = false

abbrev pub plan_at : (hwm : ℕ) → Option ℕ → Boundary → Plan
plan_at hwm none b = resume_at (seeding hwm)
plan_at hwm (some c) b =
    if c == hwm
    then (if b.overflow
        then resume_after
        else (if is_no_entry b.row_hashes
            then resume_at (seeding hwm)
            else resume_at
                (record { cursor_value = hwm; row_hashes = b.row_hashes; seed = false })))
    else resume_at (seeding hwm)

-- PlanSkip
unfoldable pub plan_skip : (hwm : ℕ) → Option Boundary → Plan
plan_skip hwm none = resume_at (seeding hwm)
plan_skip hwm (some b) = plan_at hwm b.cursor_value b

-- The variables of the loop of ForState.
pub record Gathered : Type 0 where
  pub merged : Counts
  pub contributed : Bool
  pub overflow : Bool

abbrev pub is_at_mark : ℕ → Option ℕ → Bool
is_at_mark hwm none = false
is_at_mark hwm (some c) = c == hwm

abbrev pub gather_one : ℕ → Boundary → Gathered → Gathered
gather_one hwm b g =
    if is_at_mark hwm b.cursor_value
    then record {
      merged = merge_counts g.merged b.row_hashes;
      contributed = true;
      overflow = g.overflow || b.overflow;
    }
    else g

-- The loop; a task that did not track its boundary ends it.
unfoldable pub gather : ℕ → List (Option Boundary) → Gathered → Option Gathered
gather hwm [] g = some g
gather hwm (none ∷ rest) g = none
gather hwm (some b ∷ rest) g = gather hwm rest (gather_one hwm b g)

abbrev pub keep_existing : ℕ → Option Boundary → Option Boundary
keep_existing hwm none = none
keep_existing hwm (some b) = if is_at_mark hwm b.cursor_value then some b else none

abbrev pub state_of_gathered : ℕ → Option Boundary → Option Gathered → Option Boundary
state_of_gathered hwm existing none = none
state_of_gathered hwm existing (some g) =
    if not g.contributed
    then keep_existing hwm existing
    else (if g.overflow || ltb max_row_hashes (length g.merged)
        then some (record { cursor_value = some hwm; row_hashes = []; overflow = true })
        else some (record { cursor_value = some hwm; row_hashes = g.merged; overflow = false }))

-- ForState; `known` tells whether the cursor domain is known.
unfoldable pub for_state :
    (known : Bool) → (hwm : Option ℕ) → Option Boundary → List (Option Boundary) → Option Boundary
unfolding gather
for_state false hwm existing reported = none
for_state true none existing reported = none
for_state true (some hwm) existing reported =
    state_of_gathered hwm existing
      (gather hwm reported (record { merged = []; contributed = false; overflow = false }))
