-- ===== src/Boundary/Tracker.antt =====
-- The tracker of one task's rows (internal/hwmboundary/tracker.go): which rows it keeps, and the rows
-- that it counts at the largest cursor value.
use o_rabbit.Prelude.{
  ℕ, Bool, true, false, not, ◌&&◌, Option, none, some, List, [], ◌∷◌, ltb, leb, ◌==◌, length,
  if◌then◌else◌,
}
use o_rabbit.Boundary.Counts.{Counts, count_of, has_key, add_to, take_one}

-- MaxRowHashes
abbrev pub max_row_hashes : ℕ
max_row_hashes = 10000

pub record Boundary : Type 0 where
  pub cursor_value : Option ℕ
  pub row_hashes : Counts
  pub overflow : Bool

pub record Skip : Type 0 where
  pub cursor_value : ℕ
  pub row_hashes : Counts
  pub seed : Bool

-- A row with its cursor, which is none if it is NULL, and the hash of its values.
pub record Row : Type 0 where
  pub cursor : Option ℕ
  pub row_hash : ℕ

pub record Tracker : Type 0 where
  pub skip : Option Skip
  pub remaining : Counts
  pub limit : ℕ
  pub max : Option ℕ
  pub at_max : Counts
  pub overflow : Bool

abbrev pub initial_remaining : Option Skip → Counts
initial_remaining none = []
initial_remaining (some s) = if s.seed then [] else s.row_hashes

-- newTrackerWithLimit
unfoldable pub new_tracker : Option Skip → (limit : ℕ) → Tracker
new_tracker skip limit = record {
  skip = skip;
  remaining = initial_remaining skip;
  limit = limit;
  max = none;
  at_max = [];
  overflow = false;
}

-- The first part of Keep: is the row exported, and the counts that remain.
abbrev pub check_skip : Option Skip → (cursor row_hash : ℕ) → Counts → Bool × Counts
check_skip none cursor h remaining = (true, remaining)
check_skip (some s) cursor h remaining =
    if cursor == s.cursor_value
    then (if s.seed
        then (false, remaining)
        else (if ltb 0 (count_of h remaining)
            then (false, take_one h remaining)
            else (true, remaining)))
    else (true, remaining)

-- CompareCursorValues(cursor, max) < 0, where there is a maximum
abbrev pub is_behind : Option ℕ → ℕ → Bool
is_behind none cursor = false
is_behind (some m) cursor = ltb cursor m

abbrev pub is_beyond : Option ℕ → ℕ → Bool
is_beyond none cursor = false
is_beyond (some m) cursor = ltb m cursor

-- The end of observe: the row is counted, unless there are too many hashes.
abbrev pub count_row : ℕ → Tracker → Tracker
count_row h t =
    if t.overflow
    then t
    else (if not (has_key h t.at_max) && leb t.limit (length t.at_max)
        then record t { at_max = []; overflow = true }
        else record t { at_max = add_to h 1 t.at_max })

abbrev pub reset_max : Bool → Tracker → Tracker
reset_max true t = record t { at_max = []; overflow = false }
reset_max false t = t

unfoldable pub observe : (cursor row_hash : ℕ) → Tracker → Tracker
observe cursor h t =
    if is_behind t.max cursor
    then t
    else count_row h (record (reset_max (is_beyond t.max cursor) t) { max = some cursor })

abbrev pub keep_at : Option ℕ → (row_hash : ℕ) → Tracker → Bool × Tracker
keep_at none h t = (true, t)
keep_at (some cursor) h t =
    let o = check_skip t.skip cursor h t.remaining in
    (o.0, observe cursor h (record t { remaining = o.1 }))

-- Keep
unfoldable pub keep : Row → Tracker → Bool × Tracker
unfolding observe
keep r t = keep_at r.cursor r.row_hash t

-- The rows of a task in turn: those that are exported, and the tracker in the end.
unfoldable pub track : List Row → Tracker → List Row × Tracker
unfolding keep
track [] t = ([], t)
track (r ∷ rest) t =
    let o = keep r t in
    let others = track rest o.1 in ((if o.0 then r ∷ others.0 else others.0), others.1)

-- Boundary
unfoldable pub boundary_of : Tracker → Boundary
boundary_of t =
    if t.overflow
    then record { cursor_value = t.max; row_hashes = []; overflow = true }
    else record { cursor_value = t.max; row_hashes = t.at_max; overflow = false }

-- The rows with a cursor value and a hash.
abbrev pub is_at : ℕ → Option ℕ → Bool
is_at v none = false
is_at v (some c) = c == v

abbrev pub is_row : (cursor_value row_hash : ℕ) → Row → Bool
is_row v h r = is_at v r.cursor && r.row_hash == h
