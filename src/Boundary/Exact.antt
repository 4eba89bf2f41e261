-- ===== src/Boundary/Exact.antt =====
-- From one run to the next (internal/hwmboundary): the rows at the high-water mark are exported once.
use o_rabbit.Prelude.{ℕ, ◌≡◌, false, Option, some, List, []}
use o_rabbit.Boundary.Counts.{Counts, merge_counts}
use o_rabbit.Boundary.Tracker.{Boundary, Skip, Row, Tracker, max_row_hashes, new_tracker, track}

-- A task from its start: the rows that it exports, and its tracker in the end.
abbrev pub run_task : Option Skip → List Row → List Row × Tracker
run_task skip rows = track rows (new_tracker skip max_row_hashes)

abbrev stored : ℕ → Counts → Boundary
stored v hashes = record {
  cursor_value = some v;
  row_hashes = merge_counts [] hashes;
  overflow = false;
}

-- The skip set that the next run gets.
abbrev pub next_skip : ℕ → Tracker → Skip
next_skip v t = record { cursor_value = v; row_hashes = merge_counts [] t.at_max; seed = false }

module _ (rows : List Row) (skip : Option Skip) (v : ℕ)
    (reached : (run_task skip rows).1.max ≡ some v)
    (fitted : (run_task skip rows).1.overflow ≡ false) where
  abbrev t : Tracker
  t = (run_task skip rows).1
