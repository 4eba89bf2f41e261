-- ===== src/Tests/Marks.antt =====
-- The theorems on the boundary of the high-water mark (internal/hwmboundary) at a run that ends with
-- two rows at its mark, and a next run that finds a third.
use o_rabbit.Prelude.{ℕ, ◌≡◌, refl, false, none, some, List, [], ◌∷◌}
use o_rabbit.Boundary.Counts.{count_of, add_to, has_key, take_one}
use o_rabbit.Boundary.Tracker.{Row, new_tracker, track}
use o_rabbit.Boundary.Exact.{run_task}

abbrev row : ℕ → ℕ → Row
row c h = record { cursor = some c; row_hash = h }

abbrev first_rows : List Row
first_rows = row 3 70 ∷ row 5 71 ∷ record { cursor = none; row_hash = 9 } ∷ row 5 72 ∷ []

abbrev next_rows : List Row
next_rows = row 5 71 ∷ row 5 72 ∷ row 5 71 ∷ row 6 73 ∷ []

next_exported :
    (run_task
      (some (record { cursor_value = 5; row_hashes = (71, 1) ∷ (72, 1) ∷ []; seed = false }))
      next_rows).0
    ≡ row 5 71 ∷ row 6 73 ∷ []
unfolding track new_tracker count_of has_key take_one add_to
next_exported = refl
