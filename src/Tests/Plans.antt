-- ===== src/Tests/Plans.antt =====
-- The theorem on task ranges (internal/planner/autotune.go) at ten values in three parts.
use o_rabbit.Prelude.{◌≡◌, refl, [], ◌∷◌}
use o_rabbit.Store.Tx.{ok}
use o_rabbit.Planning.Split.{split_cursor_range}

three_parts : split_cursor_range 5 14 3 ≡ ok (8 ∷ 11 ∷ 14 ∷ [])
unfolding split_cursor_range
three_parts = refl
