-- ===== src/Boundary/Observed.antt =====
-- What the tracker counts (internal/hwmboundary/tracker.go, observe): the rows at the largest cursor
-- value, kept or dropped.
use o_rabbit.Prelude.{
  ℕ, ◌≤◌, ◌≡◌, refl, sym, ap, ◌∙◌, false, not, ◌&&◌, Option, none, some, List, [], ◌∷◌, arith, leb,
  if◌then◌else◌, length, Bool-cases, inl, inr,
}
use mathlib.Core.Path.{subst}
use o_rabbit.Table.{count_where}
use o_rabbit.Boundary.Counts.{
  Counts, count_of, has_key, count_of-add_to, length-add_to, IsMap, add_to-IsMap,
}
use o_rabbit.Boundary.Tracker.{
  Skip, Row, Tracker, check_skip, is_behind, count_row, observe, keep_at, track, new_tracker,
  is_row,
}
use o_rabbit.Boundary.Largest.{
  IsMax, at_value, Observes, row_at, Observes-behind, moved, Observes-moved,
}

-- A row at the maximum is counted.
IsMax-count : (c h : ℕ) (rows : List Row) → IsMax (some c) rows → IsMax (some c) (row_at c h ∷ rows)
unfolding count_where
IsMax-count c h rows i d q = ground (arith, i d q)

counted-row :
    (c h : ℕ) (t : Tracker) (rows : List Row)
    → (t.overflow ≡ false → (g : ℕ) → count_of g t.at_max ≡ count_where (is_row c g) rows)
    → (count_row h t).overflow ≡ false
    → (g : ℕ) → count_of g (count_row h t).at_max ≡ count_where (is_row c g) (row_at c h ∷ rows)
unfolding count_where
counted-row c h t rows k f g = elim (Bool-cases t.overflow) [
  | inl e ↦ cc (rw e at f)
  | inr e ↦ elim (Bool-cases (not (has_key h t.at_max) && leb t.limit (length t.at_max))) [
    | inl full ↦ cc (rw (e, full) at f)
    | inr room ↦ rw (e, room) (rw count_of-add_to (ground (arith, k e g)))
  ]
]

length-count_row :
    (h : ℕ) (t : Tracker)
    → length t.at_max ≤ t.limit
    → length (count_row h t).at_max ≤ (count_row h t).limit
length-count_row h t b = ground (arith, length-add_to h 1 t.at_max)

count_row-IsMap : (h : ℕ) (t : Tracker) → IsMap t.at_max → IsMap (count_row h t).at_max
count_row-IsMap h t i = elim (Bool-cases t.overflow) [
  | inl e ↦ simp e i
  | inr e ↦ elim (Bool-cases (not (has_key h t.at_max) && leb t.limit (length t.at_max))) [
    | inl full ↦ simp (e, full) tt
    | inr room ↦ simp (e, room) (add_to-IsMap h 1 t.at_max i)
  ]
]

count_row-max : (h : ℕ) (t : Tracker) → (count_row h t).max ≡ t.max
count_row-max h t = ground arith

Observes-counted :
    (t : Tracker) (c h : ℕ) (rows : List Row)
    → t.max ≡ some c
    → Observes t rows
    → Observes (count_row h t) (row_at c h ∷ rows)
Observes-counted t c h rows e o =
    let q : (count_row h t).max ≡ some c = count_row-max h t ∙ e in
    record {
      largest =
          subst (λ m. IsMax m (row_at c h ∷ rows)) (sym q)
            (IsMax-count c h rows (subst (λ m. IsMax m rows) e o.largest));
      counted = λ f g.
          counted-row c h t rows (λ k j. o.counted k j ∙ ap (λ m. at_value m j rows) e) f g
          ∙ ap (λ m. at_value m g (row_at c h ∷ rows)) (sym q);
      bounded = length-count_row h t o.bounded;
      is_map = count_row-IsMap h t o.is_map;
    }

Observes-remaining :
    (t : Tracker) (m : Counts) (rows : List Row)
    → Observes t rows
    → Observes (record t { remaining = m }) rows
Observes-remaining t m rows o = record {
  largest = o.largest;
  counted = o.counted;
  bounded = o.bounded;
  is_map = o.is_map;
}

Observes-observe :
    (t : Tracker) (c h : ℕ) (rows : List Row)
    → Observes t rows
    → Observes (observe c h t) (row_at c h ∷ rows)
unfolding observe
Observes-observe t c h rows o = elim (Bool-cases (is_behind t.max c)) [
  | inl b ↦
      subst (λ x. Observes (if x then t else count_row h (moved c t)) (row_at c h ∷ rows)) (sym b)
        (Observes-behind t c h rows b o)
  | inr b ↦
      subst (λ x. Observes (if x then t else count_row h (moved c t)) (row_at c h ∷ rows)) (sym b)
        (Observes-counted (moved c t) c h rows refl (Observes-moved t c rows b o))
]

-- A row without a cursor is not observed.
IsMax-null :
    (m : Option ℕ) (h : ℕ) (rows : List Row)
    → IsMax m rows
    → IsMax m (record { cursor = none; row_hash = h } ∷ rows)
unfolding count_where
IsMax-null none h rows i = i
IsMax-null (some m) h rows i = i

at_value-null :
    (m : Option ℕ) (h g : ℕ) (rows : List Row)
    → at_value m g rows ≡ at_value m g (record { cursor = none; row_hash = h } ∷ rows)
unfolding count_where
at_value-null none h g rows = refl
at_value-null (some m) h g rows = refl

Observes-keep_at :
    (o : Option ℕ) (h : ℕ) (t : Tracker) (rows : List Row)
    → Observes t rows
    → Observes (keep_at o h t).1 (record { cursor = o; row_hash = h } ∷ rows)
Observes-keep_at none h t rows k = record {
  largest = IsMax-null t.max h rows k.largest;
  counted = λ f g. k.counted f g ∙ at_value-null t.max h g rows;
  bounded = k.bounded;
  is_map = k.is_map;
}
Observes-keep_at (some c) h t rows k =
    Observes-observe _ c h rows (Observes-remaining t (check_skip t.skip c h t.remaining).1 rows k)

-- The rows in the order in which the tracker saw them, last first.
abbrev pub seen : List Row → List Row → List Row
seen [] before = before
seen (r ∷ rest) before = seen rest (r ∷ before)

pub Observes-track :
    (rows before : List Row) (t : Tracker)
    → Observes t before
    → Observes (track rows t).1 (seen rows before)
unfolding track
Observes-track [] before t o = o
Observes-track (r ∷ rest) before t o =
    Observes-track rest (r ∷ before) _ (Observes-keep_at r.cursor r.row_hash t before o)

pub Observes-new : (skip : Option Skip) (limit : ℕ) → Observes (new_tracker skip limit) []
unfolding new_tracker count_where count_of
Observes-new skip limit = record {
  largest = λ c. refl;
  counted = λ e h. refl;
  bounded = omega arith;
  is_map = tt;
}
