-- ===== src/Boundary/Largest.antt =====
-- The largest cursor value that the tracker saw (internal/hwmboundary/tracker.go, observe), and rows
-- below and above it.
use o_rabbit.Prelude.{
  ℕ, ◌≤◌, ◌<◌, ◌≡◌, refl, sym, ap, ◌∙◌, Bool, true, false, Option, none, some, List, ◌∷◌, arith,
  ltb, length, Bool-cases, inl, inr,
}
use o_rabbit.Table.{count_where}
use o_rabbit.Table.Key.{count_where_mono}
use o_rabbit.Boundary.Counts.{count_of, IsMap}
use o_rabbit.Boundary.Tracker.{Row, Tracker, is_behind, is_beyond, reset_max, is_at, is_row}

-- No row has a cursor value above the maximum.
abbrev pub IsMax : Option ℕ → List Row → Type 0
IsMax none rows = (c : ℕ) → count_where (λ (r : Row). is_at c r.cursor) rows ≡ 0
IsMax (some m) rows = (c : ℕ) → m < c → count_where (λ (r : Row). is_at c r.cursor) rows ≡ 0

abbrev pub at_value : Option ℕ → (row_hash : ℕ) → List Row → ℕ
at_value none h rows = 0
at_value (some m) h rows = count_where (is_row m h) rows

-- The rows that were seen have no larger cursor value than the maximum, and unless there were too many
-- hashes, those at the maximum are counted by their hash.
pub record Observes (t : Tracker) (rows : List Row) : Type 0 where
  pub largest : IsMax t.max rows
  pub counted : t.overflow ≡ false → (h : ℕ) → count_of h t.at_max ≡ at_value t.max h rows
  pub bounded : length t.at_max ≤ t.limit
  pub is_map : IsMap t.at_max

row_none_at :
    (c h : ℕ) (rows : List Row)
    → count_where (λ (r : Row). is_at c r.cursor) rows ≡ 0
    → count_where (is_row c h) rows ≡ 0
row_none_at c h rows e = omega (
  arith,
  e,
  count_where_mono (is_row c h) (λ (r : Row). is_at c r.cursor) rows (λ r q. ground arith),
)

abbrev pub row_at : (cursor row_hash : ℕ) → Row
row_at c h = record { cursor = some c; row_hash = h }

-- A row below the maximum changes neither the maximum nor its count.
IsMax-behind :
    (m : Option ℕ) (c h : ℕ) (rows : List Row)
    → is_behind m c ≡ true
    → IsMax m rows
    → IsMax m (row_at c h ∷ rows)
unfolding count_where
IsMax-behind none c h rows b i = cc
IsMax-behind (some m) c h rows b i = λ d q. ground (arith, i d q)

at_value-behind :
    (m : Option ℕ) (c h g : ℕ) (rows : List Row)
    → is_behind m c ≡ true
    → at_value m g (row_at c h ∷ rows) ≡ at_value m g rows
unfolding count_where
at_value-behind none c h g rows b = cc
at_value-behind (some m) c h g rows b = ground arith

pub Observes-behind :
    (t : Tracker) (c h : ℕ) (rows : List Row)
    → is_behind t.max c ≡ true
    → Observes t rows
    → Observes t (row_at c h ∷ rows)
Observes-behind t c h rows b o = record {
  largest = IsMax-behind t.max c h rows b o.largest;
  counted = λ e g. o.counted e g ∙ sym (at_value-behind t.max c h g rows b);
  bounded = o.bounded;
  is_map = o.is_map;
}

-- Any other row is at the maximum, or above it, where nothing was counted yet.
IsMax-ahead :
    (m : Option ℕ) (c : ℕ) (rows : List Row)
    → is_behind m c ≡ false
    → IsMax m rows
    → IsMax (some c) rows
IsMax-ahead none c rows b i = λ d q. i d
IsMax-ahead (some m) c rows b i = λ d q. i d (ground arith)

abbrev pub moved : (cursor : ℕ) → Tracker → Tracker
moved c t = record (reset_max (is_beyond t.max c) t) { max = some c }

counted-ahead :
    (m : Option ℕ) (c : ℕ) (rows : List Row) (t : Tracker)
    → t.max ≡ m
    → is_behind m c ≡ false
    → IsMax m rows
    → (t.overflow ≡ false → (h : ℕ) → count_of h t.at_max ≡ at_value m h rows)
    → (reset_max (is_beyond m c) t).overflow ≡ false
    → (h : ℕ) → count_of h (reset_max (is_beyond m c) t).at_max ≡ count_where (is_row c h) rows
unfolding count_of
counted-ahead none c rows t e b i k f h = k f h ∙ sym (row_none_at c h rows (i c))
counted-ahead (some m) c rows t e b i k f h = elim (Bool-cases (ltb m c)) [
  | inl above ↦ rw above (sym (row_none_at c h rows (i c (ground arith))))
  | inr equal ↦
      let q : m ≡ c = ground arith in
      rw equal (k (rw equal at f) h ∙ ap (λ x. count_where (is_row x h) rows) q)
]

length-reset :
    (b : Bool) (t : Tracker)
    → length t.at_max ≤ t.limit
    → length (reset_max b t).at_max ≤ (reset_max b t).limit
length-reset true t h = omega arith
length-reset false t h = h

reset_max-IsMap : (b : Bool) (t : Tracker) → IsMap t.at_max → IsMap (reset_max b t).at_max
reset_max-IsMap true t i = tt
reset_max-IsMap false t i = i

pub Observes-moved :
    (t : Tracker) (c : ℕ) (rows : List Row)
    → is_behind t.max c ≡ false
    → Observes t rows
    → Observes (moved c t) rows
Observes-moved t c rows b o = record {
  largest = IsMax-ahead t.max c rows b o.largest;
  counted = counted-ahead t.max c rows t refl b o.largest o.counted;
  bounded = length-reset (is_beyond t.max c) t o.bounded;
  is_map = reset_max-IsMap (is_beyond t.max c) t o.is_map;
}
