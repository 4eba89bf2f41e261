-- ===== src/Boundary/Kept.antt =====
-- Which rows the tracker exports (internal/hwmboundary/tracker.go, Keep).
use o_rabbit.Prelude.{
  ℕ, ◌+◌, ◌-◌, ◌≡◌, refl, sym, ap, ◌∙◌, Bool, true, false, not, ◌&&◌, Option, none, some, List, [],
  ◌∷◌, arith, ◌==◌, if◌then◌else◌,
}
use o_rabbit.Table.{count_where, select_where}
use o_rabbit.Boundary.Counts.{Counts, count_of, count_of-take_one}
use o_rabbit.Boundary.Tracker.{
  Skip, Row, Tracker, check_skip, observe, keep_at, track, is_at, is_row,
}

-- Observing a row changes neither the skip set nor the counts that remain.
observe-skip : (c h : ℕ) (t : Tracker) → (observe c h t).skip ≡ t.skip
unfolding observe
observe-skip c h t = ground arith

observe-remaining : (c h : ℕ) (t : Tracker) → (observe c h t).remaining ≡ t.remaining
unfolding observe
observe-remaining c h t = ground arith

keep_at-skip : (o : Option ℕ) (g : ℕ) (t : Tracker) → (keep_at o g t).1.skip ≡ t.skip
keep_at-skip none g t = refl
keep_at-skip (some c) g t = observe-skip c g _

abbrev one_if : Bool → ℕ
one_if true = 1
one_if false = 0

count_where-kept :
    (p : Row → Bool) (b : Bool) (r : Row) (rows : List Row)
    → count_where p (if b then r ∷ rows else rows) ≡ one_if (b && p r) + count_where p rows
unfolding count_where
count_where-kept p b r rows = ground arith

module _ (s : Skip) (h : ℕ) (tracked : s.seed ≡ false) where
  -- One row: what is exported of it, and what is left to drop.
  check_skip-count :
      (c g : ℕ) (m : Counts) (n : ℕ)
      → one_if ((check_skip (some s) c g m).0 && (c == s.cursor_value && g == h))
          + (n - count_of h (check_skip (some s) c g m).1)
        ≡ one_if (c == s.cursor_value && g == h) + n - count_of h m
  check_skip-count c g m n = ground (arith, tracked, count_of-take_one g h m)

  keep_at-count :
      (o : Option ℕ) (g : ℕ) (t : Tracker) (n : ℕ)
      → t.skip ≡ some s
      → one_if ((keep_at o g t).0 && (is_at s.cursor_value o && g == h))
          + (n - count_of h (keep_at o g t).1.remaining)
        ≡ one_if (is_at s.cursor_value o && g == h) + n - count_of h t.remaining
  keep_at-count none g t n e = omega arith
  keep_at-count (some c) g t n e = rw (observe-remaining, e) (check_skip-count c g t.remaining n)

  -- Of the rows at the cursor value of the skip set, each hash is dropped as often as it remains to be
  -- dropped, and every further row with it is exported.
  pub track-kept :
      (rows : List Row) (t : Tracker)
      → t.skip ≡ some s
      → count_where (is_row s.cursor_value h) (track rows t).0
        ≡ count_where (is_row s.cursor_value h) rows - count_of h t.remaining
  unfolding track count_where
  track-kept [] t e = omega arith
  track-kept (r ∷ rest) t e =
      let p = is_row s.cursor_value h in
      let o = keep_at r.cursor r.row_hash t in
      let step = keep_at-count r.cursor r.row_hash t (count_where p rest) e in
      let ih = track-kept rest o.1 (keep_at-skip r.cursor r.row_hash t ∙ e) in
      count_where-kept p o.0 r (track rest o.1).0
      ∙ ap (λ n. one_if (o.0 && p r) + n) ih
      ∙ step
      ∙ ap (λ n. n - count_of h t.remaining) (sym (count_where-kept p true r rest))

-- A row with another cursor value, or with none, is always exported.
keep_at-elsewhere :
    (s : Skip) (o : Option ℕ) (g : ℕ) (t : Tracker)
    → t.skip ≡ some s
    → is_at s.cursor_value o ≡ false
    → (keep_at o g t).0 ≡ true
keep_at-elsewhere s none g t e f = refl
keep_at-elsewhere s (some c) g t e f = rw (e, f) refl

abbrev pub elsewhere : ℕ → Row → Bool
elsewhere v r = not (is_at v r.cursor)

select_where-kept :
    (p : Row → Bool) (b : Bool) (r : Row) (xs ys : List Row)
    → (p r ≡ true → b ≡ true)
    → select_where p xs ≡ select_where p ys
    → select_where p (if b then r ∷ xs else xs) ≡ select_where p (r ∷ ys)
unfolding select_where
select_where-kept p b r xs ys h e = ground (arith, h, e)

-- The rows with other cursor values are all exported, in their order.
pub track-elsewhere :
    (s : Skip) (rows : List Row) (t : Tracker)
    → t.skip ≡ some s
    → select_where (elsewhere s.cursor_value) (track rows t).0
      ≡ select_where (elsewhere s.cursor_value) rows
unfolding track
track-elsewhere s [] t e = refl
track-elsewhere s (r ∷ rest) t e =
    let o = keep_at r.cursor r.row_hash t in
    select_where-kept (elsewhere s.cursor_value) o.0 r (track rest o.1).0 rest
      (λ q. keep_at-elsewhere s r.cursor r.row_hash t e (ground (arith, q)))
      (track-elsewhere s rest o.1 (keep_at-skip r.cursor r.row_hash t ∙ e))
