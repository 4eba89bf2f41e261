-- ===== src/Table/Key.antt =====
-- Primary keys: at most one row of a table has a given key.
use o_rabbit.Prelude.{
  ℕ, ◌≤◌, ◌+◌, ◌≡◌, refl, sym, ap, ◌∙◌, ==_iff, Bool, true, false, List, [], ◌∷◌, ◌++◌, Memᴰ, arith,
  ◌==◌, if◌then◌else◌, Bool-cases, Option-cases, some, inl, inr,
}
use o_rabbit.Table.{find_where, count_where, update_where}
use o_rabbit.Table.Laws.{count_where_pos, count_where_zero, find_where-some, find_where-none}
use o_rabbit.Table.Keyed.{Keyed, Each}

-- PRIMARY KEY
abbrev pub PrimaryKey {ℓ} : {A : Type ℓ} → (A → ℕ) → List A → Type 0
PrimaryKey {A} key xs = (k : ℕ) → count_where (λ (x : A). key x == k) xs ≤ 1

module _ {ℓ} {A : Type ℓ} where
  -- A condition that implies another is met by no more rows.
  pub count_where_mono :
      (p q : A → Bool) (xs : List A)
      → ((a : A) → p a ≡ true → q a ≡ true)
      → count_where p xs ≤ count_where q xs
  unfolding count_where
  count_where_mono p q [] h = omega arith
  count_where_mono p q (x ∷ xs) h = ground (arith, h x, count_where_mono p q xs h)

  pub PrimaryKey-Keyed : (key : A → ℕ) (xs : List A) → PrimaryKey key xs → Keyed key xs
  unfolding count_where
  PrimaryKey-Keyed key [] k a b ma mb e = elim ma [ ]
  PrimaryKey-Keyed key (x ∷ xs) k a b (Memᴰ.head ea) (Memᴰ.head eb) e = ea ∙ sym eb
  PrimaryKey-Keyed key (x ∷ xs) k a b (Memᴰ.head ea) (Memᴰ.tail mb) e =
      let q : key x ≡ key b = ap key (sym ea) ∙ e in
      absurd (
        ground (
          arith,
          k (key b),
          q,
          count_where_pos (λ y. key y == key b) xs mb ((==_iff (key b) (key b)).1 refl),
        ))
  PrimaryKey-Keyed key (x ∷ xs) k a b (Memᴰ.tail ma) (Memᴰ.head eb) e =
      let q : key x ≡ key a = ap key (sym eb) ∙ sym e in
      absurd (
        ground (
          arith,
          k (key a),
          q,
          count_where_pos (λ y. key y == key a) xs ma ((==_iff (key a) (key a)).1 refl),
        ))
  PrimaryKey-Keyed key (x ∷ xs) k a b (Memᴰ.tail ma) (Memᴰ.tail mb) e =
      PrimaryKey-Keyed key xs (λ n. ground (arith, k n)) a b ma mb e

  count_key-update_where :
      (key : A → ℕ) (p : A → Bool) (f : A → A) (k : ℕ) (xs : List A)
      → ((a : A) → key (f a) ≡ key a)
      → count_where (λ x. key x == k) (update_where p f xs) ≡ count_where (λ x. key x == k) xs
  unfolding count_where update_where
  count_key-update_where key p f k [] same = refl
  count_key-update_where key p f k (x ∷ xs) same =
      ground (arith, same x, count_key-update_where key p f k xs same)

  count_where-append_one :
      (p : A → Bool) (xs : List A) (x : A)
      → count_where p (xs ++ x ∷ []) ≡ count_where p xs + (if p x then 1 else 0)
  unfolding count_where
  count_where-append_one p [] x = ground arith
  count_where-append_one p (y ∷ ys) x = ground (arith, count_where-append_one p ys x)

  -- An UPDATE that keeps the key column keeps the primary key.
  pub PrimaryKey-update_where :
      (key : A → ℕ) (p : A → Bool) (f : A → A) (xs : List A)
      → ((a : A) → key (f a) ≡ key a)
      → PrimaryKey key xs
      → PrimaryKey key (update_where p f xs)
  PrimaryKey-update_where key p f xs same h k = rw (count_key-update_where key p f k xs same) (h k)

  -- So does an INSERT of a row with a key that no row has.
  pub PrimaryKey-append :
      (key : A → ℕ) (xs : List A) (x : A)
      → Each (λ a. ¬ (key a ≡ key x)) xs
      → PrimaryKey key xs
      → PrimaryKey key (xs ++ x ∷ [])
  PrimaryKey-append key xs x fresh h k = rw count_where-append_one (elim (Bool-cases (key x == k)) [
    | inr e ↦ rw e (omega (arith, h k))
    | inl e ↦
        let z = count_where_zero (λ y. key y == k) xs (λ a m. other a (fresh a m) e) in
        rw (e, z) (omega arith)
  ])
    where
      other : (a : A) → ¬ (key a ≡ key x) → (key x == k) ≡ true → (key a == k) ≡ false
      other a n e = ground arith

  -- A lookup by a condition that only rows with one key can meet returns the row with that key.
  pub find_where-key :
      (key : A → ℕ) (p : A → Bool) (xs : List A) (a : A)
      → PrimaryKey key xs
      → ((b : A) → p b ≡ true → key b ≡ key a)
      → Memᴰ a xs
      → p a ≡ true
      → find_where p xs ≡ some a
  find_where-key key p xs a k only m h = elim (Option-cases (find_where p xs)) [
    | inl e ↦ cc (find_where-none p xs e m)
    | inr (b, e) ↦
        let (mb, hb) = find_where-some p xs e in
        let q : b ≡ a = PrimaryKey-Keyed key xs k b a mb m (only b hb) in rw q at e
  ]

  -- And it is the only row that meets it.
  pub count_where-key :
      (key : A → ℕ) (p : A → Bool) (xs : List A) (a : A)
      → PrimaryKey key xs
      → ((b : A) → p b ≡ true → key b ≡ key a)
      → Memᴰ a xs
      → p a ≡ true
      → count_where p xs ≡ 1
  count_where-key key p xs a k only m h = omega (
    arith,
    count_where_pos p xs m h,
    count_where_mono p (λ b. key b == key a) xs (λ b hb. (==_iff (key b) (key a)).1 (only b hb)),
    k (key a),
  )
