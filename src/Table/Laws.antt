-- ===== src/Table/Laws.antt =====
-- Laws of the table operations, over the rows of a table.
use o_rabbit.Prelude.{
  not, ◌<◌, ◌≡◌, inl, inr, refl, ap, Bool, true, false, none, some, List, [], ◌∷◌, Memᴰ, arith,
  if◌then◌else◌, Bool-cases,
}
use o_rabbit.Table.{find_where, count_where, any_where, select_where, update_where}

module _ {ℓ} {A : Type ℓ} where
  -- A row that a lookup returns is in the table and meets the condition.
  pub find_where-some :
      (p : A → Bool) (xs : List A) {a : A} → find_where p xs ≡ some a → Memᴰ a xs × (p a ≡ true)
  unfolding find_where
  find_where-some p [] h = cc
  find_where-some p (x ∷ xs) {a} h = elim (Bool-cases (p x)) [
    | inl e ↦ let q : some x ≡ some a = rw e at h in let r : a ≡ x = cc in (Memᴰ.head r, rw r e)
    | inr e ↦
        let q : find_where p xs ≡ some a = rw e at h in
        let (m, t) = find_where-some p xs q in (Memᴰ.tail m, t)
  ]

  -- Where a lookup finds nothing, no row meets the condition.
  pub find_where-none :
      (p : A → Bool) (xs : List A) {a : A} → find_where p xs ≡ none → Memᴰ a xs → p a ≡ false
  unfolding find_where
  find_where-none p [] h m = elim m [ ]
  find_where-none p (x ∷ xs) h (Memᴰ.head e) = rw e (ground arith)
  find_where-none p (x ∷ xs) h (Memᴰ.tail m) = find_where-none p xs (ground arith) m

  -- Nor does any row where EXISTS is false.
  pub any_where-false :
      (p : A → Bool) (xs : List A) {a : A} → any_where p xs ≡ false → Memᴰ a xs → p a ≡ false
  unfolding any_where
  any_where-false p [] h m = elim m [ ]
  any_where-false p (x ∷ xs) h (Memᴰ.head e) = rw e (ground arith)
  any_where-false p (x ∷ xs) h (Memᴰ.tail m) = any_where-false p xs (ground arith) m

  pub any_where_none :
      (p : A → Bool) (xs : List A) → ((a : A) → Memᴰ a xs → p a ≡ false) → any_where p xs ≡ false
  unfolding any_where
  any_where_none p [] h = refl
  any_where_none p (x ∷ xs) h =
      ground (arith, h x (Memᴰ.head refl), any_where_none p xs (λ a m. h a (Memᴰ.tail m)))

  pub any_where_of_mem :
      (p : A → Bool) (xs : List A) {a : A} → Memᴰ a xs → p a ≡ true → any_where p xs ≡ true
  unfolding any_where
  any_where_of_mem p [] m h = elim m [ ]
  any_where_of_mem p (x ∷ xs) (Memᴰ.head e) h = let q : p x ≡ true = rw (← e) h in rw q
  any_where_of_mem p (x ∷ xs) (Memᴰ.tail m) h = ground (arith, any_where_of_mem p xs m h)

  -- EXISTS has a row that shows it.
  pub any_where-true :
      (p : A → Bool) (xs : List A) → any_where p xs ≡ true → (a : A) × Memᴰ a xs × (p a ≡ true)
  unfolding any_where
  any_where-true p [] h = cc
  any_where-true p (x ∷ xs) h = elim (Bool-cases (p x)) [
    | inl e ↦ (x, Memᴰ.head refl, e)
    | inr e ↦ let (a, m, t) = any_where-true p xs (ground arith) in (a, Memᴰ.tail m, t)
  ]

  -- A SELECT finds a row where EXISTS is true.
  pub find_where_any :
      (p : A → Bool) (xs : List A) → any_where p xs ≡ true → (a : A) × (find_where p xs ≡ some a)
  unfolding any_where find_where
  find_where_any p [] h = cc
  find_where_any p (x ∷ xs) h = elim (Bool-cases (p x)) [
    | inl e ↦ (x, rw e refl)
    | inr e ↦ let (a, q) = find_where_any p xs (rw e at h) in (a, rw e q)
  ]

  -- If no row meets the condition, none is counted.
  pub count_where_zero :
      (p : A → Bool) (xs : List A) → ((a : A) → Memᴰ a xs → p a ≡ false) → count_where p xs ≡ 0
  unfolding count_where
  count_where_zero p [] h = refl
  count_where_zero p (x ∷ xs) h =
      ground (arith, h x (Memᴰ.head refl), count_where_zero p xs (λ a m. h a (Memᴰ.tail m)))

  -- A row that meets the condition is counted.
  pub count_where_pos :
      (p : A → Bool) (xs : List A) {a : A} → Memᴰ a xs → p a ≡ true → 0 < count_where p xs
  unfolding count_where
  count_where_pos p [] m h = elim m [ ]
  count_where_pos p (x ∷ xs) (Memᴰ.head e) h = let q : p x ≡ true = rw (← e) h in rw q (omega arith)
  count_where_pos p (x ∷ xs) (Memᴰ.tail m) h = ground (arith, count_where_pos p xs m h)

  -- A positive count has a row that shows it.
  pub count_where_witness :
      (p : A → Bool) (xs : List A) → 0 < count_where p xs → (a : A) × Memᴰ a xs × (p a ≡ true)
  unfolding count_where
  count_where_witness p [] h = absurd (omega arith)
  count_where_witness p (x ∷ xs) h = elim (Bool-cases (p x)) [
    | inl e ↦ (x, Memᴰ.head refl, e)
    | inr e ↦ let (a, m, t) = count_where_witness p xs (ground arith) in (a, Memᴰ.tail m, t)
  ]

  -- Every row after an UPDATE comes from a row before it.
  pub mem-update_where :
      (p : A → Bool) (f : A → A) (xs : List A) {b : A}
      → Memᴰ b (update_where p f xs)
      → (a : A) × Memᴰ a xs × (b ≡ (if p a then f a else a))
  unfolding update_where
  mem-update_where p f [] m = elim m [ ]
  mem-update_where p f (x ∷ xs) (Memᴰ.head e) = (x, Memᴰ.head refl, e)
  mem-update_where p f (x ∷ xs) (Memᴰ.tail m) =
      let (a, n, e) = mem-update_where p f xs m in (a, Memᴰ.tail n, e)

  -- Every row before an UPDATE has its image after it.
  pub update_where-mem :
      (p : A → Bool) (f : A → A) (xs : List A) {a : A}
      → Memᴰ a xs
      → Memᴰ (if p a then f a else a) (update_where p f xs)
  unfolding update_where
  update_where-mem p f [] m = elim m [ ]
  update_where-mem p f (x ∷ xs) (Memᴰ.head e) = Memᴰ.head (ap (λ t. if p t then f t else t) e)
  update_where-mem p f (x ∷ xs) (Memᴰ.tail m) = Memᴰ.tail (update_where-mem p f xs m)

  -- Nor do an UPDATE and a DELETE that touch no row.
  pub update_where_uncounted :
      (p : A → Bool) (f : A → A) (xs : List A) → count_where p xs ≡ 0 → update_where p f xs ≡ xs
  unfolding count_where update_where
  update_where_uncounted p f [] h = refl
  update_where_uncounted p f (x ∷ xs) h = ground (arith, update_where_uncounted p f xs)

  pub select_where_uncounted :
      (p : A → Bool) (xs : List A) → count_where p xs ≡ 0 → select_where (λ a. not (p a)) xs ≡ xs
  unfolding count_where select_where
  select_where_uncounted p [] h = refl
  select_where_uncounted p (x ∷ xs) h = ground (arith, select_where_uncounted p xs)

  -- An UPDATE whose condition no row meets changes nothing.
  pub update_where_none :
      (p : A → Bool) (f : A → A) (xs : List A)
      → ((a : A) → Memᴰ a xs → p a ≡ false)
      → update_where p f xs ≡ xs
  unfolding update_where
  update_where_none p f [] h = refl
  update_where_none p f (x ∷ xs) h =
      ground (arith, h x (Memᴰ.head refl), update_where_none p f xs (λ a m. h a (Memᴰ.tail m)))

  -- A SELECT returns rows of the table that meet the condition.
  pub mem-select_where :
      (p : A → Bool) (xs : List A) {a : A} → Memᴰ a (select_where p xs) → Memᴰ a xs × (p a ≡ true)
  unfolding select_where
  mem-select_where p [] m = elim m [ ]
  mem-select_where p (x ∷ xs) {a} m = elim (Bool-cases (p x)) [
    | inl e ↦ at_first e (λ n. mem-select_where p xs n) (rw e at m)
    | inr e ↦ let (n, t) = mem-select_where p xs (rw e at m) in (Memᴰ.tail n, t)
  ]
    where
      at_first :
          p x ≡ true
          → (Memᴰ a (select_where p xs) → Memᴰ a xs × (p a ≡ true))
          → Memᴰ a (x ∷ select_where p xs)
          → Memᴰ a (x ∷ xs) × (p a ≡ true)
      at_first t rest (Memᴰ.head q) = (Memᴰ.head q, rw q t)
      at_first t rest (Memᴰ.tail n) = let (k, s) = rest n in (Memᴰ.tail k, s)

  -- And every such row.
  pub select_where-mem :
      (p : A → Bool) (xs : List A) {a : A} → Memᴰ a xs → p a ≡ true → Memᴰ a (select_where p xs)
  unfolding select_where
  select_where-mem p [] m h = elim m [ ]
  select_where-mem p (x ∷ xs) (Memᴰ.head e) h =
      let q : p x ≡ true = rw (← e) h in rw q (Memᴰ.head e)
  select_where-mem p (x ∷ xs) (Memᴰ.tail m) h = elim (Bool-cases (p x)) [
    | inl e ↦ rw e (Memᴰ.tail (select_where-mem p xs m h))
    | inr e ↦ rw e (select_where-mem p xs m h)
  ]
