-- ===== src/Table/Keyed.antt =====
-- Properties of tables that every UPDATE keeps row by row: a primary key, and a relation between the
-- rows of two tables.
use o_rabbit.Prelude.{ℕ, ◌≡◌, refl, Bool, List, [], ◌∷◌, ◌++◌, Memᴰ, if◌then◌else◌, inl, inr, ◌⊎◌}
use o_rabbit.Table.{update_where}
use o_rabbit.Table.Laws.{mem-update_where}

-- Rows with the same key are the same row.
abbrev pub Keyed {ℓ} : {A : Type ℓ} → (A → ℕ) → List A → Type ℓ
Keyed {A} key xs = (a b : A) → Memᴰ a xs → Memᴰ b xs → key a ≡ key b → a ≡ b

abbrev pub Each {ℓ κ} : {A : Type ℓ} → (A → Type κ) → List A → Type (ℓ ⊔ κ)
Each {A} P xs = (a : A) → Memᴰ a xs → P a

abbrev pub Pairs {ℓ κ ρ} :
    {A : Type ℓ} {B : Type κ} → (A → B → Type ρ) → List A → List B → Type (ℓ ⊔ κ ⊔ ρ)
Pairs {A} {B} P xs ys = (a : A) (b : B) → Memᴰ a xs → Memᴰ b ys → P a b

-- What an UPDATE makes of a row.
abbrev pub after {ℓ} : {A : Type ℓ} → (A → Bool) → (A → A) → A → A
after p f a = if p a then f a else a

module _ {ℓ} {A : Type ℓ} where
  -- A row of a table with one row appended.
  pub mem-append_one : (xs : List A) (x : A) {a : A} → Memᴰ a (xs ++ x ∷ []) → Memᴰ a xs ⊎ (a ≡ x)
  mem-append_one [] x (Memᴰ.head e) = inr e
  mem-append_one [] x (Memᴰ.tail m) = elim m [ ]
  mem-append_one (y ∷ ys) x (Memᴰ.head e) = inl (Memᴰ.head e)
  mem-append_one (y ∷ ys) x (Memᴰ.tail m) = elim (mem-append_one ys x m) [
    | inl n ↦ inl (Memᴰ.tail n)
    | inr e ↦ inr e
  ]

  pub mem-append_left : (xs ys : List A) {a : A} → Memᴰ a xs → Memᴰ a (xs ++ ys)
  mem-append_left [] ys m = elim m [ ]
  mem-append_left (x ∷ xs) ys (Memᴰ.head e) = Memᴰ.head e
  mem-append_left (x ∷ xs) ys (Memᴰ.tail m) = Memᴰ.tail (mem-append_left xs ys m)

  pub mem-append_last : (xs : List A) (x : A) → Memᴰ x (xs ++ x ∷ [])
  mem-append_last [] x = Memᴰ.head refl
  mem-append_last (y ∷ ys) x = Memᴰ.tail (mem-append_last ys x)

  pub Each-update_where {κ} :
      (P : A → Type κ) (p : A → Bool) (f : A → A) (xs : List A)
      → ((a : A) → Memᴰ a xs → P a → P (after p f a))
      → Each P xs
      → Each P (update_where p f xs)
  Each-update_where P p f xs keep h a m =
      let (x, mx, ex) = mem-update_where p f xs m in rw ex (keep x mx (h x mx))

-- UPDATEs of both tables that keep a relation row by row keep it.
pub Pairs-update_where {ℓ κ ρ} :
    {A : Type ℓ} {B : Type κ} (P : A → B → Type ρ) (p : A → Bool) (f : A → A) (xs : List A)
    (q : B → Bool) (g : B → B) (ys : List B)
    → ((a : A) (b : B) → Memᴰ a xs → Memᴰ b ys → P a b → P (after p f a) (after q g b))
    → Pairs P xs ys
    → Pairs P (update_where p f xs) (update_where q g ys)
Pairs-update_where P p f xs q g ys keep h a b ma mb =
    let (x, mx, ex) = mem-update_where p f xs ma in
    let (y, my, ey) = mem-update_where q g ys mb in rw (ex, ey) (keep x y mx my (h x y mx my))
