-- ===== src/Boundary/Counts.antt =====
-- The maps from row hashes to numbers of rows (internal/hwmboundary), as association lists.
use o_rabbit.Prelude.{
  ℕ, suc, ◌+◌, ◌-◌, ◌≤◌, ◌<◌, ◌≡◌, refl, Bool, false, ◌||◌, List, [], ◌∷◌, arith, ◌==◌,
  if◌then◌else◌, length, Bool-cases, inl, inr,
}

abbrev pub Counts : Type 0
Counts = List (ℕ × ℕ)

-- m[h], which is 0 for an absent key
unfoldable pub count_of : ℕ → Counts → ℕ
count_of h [] = 0
count_of h ((k, n) ∷ rest) = if k == h then n else count_of h rest

unfoldable pub has_key : ℕ → Counts → Bool
has_key h [] = false
has_key h ((k, n) ∷ rest) = k == h || has_key h rest

-- m[h] += d
unfoldable pub add_to : ℕ → ℕ → Counts → Counts
add_to h d [] = (h, d) ∷ []
add_to h d ((k, n) ∷ rest) = if k == h then (k, n + d) ∷ rest else (k, n) ∷ add_to h d rest

-- m[h]--, where m[h] > 0
unfoldable pub take_one : ℕ → Counts → Counts
take_one h [] = []
take_one h ((k, n) ∷ rest) = if k == h then (k, n - 1) ∷ rest else (k, n) ∷ take_one h rest

pub count_of-add_to :
    (h d g : ℕ) (m : Counts)
    → count_of g (add_to h d m) ≡ (if h == g then count_of g m + d else count_of g m)
unfolding count_of add_to
count_of-add_to h d g [] = ground arith
count_of-add_to h d g ((k, n) ∷ rest) = ground (arith, count_of-add_to h d g rest)

pub count_of-take_one :
    (h g : ℕ) (m : Counts)
    → count_of g (take_one h m) ≡ (if h == g then count_of g m - 1 else count_of g m)
unfolding count_of take_one
count_of-take_one h g [] = ground arith
count_of-take_one h g ((k, n) ∷ rest) = ground (arith, count_of-take_one h g rest)

-- A map grows only by a new key.
pub length-add_to :
    (h d : ℕ) (m : Counts)
    → length (add_to h d m) ≡ (if has_key h m then length m else suc (length m))
unfolding add_to has_key
length-add_to h d [] = refl
length-add_to h d ((k, n) ∷ rest) = ground (arith, length-add_to h d rest)

-- An association list that is a map: no key twice.
abbrev pub IsMap : Counts → Type 0
IsMap [] = Unit
IsMap ((k, n) ∷ rest) = (has_key k rest ≡ false) × IsMap rest

has_key-add_to : (h d g : ℕ) (m : Counts) → has_key g (add_to h d m) ≡ (has_key g m || h == g)
unfolding has_key add_to
has_key-add_to h d g [] = ground arith
has_key-add_to h d g ((k, n) ∷ rest) = ground (arith, has_key-add_to h d g rest)

pub add_to-IsMap : (h d : ℕ) (m : Counts) → IsMap m → IsMap (add_to h d m)
unfolding add_to
add_to-IsMap h d [] i = (unfold has_key in refl, tt)
add_to-IsMap h d ((k, n) ∷ rest) i = elim (Bool-cases (k == h)) [
  | inl e ↦ rw e i
  | inr e ↦ rw e (rw has_key-add_to (ground (arith, i)), add_to-IsMap h d rest i.1)
]

-- The sum of the entries of a key, which in a map is its value.
unfoldable pub total_of : ℕ → Counts → ℕ
total_of h [] = 0
total_of h ((k, n) ∷ rest) = let others = total_of h rest in if k == h then n + others else others

no_key_total : (h : ℕ) (m : Counts) → has_key h m ≡ false → total_of h m ≡ 0
unfolding has_key total_of
no_key_total h [] e = refl
no_key_total h ((k, n) ∷ rest) e = ground (arith, no_key_total h rest)

pub total_of-IsMap : (h : ℕ) (m : Counts) → IsMap m → total_of h m ≡ count_of h m
unfolding total_of count_of
total_of-IsMap h [] i = refl
total_of-IsMap h ((k, n) ∷ rest) i = elim (Bool-cases (k == h)) [
  | inr e ↦ rw e (total_of-IsMap h rest i.1)
  | inl e ↦ let q : k ≡ h = ground arith in rw e (omega (arith, no_key_total h rest (rw q at i.0)))
]

-- for h, n := range b { m[h] += n }
unfoldable pub merge_counts : Counts → Counts → Counts
merge_counts m [] = m
merge_counts m ((k, n) ∷ rest) = merge_counts (add_to k n m) rest

pub count_of-merge_counts :
    (h : ℕ) (m b : Counts) → count_of h (merge_counts m b) ≡ count_of h m + total_of h b
unfolding merge_counts total_of
count_of-merge_counts h m [] = omega arith
count_of-merge_counts h m ((k, n) ∷ rest) =
    ground (arith, count_of-merge_counts h (add_to k n m) rest, count_of-add_to k n h m)

pub length-merge_counts : (m b : Counts) → length (merge_counts m b) ≤ length m + length b
unfolding merge_counts
length-merge_counts m [] = omega arith
length-merge_counts m ((k, n) ∷ rest) =
    ground (arith, length-merge_counts (add_to k n m) rest, length-add_to k n m)

pub length_of_count : (h : ℕ) (m : Counts) → 0 < count_of h m → 0 < length m
unfolding count_of
length_of_count h [] e = e
length_of_count h ((k, n) ∷ rest) e = omega arith
