-- ===== src/LogBuffer/Recent.antt =====
-- The ring as a bounded list (internal/logbuffer/buffer.go): an added entry stands in front of the
-- entries that the ring held, of which the newest stay.
use native.Mathlib.Nat.{mod-lt, mod-eq_of_lt, add-mod_right}
use o_rabbit.Prelude.{
  ℕ, ◌+◌, ◌-◌, ◌%◌, ◌<◌, ◌≤◌, zero, suc, ◌≡◌, ◌≢◌, refl, sym, ◌∙◌, ap, Bool, true, false, List, [],
  ◌∷◌, arith, ◌==◌, ◌⊎◌, length, leb, leb→le, if◌then◌else◌, Bool-cases, inl, inr,
}
use o_rabbit.LogBuffer.Ring.{Entry, Buffer, entry_at, put_at, with_seq, add}
use o_rabbit.LogBuffer.Query.{newest_at, size_of, cut}

-- The entries that a query visits, from the i-th newest on.
unfoldable pub visit : Buffer → (i rounds : ℕ) → List Entry
unfolding entry_at
visit b i zero = []
visit b i (suc n) = entry_at (newest_at b i) b.entries ∷ visit b (i + 1) n

-- The entries of the ring, newest first.
abbrev pub recent : Buffer → List Entry
recent b = visit b 0 (size_of b)

-- The ring is not empty, and is written within it.
pub record IsRing (b : Buffer) : Type 0 where
  pub within : b.next < length b.entries

pub length-put_at : (i : ℕ) (e : Entry) (xs : List Entry) → length (put_at i e xs) ≡ length xs
unfolding put_at
length-put_at i e [] = refl
length-put_at i e (x ∷ xs) = ground (arith, length-put_at (i - 1) e xs)

entry_at-put_at :
    (i : ℕ) (e : Entry) (xs : List Entry) → i < length xs → entry_at i (put_at i e xs) ≡ e
unfolding put_at entry_at
entry_at-put_at i e [] h = absurd (omega arith)
entry_at-put_at i e (x ∷ xs) h = ground (arith, entry_at-put_at (i - 1) e xs)

entry_at-put_at_other :
    (i j : ℕ) (e : Entry) (xs : List Entry) → i ≢ j → entry_at i (put_at j e xs) ≡ entry_at i xs
unfolding put_at entry_at
entry_at-put_at_other i j e [] h = refl
entry_at-put_at_other i j e (x ∷ xs) h = ground (arith, entry_at-put_at_other (i - 1) (j - 1) e xs)

-- A number below twice the modulus is reduced by one subtraction.
mod_once : (n m : ℕ) → n < m + m → (n < m) × (n % m ≡ n) ⊎ (m ≤ n) × (n % m ≡ n - m)
mod_once n m h = elim (Bool-cases (leb m n)) [
  | inl e ↦
      let k = n - m in
      let le = leb→le m n e in
      let small = mod-eq_of_lt {n = k} {m = m} (omega arith) in
      let shifted = add-mod_right k m in
      let split : k + m ≡ n = omega arith in inr (le, ap (λ x. x % m) (sym split) ∙ shifted ∙ small)
  | inr e ↦ let lt : n < m = ground arith in inl (lt, mod-eq_of_lt lt)
]

module _ (next cap : ℕ) (h : next < cap) where
  after_one :
      ((next + 1 < cap) × ((next + 1) % cap ≡ next + 1))
      ⊎ ((next + 1 ≡ cap) × ((next + 1) % cap ≡ 0))
  after_one = elim (mod_once (next + 1) cap (omega arith)) [
    | inl (lt, e) ↦ inl (lt, e)
    | inr (le, e) ↦ inr (omega arith, e ∙ omega arith)
  ]

  newest_is_next : ((next + 1) % cap + cap - (1 + 0)) % cap ≡ next
  newest_is_next = elim after_one [
    | inl (lt, e) ↦ rw e (elim (mod_once (next + 1 + cap - (1 + 0)) cap (omega arith)) [
      | inl (lt', _) ↦ absurd (omega arith)
      | inr (_, e') ↦ e' ∙ omega arith
    ])
    | inr (q, e) ↦ rw e (elim (mod_once (0 + cap - (1 + 0)) cap (omega arith)) [
      | inl (_, e') ↦ e' ∙ omega arith
      | inr (le', _) ↦ absurd (omega arith)
    ])
  ]

  older_moves :
      (i : ℕ)
      → i + 1 < cap
      → ((next + 1) % cap + cap - (1 + (i + 1))) % cap ≡ (next + cap - (1 + i)) % cap
  older_moves i k = elim after_one [
    | inl (lt, e) ↦ rw e (ap (λ x. x % cap) (omega arith))
    | inr (q, e) ↦ rw e (
        let start : next + cap - (1 + i) ≡ (cap - (2 + i)) + cap = omega arith in
        let there : 0 + cap - (1 + (i + 1)) ≡ cap - (2 + i) = omega arith in
        rw (start, there) (sym (add-mod_right (cap - (2 + i)) cap)))
  ]

  older_is_elsewhere : (i : ℕ) → i + 1 < cap → (next + cap - (1 + i)) % cap ≢ next
  older_is_elsewhere i k q = elim (mod_once (next + cap - (1 + i)) cap (omega arith)) [
    | inl (lt, e) ↦ absurd (omega arith)
    | inr (le, e) ↦ absurd (omega arith)
  ]

-- The entries that were there before are visited one round later.
visit-add :
    (e : Entry) (b : Buffer) (i n : ℕ)
    → b.next < length b.entries
    → i + n < length b.entries
    → visit (add e b) (i + 1) n ≡ visit b i n
unfolding visit add
visit-add e b i zero h k = refl
visit-add e b i (suc n) h k =
    let cap = length b.entries in
    let same = length-put_at b.next (with_seq (b.seq + 1) e) b.entries in
    let moved = older_moves b.next cap h i (omega arith) in
    let kept =
      entry_at-put_at_other (newest_at b i) b.next (with_seq (b.seq + 1) e) b.entries
        (older_is_elsewhere b.next cap h i (omega arith)) in
    rw (same, moved, kept)
      (ap (λ rest. entry_at (newest_at b i) b.entries ∷ rest)
        (visit-add e b (i + 1) n h (omega arith)))

nonzero : (n : ℕ) → (suc n == 0) ≡ false
nonzero n = ground arith

-- The newest of the visited entries.
cut-visit : (b : Buffer) (i m n : ℕ) → m ≤ n → cut m (visit b i n) ≡ visit b i m
unfolding cut visit
cut-visit b i zero zero h = refl
cut-visit b i zero (suc n) h = refl
cut-visit b i (suc m) zero h = absurd (omega arith)
cut-visit b i (suc m) (suc n) h = rw (nonzero m) (
    ap (λ rest. entry_at (newest_at b i) b.entries ∷ rest)
      (ap (λ k. cut k (visit b (i + 1) n)) (omega arith) ∙ cut-visit b (i + 1) m n (omega arith)))

visit-first :
    (e : Entry) (b : Buffer) (n : ℕ)
    → b.next < length b.entries
    → suc n ≤ length b.entries
    → visit (add e b) 0 (suc n) ≡ with_seq (b.seq + 1) e ∷ visit b 0 n
unfolding visit add
visit-first e b n h k =
    let same = length-put_at b.next (with_seq (b.seq + 1) e) b.entries in
    let first = newest_is_next b.next (length b.entries) h in
    let found = entry_at-put_at b.next (with_seq (b.seq + 1) e) b.entries h in
    let others = visit-add e b 0 n h (omega arith) in
    rw (same, first, found) (ap (λ rest. with_seq (b.seq + 1) e ∷ rest) others)

pub cut-cons : (m : ℕ) (x : Entry) (xs : List Entry) → 0 < m → cut m (x ∷ xs) ≡ x ∷ cut (m - 1) xs
unfolding cut
cut-cons m x xs h = ground arith

pub cut_all : (m : ℕ) (xs : List Entry) → length xs ≤ m → cut m xs ≡ xs
unfolding cut
cut_all m [] h = refl
cut_all m (x ∷ xs) h = ground (arith, cut_all (m - 1) xs)

length-visit : (b : Buffer) (i n : ℕ) → length (visit b i n) ≡ n
unfolding visit
length-visit b i zero = refl
length-visit b i (suc n) = omega (arith, length-visit b (i + 1) n)

pub add-IsRing : (e : Entry) (b : Buffer) → IsRing b → IsRing (add e b)
unfolding add
add-IsRing e b r = record {
  within =
      let same = length-put_at b.next (with_seq (b.seq + 1) e) b.entries in
      let lt = mod-lt (b.next + 1) {m = length b.entries} (omega (arith, r.within)) in
      omega (arith, same, lt);
}

size_of-add :
    (e : Entry) (b : Buffer)
    → IsRing b
    → (size_of b < length b.entries) × (size_of (add e b) ≡ suc (size_of b))
      ⊎ (size_of b ≡ length b.entries) × (size_of (add e b) ≡ size_of b)
unfolding add
size_of-add e b r =
    let same = length-put_at b.next (with_seq (b.seq + 1) e) b.entries in
    elim (Bool-cases b.full) [
      | inl full ↦ rw full (inr (refl, if_same ((b.next + 1) % length b.entries == 0) _ same))
      | inr free ↦ elim (after_one b.next (length b.entries) r.within) [
        | inl (lt, q) ↦ rw (free, q) (inl (r.within, rw (zero_test b.next) (omega arith)))
        | inr (wraps, q) ↦ rw (free, q) (inl (r.within, omega (arith, same, wraps)))
      ]
    ]
  where
    zero_test : (n : ℕ) → (n + 1 == 0) ≡ false
    zero_test n = ground arith

    if_same :
        (t : Bool) {n m : ℕ} (k : ℕ) → n ≡ m → (if (if t then true else true) then n else k) ≡ m
    if_same true k q = q
    if_same false k q = q

-- An added entry stands in front, and the ring keeps the newest entries up to its capacity.
pub recent-add :
    (e : Entry) (b : Buffer)
    → IsRing b
    → recent (add e b) ≡ cut (length b.entries) (with_seq (b.seq + 1) e ∷ recent b)
recent-add e b r =
    let cap = length b.entries in
    let x = with_seq (b.seq + 1) e in
    let front = cut-cons cap x (recent b) (omega (arith, r.within)) in
    elim (size_of-add e b r) [
      | inl (room, q) ↦
          let kept =
            cut_all (cap - 1) (recent b) (omega (arith, length-visit b 0 (size_of b), room)) in
          ap (visit (add e b) 0) q
          ∙ visit-first e b (size_of b) r.within room
          ∙ ap (λ rest. x ∷ rest) (sym kept)
          ∙ sym front
      | inr (all, q) ↦
          let most : suc (cap - 1) ≡ cap = omega (arith, r.within) in
          ap (visit (add e b) 0) (q ∙ all ∙ sym most)
          ∙ visit-first e b (cap - 1) r.within (omega (arith, most))
          ∙ ap (λ rest. x ∷ rest) (sym (cut-visit b 0 (cap - 1) (size_of b) (omega (arith, all))))
          ∙ sym front
    ]
