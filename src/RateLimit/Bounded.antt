-- ===== src/RateLimit/Bounded.antt =====
-- The memory of a limiter is bounded (internal/ratelimit/limiter.go).
use o_rabbit.Prelude.{
  ℕ, ◌<◌, ◌≤◌, ℤ, is_positive, pos_part, ◌≡◌, refl, sym, ◌∙◌, Bool, true, false, not, Option, none,
  some, List, [], ◌∷◌, ◌++◌, arith, leb, leb→le, ◌==◌, length, length-append, if_both,
  if◌then◌else◌, ◌||◌,
}
use o_rabbit.Table.{find_where, any_where, select_where, update_where}
use o_rabbit.RateLimit.Limiter.{
  Buckets, Limiter, new_limiter, is_spent, fullest, evict, bucket_for, allow,
}

length-select_where {ℓ} :
    {A : Type ℓ} (p : A → Bool) (xs : List A) → length (select_where p xs) ≤ length xs
unfolding select_where
length-select_where p [] = omega arith
length-select_where p (x ∷ xs) = ground (arith, length-select_where p xs)

length-update_where {ℓ} :
    {A : Type ℓ} (p : A → Bool) (f : A → A) (xs : List A) → length (update_where p f xs) ≡ length xs
unfolding update_where
length-update_where p f [] = refl
length-update_where p f (x ∷ xs) = omega (arith, length-update_where p f xs)

-- Deleting a key that is there removes a row.
delete_shrinks {ℓ} :
    {A : Type ℓ} (key : ℕ) (xs : List (ℕ × A))
    → any_where (λ kb. kb.0 == key) xs ≡ true
    → length (select_where (λ kb. not (kb.0 == key)) xs) < length xs
unfolding select_where any_where
delete_shrinks key [] h = cc
delete_shrinks key (x ∷ xs) h =
    ground (arith, length-select_where (λ kb. not (kb.0 == key)) xs, delete_shrinks key xs)

limit_positive : (k : ℤ) → 0 < (if is_positive k then pos_part k else 10000)
limit_positive k = ground arith

or_right : (a b : Bool) → b ≡ true → (a || b) ≡ true
or_right true b h = refl
or_right false b h = h

or_skip : (a b c : Bool) → (a || c) ≡ true → (a || (b || c)) ≡ true
or_skip true b c h = refl
or_skip false b c h = or_right b c h

module _ {Bucket Tokens : Type 0} (rate : Buckets Bucket Tokens) where
  -- The fullest bucket is one of the rows, or the one that was found before.
  fullest-key :
      (now : ℕ) (best : ℕ × Tokens) (xs : List (ℕ × Bucket))
      → (best.0 == (fullest rate now best xs).0
          || any_where (λ kb. kb.0 == (fullest rate now best xs).0) xs)
        ≡ true
  unfolding fullest any_where
  fullest-key now best [] = ground arith
  fullest-key now best (kb ∷ rest) =
      if_both {A = ℕ × Tokens}
        (λ r. (best.0 == r.0 || (kb.0 == r.0 || any_where (λ x. x.0 == r.0) rest)) ≡ true)
        (rate.is_more (rate.tokens_at kb.1 now) best.1) _ _
        (λ _. or_right _ _ (fullest-key now (kb.0, rate.tokens_at kb.1 now) rest))
        (λ _.
          let r = fullest rate now best rest in
          or_skip (best.0 == r.0) (kb.0 == r.0) (any_where (λ x. x.0 == r.0) rest)
            (fullest-key now best rest))

  allow-max_keys :
      (key now : ℕ) (l : Limiter Bucket) → (allow rate key now l).1.max_keys ≡ l.max_keys
  unfolding allow
  allow-max_keys key now l =
      let o = bucket_for rate key now l in
      if_both {A = (Bool × ℕ) × Limiter Bucket} (λ r. r.1.max_keys ≡ l.max_keys)
        (rate.is_below_one (rate.tokens_at o.0 now)) _ _ (λ _. refl) (λ _. refl)

  -- The limiter after events, each a key and a time.
  abbrev pub allow_all : List (ℕ × ℕ) → Limiter Bucket → Limiter Bucket
  allow_all [] l = l
  allow_all (event ∷ events) l = allow_all events (allow rate event.0 event.1 l).1

  module _
      (above : (b : Bucket) (now : ℕ)
        → rate.is_more (rate.tokens_at b now) rate.lowest ≡ true) where
    fullest-found :
        (now : ℕ) (x : ℕ × Bucket) (rest : List (ℕ × Bucket))
        → any_where (λ kb. kb.0 == (fullest rate now (0, rate.lowest) (x ∷ rest)).0) (x ∷ rest)
          ≡ true
    unfolding fullest any_where
    fullest-found now x rest =
        if_both {A = ℕ × Tokens} (λ r. any_where (λ kb. kb.0 == r.0) (x ∷ rest) ≡ true)
          (rate.is_more (rate.tokens_at x.1 now) rate.lowest) _ _
          (λ _. fullest-key now (x.0, rate.tokens_at x.1 now) rest)
          (λ never. cc (sym (above x.1 now) ∙ never))

    evict-shrinks :
        (now max_keys : ℕ) (xs : List (ℕ × Bucket))
        → 0 < max_keys
        → length xs ≤ max_keys
        → length (evict rate now max_keys xs) < max_keys
    unfolding evict
    evict-shrinks now max_keys xs positive h =
        if_both {A = List (ℕ × Bucket)} (λ ys. length ys < max_keys) (leb max_keys (length left)) _
          _ (λ many. deleted left (omega (arith, short)) (omega (arith, leb→le _ _ many)))
          (λ few. below few)
      where
        left : List (ℕ × Bucket)
        left = select_where (is_spent rate now) xs

        short : length left ≤ length xs
        short = length-select_where (is_spent rate now) xs

        below : leb max_keys (length left) ≡ false → length left < max_keys
        below few = ground arith

        deleted :
            (ys : List (ℕ × Bucket))
            → length ys ≤ max_keys
            → max_keys ≤ length ys
            → length
                (select_where (λ kb. not (kb.0 == (fullest rate now (0, rate.lowest) ys).0)) ys)
              < max_keys
        deleted [] le ge = absurd (omega (arith, positive))
        deleted (y ∷ ys) le ge =
            let less =
              delete_shrinks (fullest rate now (0, rate.lowest) (y ∷ ys)).0 (y ∷ ys)
                (fullest-found now y ys) in
            omega (arith, less, le)

    bucket_for-within :
        (key now : ℕ) (l : Limiter Bucket)
        → 0 < l.max_keys
        → length l.buckets ≤ l.max_keys
        → length (bucket_for rate key now l).1 ≤ l.max_keys
    unfolding bucket_for
    bucket_for-within key now l positive h = by_row (find_where (λ kb. kb.0 == key) l.buckets)
      where
        room : List (ℕ × Bucket)
        room =
            if leb l.max_keys (length l.buckets)
            then evict rate now l.max_keys l.buckets
            else l.buckets

        below : leb l.max_keys (length l.buckets) ≡ false → length l.buckets < l.max_keys
        below few = ground arith

        has_room : length room < l.max_keys
        has_room =
            if_both {A = List (ℕ × Bucket)} (λ ys. length ys < l.max_keys)
              (leb l.max_keys (length l.buckets)) _ _
              (λ _. evict-shrinks now l.max_keys l.buckets positive h) (λ few. below few)

        by_row :
            (o : Option (ℕ × Bucket))
            → length (
                (elim o as (λ _. Bucket × List (ℕ × Bucket)) [
                  | some kb ↦ (kb.1, l.buckets)
                  | none ↦ (rate.fresh, room ++ (key, rate.fresh) ∷ [])
                ]).1)
              ≤ l.max_keys
        by_row (some kb) = h
        by_row none = omega (arith, has_room, length-append room ((key, rate.fresh) ∷ []))

    allow-within :
        (key now : ℕ) (l : Limiter Bucket)
        → 0 < l.max_keys
        → length l.buckets ≤ l.max_keys
        → length (allow rate key now l).1.buckets ≤ l.max_keys
    unfolding allow
    allow-within key now l positive h =
        let k = bucket_for-within key now l positive h in
        let o = bucket_for rate key now l in
        let tokens = rate.tokens_at o.0 now in
        if_both {A = (Bool × ℕ) × Limiter Bucket} (λ r. length r.1.buckets ≤ l.max_keys)
          (rate.is_below_one tokens) _ _ (λ _. k)
          (λ _. omega (
            arith,
            k,
            length-update_where (λ kb. kb.0 == key)
                (λ (kb : ℕ × Bucket). (kb.0, rate.take_one kb.1 now)) o.1,
          ))

    allow_all-keeps :
        (events : List (ℕ × ℕ)) (l : Limiter Bucket)
        → 0 < l.max_keys
        → length l.buckets ≤ l.max_keys
        → (length (allow_all events l).buckets ≤ l.max_keys)
          × ((allow_all events l).max_keys ≡ l.max_keys)
    allow_all-keeps [] l positive h = (h, refl)
    allow_all-keeps (event ∷ events) l positive h =
        let l' = (allow rate event.0 event.1 l).1 in
        let same = allow-max_keys event.0 event.1 l in
        let k = allow-within event.0 event.1 l positive h in
        let (le, e) =
          allow_all-keeps events l' (omega (arith, same, positive)) (omega (arith, same, k)) in
        (omega (arith, le, same), e ∙ same)

    -- Whatever events a new limiter is asked about, at whatever times, it never tracks more keys than
    -- its maximum, which is 10000 where none is given. The tokens of a bucket are more than -Inf.
    pub allow_all-within :
        (max_keys : ℤ) (events : List (ℕ × ℕ))
        → length (allow_all events (new_limiter max_keys)).buckets
          ≤ (if is_positive max_keys then pos_part max_keys else 10000)
    unfolding new_limiter
    allow_all-within max_keys events =
        let (k, e) =
          allow_all-keeps events (new_limiter max_keys) (limit_positive max_keys) (omega arith) in
        omega (arith, k, e)
