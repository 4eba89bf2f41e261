-- ===== src/RateLimit/Limiter.antt =====
-- The limiter (internal/ratelimit/limiter.go): one token bucket for each key, and a bound on the keys.
-- Buckets are golang.org/x/time/rate and their tokens are float64, a parameter. The map of buckets is
-- a list, in the order in which a loop over the map visits it. Keys are numbers, and 0 is "".
use o_rabbit.Prelude.{
  ℕ, ℤ, is_positive, pos_part, Bool, true, false, not, none, some, List, [], ◌∷◌, ◌++◌, leb, ◌==◌,
  length, if◌then◌else◌,
}
use o_rabbit.Table.{find_where, select_where, update_where}

-- A policy's buckets: rate.NewLimiter, TokensAt and AllowN(now, 1), and the tests on tokens.
pub record Buckets (Bucket Tokens : Type 0) : Type 0 where
  pub fresh : Bucket
  pub tokens_at : Bucket → ℕ → Tokens
  pub take_one : Bucket → ℕ → Bucket
  pub is_below_one : Tokens → Bool
  pub is_full : Tokens → Bool
  pub is_more : Tokens → Tokens → Bool
  pub lowest : Tokens
  pub retry_after : Tokens → ℕ

pub record Limiter (Bucket : Type 0) : Type 0 where
  pub max_keys : ℕ
  pub buckets : List (ℕ × Bucket)

abbrev pub default_max_keys : ℕ
default_max_keys = 10000

-- New, for an enabled policy
unfoldable pub new_limiter : {Bucket : Type 0} → (max_keys : ℤ) → Limiter Bucket
new_limiter max_keys = record {
  max_keys = if is_positive max_keys then pos_part max_keys else default_max_keys;
  buckets = [];
}

module _ {Bucket Tokens : Type 0} (rate : Buckets Bucket Tokens) where
  abbrev pub is_spent : ℕ → ℕ × Bucket → Bool
  is_spent now kb = not (rate.is_full (rate.tokens_at kb.1 now))

  -- The fullest of the buckets that stay, from the one that was found before.
  unfoldable pub fullest : ℕ → ℕ × Tokens → List (ℕ × Bucket) → ℕ × Tokens
  fullest now best [] = best
  fullest now best (kb ∷ rest) =
      let other = fullest now (kb.0, rate.tokens_at kb.1 now) rest in
      let same = fullest now best rest in
      if rate.is_more (rate.tokens_at kb.1 now) best.1 then other else same

  unfoldable pub evict : ℕ → (max_keys : ℕ) → List (ℕ × Bucket) → List (ℕ × Bucket)
  unfolding fullest
  evict now max_keys buckets =
      let left = select_where (is_spent now) buckets in
      let key = (fullest now (0, rate.lowest) left).0 in
      if leb max_keys (length left) then select_where (λ kb. not (kb.0 == key)) left else left

  -- bucket: the key's bucket, and the buckets with it
  unfoldable pub bucket_for : (key now : ℕ) → Limiter Bucket → Bucket × List (ℕ × Bucket)
  unfolding evict
  bucket_for key now l = elim (find_where (λ kb. kb.0 == key) l.buckets) [
    | some kb ↦ (kb.1, l.buckets)
    | none ↦ (
      rate.fresh,
      (if leb l.max_keys (length l.buckets) then evict now l.max_keys l.buckets else l.buckets)
          ++ (key, rate.fresh) ∷ [],
    )
  ]

  -- Allow, for a limiter that is not nil: whether the event is allowed, and how long to wait
  unfoldable pub allow : (key now : ℕ) → Limiter Bucket → (Bool × ℕ) × Limiter Bucket
  unfolding bucket_for
  allow key now l =
      let (b, buckets) = bucket_for key now l in
      let tokens = rate.tokens_at b now in
      if rate.is_below_one tokens
      then ((false, rate.retry_after tokens), record l { buckets = buckets })
      else (
        (true, 0),
        record l {
          buckets = update_where (λ kb. kb.0 == key) (λ kb. (kb.0, rate.take_one kb.1 now)) buckets;
        },
      )

  -- Exhausted, for a limiter that is not nil
  unfoldable pub exhausted : (key now : ℕ) → Limiter Bucket → Bool × ℕ
  exhausted key now l = elim (find_where (λ kb. kb.0 == key) l.buckets) [
    | none ↦ (false, 0)
    | some kb ↦
        let tokens = rate.tokens_at kb.1 now in
        if rate.is_below_one tokens then (true, rate.retry_after tokens) else (false, 0)
  ]
