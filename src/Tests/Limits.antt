-- ===== src/Tests/Limits.antt =====
-- A limiter of at most two keys, with buckets of one token that is not refilled.
use o_rabbit.Prelude.{
  ℕ, pos, ◌≡◌, ◌≤◌, refl, true, List, [], ◌∷◌, ltb, ◌==◌, length, arith, ◌-◌, suc,
}
use o_rabbit.Table.{find_where, select_where, update_where}
use o_rabbit.RateLimit.Limiter.{Buckets, new_limiter, allow}
use o_rabbit.RateLimit.Bounded.{allow_all, allow_all-within}

-- A number of tokens is written as one more, and 0 is -Inf.
abbrev single : Buckets ℕ ℕ
single = record {
  fresh = 1;
  tokens_at = λ b now. suc b;
  take_one = λ b now. b - 1;
  is_below_one = λ t. ltb t 2;
  is_full = λ t. t == 2;
  is_more = λ a b. ltb b a;
  lowest = 0;
  retry_after = λ t. 1000000000;
}

abbrev events : List (ℕ × ℕ)
events = (1, 10) ∷ (2, 11) ∷ (3, 12) ∷ (1, 13) ∷ []

-- The third key evicts the first, whose bucket is then full again.
first_allowed_again :
    (allow single 1 13
      (allow_all single ((1, 10) ∷ (2, 11) ∷ (3, 12) ∷ []) (new_limiter (pos 2)))).0
    ≡ (true, 0)
unfolding allow new_limiter find_where select_where update_where
first_allowed_again = refl

allow_all-within_example : length (allow_all single events (new_limiter (pos 2))).buckets ≤ 2
allow_all-within_example = allow_all-within single (λ b now. ground arith) (pos 2) events
