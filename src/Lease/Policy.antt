-- ===== src/Lease/Policy.antt =====
-- LeasePolicy and the retry backoff (internal/db/attempts.go). A Duration is an int64 number of
-- nanoseconds: computed ones are 64-bit patterns, read as negative from 2 ^ 63 on.
use native.Mathlib.Nat.{pow-suc, pow-succ', mul_assoc}
use o_rabbit.Prelude.{
  ℕ, ℤ, zero, suc, ◌+◌, ◌-◌, ◌*◌, ◌%◌, ◌^◌, ◌<◌, ◌≤◌, min, positive_or, pos_part, Bool, true, ◌&&◌,
  ◌≡◌, refl, arith, ltb, leb, leb→le, Bool-cases, inl, inr, ◌==◌, if◌then◌else◌,
}

pub record LeasePolicy : Type 0 where
  pub duration : ℤ
  pub max_attempts : ℤ
  pub max_active_tasks : ℤ
  pub backoff_base : ℤ
  pub backoff_max : ℤ

-- A policy after `normalized`. A non-positive max_active_tasks disables its limit, and is 0 here.
pub record NormalPolicy : Type 0 where
  pub duration : ℕ
  pub max_attempts : ℕ
  pub max_active_tasks : ℕ
  pub backoff_base : ℕ
  pub backoff_max : ℕ

abbrev pub second : ℕ
second = 1000000000

abbrev pub default_lease : ℕ
default_lease = 30000000000

unfoldable pub normalized : LeasePolicy → NormalPolicy
normalized p = record {
  duration = positive_or p.duration default_lease;
  max_attempts = positive_or p.max_attempts 3;
  max_active_tasks = pos_part p.max_active_tasks;
  backoff_base = positive_or p.backoff_base second;
  backoff_max = positive_or p.backoff_max 30000000000;
}

-- d *= 2 on int64
abbrev pub double64 : ℕ → ℕ
double64 d = d * 2 % 18446744073709551616

-- a <= b on int64, where a is not negative
abbrev pub le64 : ℕ → ℕ → Bool
le64 a b = ltb b 9223372036854775808 && leb a b

-- now.Add(d)
abbrev pub add_duration : ℕ → ℕ → ℕ
add_duration now d = if ltb d 9223372036854775808 then now + d else now - (18446744073709551616 - d)

-- The loop of retryBackoff with its remaining rounds.
unfoldable pub backoff_loop : ℕ → ℕ → ℕ → ℕ
backoff_loop zero d max = d
backoff_loop (suc rounds) d max =
    let d' = double64 d in
    let rest = backoff_loop rounds d' max in if le64 max d' then max else rest

unfoldable pub retry_backoff : NormalPolicy → ℕ → ℕ
unfolding backoff_loop
retry_backoff p attempt = backoff_loop (attempt - 1) p.backoff_base p.backoff_max

pow_pos : (n : ℕ) → 1 ≤ 2 ^ n
pow_pos zero = omega arith
pow_pos (suc n) = rw pow-suc (omega (arith, pow_pos n))

le-mul_of_pos : (a p : ℕ) → 1 ≤ p → a ≤ a * p
le-mul_of_pos a p h = grind arith

backoff_loop-suc :
    (rounds d max : ℕ)
    → d < 4611686018427387904
    → backoff_loop (suc rounds) d max
      ≡ (if leb max (d * 2) then max else backoff_loop rounds (d * 2) max)
unfolding backoff_loop
backoff_loop-suc rounds d max h =
    let e : double64 d ≡ d * 2 = omega arith in rw e (rw (small (d * 2) (omega arith)))
  where
    small : (n : ℕ) → n < 9223372036854775808 → ltb n 9223372036854775808 ≡ true
    small n h = ground arith

backoff_loop-min :
    (rounds d max : ℕ)
    → d < 4611686018427387904
    → max ≤ 4611686018427387904
    → backoff_loop (suc rounds) d max ≡ min (d * 2 ^ suc rounds) max
backoff_loop-min zero d max hd hm =
    rw (backoff_loop-suc zero d max hd) (unfold backoff_loop in ground arith)
backoff_loop-min (suc rounds) d max hd hm =
    rw (backoff_loop-suc (suc rounds) d max hd) (elim (Bool-cases (leb max (d * 2))) [
      | inl e ↦ rw e (at_max (leb→le max (d * 2) e))
      | inr e ↦ rw e (rw (backoff_loop-min rounds (d * 2) max (ground arith) hm) (below))
    ])
  where
    at_max : max ≤ d * 2 → max ≡ min (d * 2 ^ suc (suc rounds)) max
    at_max h = rw pow-succ' (
        rw (← mul_assoc)
          (omega (arith, le-mul_of_pos (d * 2) (2 ^ suc rounds) (pow_pos (suc rounds)))))

    below : min (d * 2 * 2 ^ suc rounds) max ≡ min (d * 2 ^ suc (suc rounds)) max
    below = rw (mul_assoc, ← pow-succ')

-- For a base below 2 ^ 62 ns and a maximum of at most 2 ^ 62 ns, the delay after attempt k + 1 is, for
-- k > 0, the base doubled k times and cut at the maximum. After the first attempt it is the base,
-- uncut even where the base is above the maximum.
pub retry_backoff_lem :
    (p : NormalPolicy) (k : ℕ)
    → p.backoff_base < 4611686018427387904
    → p.backoff_max ≤ 4611686018427387904
    → retry_backoff p (suc k)
      ≡ (if k == 0 then p.backoff_base else min (p.backoff_base * 2 ^ k) p.backoff_max)
unfolding retry_backoff
retry_backoff_lem p zero hb hm = unfold backoff_loop in refl
retry_backoff_lem p (suc k) hb hm =
    let e : suc (suc k) - 1 ≡ suc k = omega arith in
    rw e (ground (arith, backoff_loop-min k p.backoff_base p.backoff_max hb hm))
