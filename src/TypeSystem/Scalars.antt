-- ===== src/TypeSystem/Scalars.antt =====
-- The parsers of the types without parts leave at most their text (internal/typesystem/parser.go).
use o_rabbit.Prelude.{
  ℕ, ℤ, ◌<◌, ◌≤◌, not, Option, none, some, List, [], ◌∷◌, arith, ◌==◌, length, if_both,
  if◌then◌else◌,
}
use o_rabbit.TypeSystem.{LogicalType, decimal_of}
use o_rabbit.TypeSystem.Bytes.{Text, same_text, skip_space, span, trim}
use o_rabbit.TypeSystem.Validate.{is_valid}
use o_rabbit.TypeSystem.Parse.Result.{Parsed, failed, bind, Parser}
use o_rabbit.TypeSystem.Parse.Lexical.{expect, peek, int32, is_int32_text, parenthesized}
use o_rabbit.TypeSystem.Parse.Types.{
  zone, zoned, parse_decimal, parse_timestamp_tz, split_arguments, quoted_text, timestamp_arguments,
  parse_legacy_timestamp, parse_time64,
}
use o_rabbit.TypeSystem.Fuel.{
  Answers, Leaves, bind-Answers, then-Leaves, then-Spends, length-skip_space, length-span,
  expect-Spends, int32-Leaves, parenthesized-Leaves,
}

-- A single byte after spaces.
pub token-Leaves :
    {B : Type 0} (b n : ℕ) (s : Text) (k : (Unit {0}) × Text → Parsed (B × Text))
    → length s ≤ n
    → ((r : Text) → length r < n → Leaves n (k (tt, r)))
    → Leaves n (bind (expect b (skip_space s)) k)
token-Leaves b n s k h next =
    let e = length-skip_space s in
    then-Spends (length (skip_space s)) n (expect b (skip_space s)) k
      (expect-Spends b (skip_space s)) (λ _ r lt. next r (omega arith))

pub number-Leaves :
    {B : Type 0} (n : ℕ) (s : Text) (k : ℤ × Text → Parsed (B × Text))
    → length s ≤ n
    → ((z : ℤ) (r : Text) → length r ≤ n → Leaves n (k (z, r)))
    → Leaves n (bind (int32 s) k)
number-Leaves n s k h next =
    then-Leaves (length s) n (int32 s) k (int32-Leaves s) (λ z r le. next z r (omega arith))

pub parse_decimal-Leaves : (s : Text) → Leaves (length s) (parse_decimal s)
unfolding parse_decimal
parse_decimal-Leaves s = token-Leaves b'(' (length s) s _ (omega arith) λ r₁ h₁.
    number-Leaves (length s) r₁ _ (omega arith) λ p r₂ h₂.
      token-Leaves b',' (length s) r₂ _ h₂ λ r₃ h₃.
        number-Leaves (length s) r₃ _ (omega arith) λ q r₄ h₄.
          token-Leaves b')' (length s) r₄ _ h₄ λ r₅ h₅.
            if_both {A = Parser LogicalType} (λ p. Leaves (length s) (p r₅))
              (is_valid (decimal_of p q)) _ _ (λ _. omega arith) (λ _. tt)

pub parse_timestamp_tz-Leaves : (s : Text) → Leaves (length s) (parse_timestamp_tz s)
unfolding parse_timestamp_tz zone
parse_timestamp_tz-Leaves s = zoned-Leaves (skip_space s) (length-skip_space s)
  where
    zone-Leaves : (o : Text × Text) → length o.1 ≤ length s → Leaves (length s) (zone o)
    zone-Leaves (text, []) h = tt
    zone-Leaves (text, _ ∷ rest) h =
        if_both (Leaves (length s)) (same_text (trim text) []) _ _ (λ _. tt) (λ _. omega arith)

    zoned-Leaves : (r : Text) → length r ≤ length s → Leaves (length s) (zoned r)
    zoned-Leaves [] h = omega arith
    zoned-Leaves (c ∷ cs) h =
        let e = length-span (λ b. not (b == b']')) cs in
        if_both (Leaves (length s)) (c == b'[') _ _
          (λ _. zone-Leaves (span (λ b. not (b == b']')) cs) (omega arith)) (λ _. omega arith)

timestamp_arguments-Answers :
    (timezone : Text) (parts : List Text) → Answers (λ t. Unit) (timestamp_arguments timezone parts)
unfolding timestamp_arguments quoted_text
timestamp_arguments-Answers timezone [] = tt
timestamp_arguments-Answers timezone (raw ∷ parts) =
    let rest = timestamp_arguments-Answers timezone parts in
    let under = λ (found : Text). timestamp_arguments-Answers found parts in
    if_both (Answers (λ t. Unit)) (same_text (trim raw) []) _ _ (λ _. tt)
      (λ _. by_quote (quoted_text (trim raw)) rest under)
  where
    by_quote :
        (o : Option Text)
        → Answers (λ t. Unit) (timestamp_arguments timezone parts)
        → ((found : Text) → Answers (λ t. Unit) (timestamp_arguments found parts))
        → Answers
            (λ t. Unit)
            (elim o [
              | some found ↦
                  if same_text timezone [] then timestamp_arguments found parts else failed
              | none ↦
                  if is_int32_text (trim raw) then timestamp_arguments timezone parts else failed
            ])
    by_quote (some found) rest under =
        if_both (Answers (λ t. Unit)) (same_text timezone []) _ _ (λ _. under found) (λ _. tt)
    by_quote none rest under =
        if_both (Answers (λ t. Unit)) (is_int32_text (trim raw)) _ _ (λ _. rest) (λ _. tt)

pub parse_legacy_timestamp-Leaves : (s : Text) → Leaves (length s) (parse_legacy_timestamp s)
unfolding parse_legacy_timestamp
parse_legacy_timestamp-Leaves s =
    let e = length-skip_space s in
    if_both (Leaves (length s)) (peek b'(' (skip_space s)) _ _
      (λ _.
        then-Leaves (length (skip_space s)) (length s) (parenthesized (skip_space s)) _
          (parenthesized-Leaves (skip_space s))
          (λ raw r h.
            bind-Answers (λ t. Unit) (λ o. length o.1 ≤ length s)
              (timestamp_arguments [] (split_arguments [] 0 0 raw)) _
              (timestamp_arguments-Answers [] (split_arguments [] 0 0 raw)) (λ t _. omega arith)))
      (λ _. omega arith)

pub parse_time64-Leaves : (s : Text) → Leaves (length s) (parse_time64 s)
unfolding parse_time64
parse_time64-Leaves s =
    let e = length-skip_space s in
    if_both (Leaves (length s)) (peek b'(' (skip_space s)) _ _
      (λ _.
        then-Leaves (length (skip_space s)) (length s) (parenthesized (skip_space s)) _
          (parenthesized-Leaves (skip_space s))
          (λ raw r h.
            if_both (Leaves (length s)) (is_int32_text (trim raw)) _ _ (λ _. omega arith)
              (λ _. tt)))
      (λ _. omega arith)
