-- ===== src/TypeSystem/Terminates.antt =====
-- The parser of types ends (internal/typesystem/parser.go, ParseType): fuel for the bytes of the input
-- is enough for every input.
use o_rabbit.Prelude.{
  ℕ, ◌<◌, ◌≤◌, zero, suc, ◌≡◌, refl, Bool, true, false, ◌||◌, ◌⊎◌, Option, none, some, [], ◌∷◌,
  arith, length, if_both, if◌then◌else◌, inl, inr,
}
use o_rabbit.TypeSystem.{Kind, LogicalType, plain, array_of, nullable}
use o_rabbit.TypeSystem.Bytes.{Text, bytes, same_text, lower, skip_space}
use o_rabbit.TypeSystem.Validate.{is_valid}
use o_rabbit.TypeSystem.Parse.Result.{
  Word, Parsed, ok, failed, out_of_fuel, bind, Parser, done, fail,
}
use o_rabbit.TypeSystem.Parse.Lexical.{primitive_kind, expect, peek, identifier, open_container}
use o_rabbit.TypeSystem.Parse.Types.{
  not_closed, after_comma, parse_array, parse_nullable, parse_low_cardinality, parse_map,
  parse_fields, whole_type, parse_struct, parse_named, parse_type, parse,
}
use o_rabbit.TypeSystem.Fuel.{
  Answers, Leaves, Keeps, bind-Answers, then-Leaves, then-Spends, widen-Leaves, length-skip_space,
  open_container-Spends, identifier-Spends,
}
use o_rabbit.TypeSystem.Scalars.{
  token-Leaves, parse_decimal-Leaves, parse_timestamp_tz-Leaves, parse_legacy_timestamp-Leaves,
  parse_time64-Leaves,
}

-- The parsers of the types that have parts, over a parser of types that keeps the text with fuel `f`.
module _ (f : ℕ) (type : Parser LogicalType) (keeps : Keeps f type) where
  type-Leaves :
      {B : Type 0} (n : ℕ) (s : Text) (k : LogicalType × Text → Parsed (B × Text))
      → length s ≤ n
      → n < f
      → ((t : LogicalType) (r : Text) → length r ≤ n → Leaves n (k (t, r)))
      → Leaves n (bind (type s) k)
  type-Leaves n s k h fuel next =
      then-Leaves (length s) n (type s) k (keeps s (omega arith)) (λ t r le. next t r (omega arith))

  -- What array and nullable share.
  wrapped-Keeps :
      (wrap : LogicalType → LogicalType) (s : Text)
      → length s < f
      → Leaves (length s) (
          bind (open_container s) λ (close, r₁). bind (not_closed close (skip_space r₁)) λ (_, r₂).
            bind
              (type r₂)
              λ (t, r₃). bind (expect close (skip_space r₃)) λ (_, r₄). ok (wrap t, r₄))
  wrapped-Keeps wrap s fuel =
      then-Spends (length s) (length s) (open_container s) _ (open_container-Spends s)
        λ close r₁ h₁.
          let e = length-skip_space r₁ in
          then-Leaves (length (skip_space r₁)) (length s) (not_closed close (skip_space r₁)) _
            (if_both (Leaves (length (skip_space r₁))) (peek close (skip_space r₁)) _ _ (λ _. tt)
              (λ _. omega arith))
            λ _ r₂ h₂.
              type-Leaves (length s) r₂ _ (omega arith) fuel
                λ t r₃ h₃. token-Leaves close (length s) r₃ _ h₃ λ r₄ h₄. omega arith

  parse_array-Keeps : Keeps f (parse_array type)
  unfolding parse_array
  parse_array-Keeps s fuel = wrapped-Keeps array_of s fuel

  parse_nullable-Keeps : Keeps f (parse_nullable type)
  unfolding parse_nullable
  parse_nullable-Keeps s fuel = wrapped-Keeps nullable s fuel

  parse_low_cardinality-Keeps : Keeps f (parse_low_cardinality type)
  unfolding parse_low_cardinality
  parse_low_cardinality-Keeps s fuel =
      then-Spends (length s) (length s) (open_container s) _ (open_container-Spends s)
        λ close r₁ h₁.
          type-Leaves (length s) r₁ _ (omega arith) fuel
            λ t r₂ h₂. token-Leaves close (length s) r₂ _ h₂ λ r₃ h₃. omega arith

  parse_map-Keeps : Keeps f (parse_map type)
  unfolding parse_map
  parse_map-Keeps s fuel =
      then-Spends (length s) (length s) (open_container s) _ (open_container-Spends s)
        λ close r₁ h₁. type-Leaves (length s) r₁ _ (omega arith) fuel λ k r₂ h₂.
          token-Leaves b',' (length s) r₂ _ h₂ λ r₃ h₃.
            type-Leaves (length s) r₃ _ (omega arith) fuel
              λ v r₄ h₄. token-Leaves close (length s) r₄ _ h₄ λ r₅ h₅. omega arith

  parse_fields-Leaves :
      (g : ℕ) (s : Text) → length s < g → length s < f → Leaves (length s) (parse_fields type g s)
  unfolding parse_fields
  parse_fields-Leaves zero s h fuel = absurd (omega arith)
  parse_fields-Leaves (suc g) s h fuel =
      then-Spends (length s) (length s) (identifier s) _ (identifier-Spends s) λ name r₁ h₁.
        token-Leaves b':' (length s) r₁ _ (omega arith) λ r₂ h₂.
          then-Leaves (length r₂) (length s) (type r₂) _ (keeps r₂ (omega arith)) λ t r₃ h₃.
            let e = length-skip_space r₃ in
            let e' = length-after_comma (skip_space r₃) in
            let next = after_comma (skip_space r₃) in
            if_both (Leaves (length s)) (peek b',' (skip_space r₃)) _ _
              (λ _.
                then-Leaves (length next) (length s) (parse_fields type g next) _
                  (parse_fields-Leaves g next (omega arith) (omega arith))
                  (λ fs r₄ h₄. omega arith))
              (λ _. omega arith)
    where
      length-after_comma : (r : Text) → length (after_comma r) ≤ length r
      length-after_comma [] = omega arith
      length-after_comma (c ∷ cs) = omega arith

  parse_struct-Keeps : Keeps f (parse_struct type f)
  unfolding parse_struct
  parse_struct-Keeps s fuel =
      then-Spends (length s) (length s) (open_container s) _ (open_container-Spends s)
        λ close r₁ h₁.
          then-Leaves (length r₁) (length s) (parse_fields type f r₁) _
            (parse_fields-Leaves f r₁ (omega arith) (omega arith))
            λ fs r₂ h₂. token-Leaves close (length s) r₂ _ (omega arith) λ r₃ h₃. omega arith

  parse_named-Keeps : (name : Text) → Keeps f (parse_named type f name)
  unfolding parse_named primitive_kind
  parse_named-Keeps name s fuel = choose (is "array") _ _ (parse_array-Keeps s fuel) (
      choose (is "map") _ _ (parse_map-Keeps s fuel) (
        choose (is "struct") _ _ (parse_struct-Keeps s fuel) (
          choose (is "nullable") _ _ (parse_nullable-Keeps s fuel) (
            choose (is "lowcardinality") _ _ (parse_low_cardinality-Keeps s fuel) (
              choose (is "decimal" || is "numeric" || is "number") _ _ (parse_decimal-Leaves s) (
                choose (is "money") _ _ (omega arith) (
                  choose (is "smallmoney") _ _ (omega arith) (
                    choose (is "timestamp_tz") _ _ (parse_timestamp_tz-Leaves s) (
                      choose (is "datetime" || is "datetime64" || is "timestamp") _ _
                        (parse_legacy_timestamp-Leaves s)
                        (choose (is "time64") _ _ (parse_time64-Leaves s)
                          (primitive (primitive_kind name))))))))))))
    where
      primitive :
          (o : Option Kind)
          → Leaves (length s) (
              (elim o as (λ _. Parser LogicalType) [ none ↦ fail | some kind ↦ done (plain kind) ])
                s)
      primitive none = tt
      primitive (some kind) = omega arith

      is : Word → Bool
      is w = same_text name (bytes w)

      choose :
          (b : Bool) (p q : Parser LogicalType)
          → Leaves (length s) (p s)
          → Leaves (length s) (q s)
          → Leaves (length s) ((if b then p else q) s)
      choose true p q h k = h
      choose false p q h k = k

parse_type-Keeps : (f : ℕ) → Keeps f (parse_type f)
unfolding parse_type
parse_type-Keeps zero s h = absurd (omega arith)
parse_type-Keeps (suc f) s h =
    then-Spends (length s) (length s) (identifier s) _ (identifier-Spends s) λ name r lt.
      widen-Leaves (length r) (length s) (parse_named (parse_type f) f (lower name) r) (omega arith)
        (parse_named-Keeps f (parse_type f) (parse_type-Keeps f) (lower name) r (omega arith))

whole_type-Answers :
    (t : LogicalType) (rest : Text) → Answers (λ u. is_valid u ≡ true) (whole_type t rest)
whole_type-Answers t [] =
    if_both (Answers (λ u. is_valid u ≡ true)) (is_valid t) _ _ (λ valid. valid) (λ _. tt)
whole_type-Answers t (_ ∷ _) = tt

parse-Answers : (s : Text) → Answers (λ t. is_valid t ≡ true) (parse s)
unfolding parse
parse-Answers s =
    let e = length-skip_space s in
    bind-Answers (λ o. length o.1 ≤ length (skip_space s)) (λ t. is_valid t ≡ true)
      (parse_type (suc (length s)) (skip_space s)) _
      (parse_type-Keeps (suc (length s)) (skip_space s) (omega arith))
      (λ o _. whole_type-Answers o.0 (skip_space o.1))

-- ParseType ends on every input, with an error or with a type that is valid.
pub parse_ends :
    (s : Text) → (parse s ≡ failed) ⊎ ((t : LogicalType) × (parse s ≡ ok t) × (is_valid t ≡ true))
parse_ends s = by_result (parse s) refl (parse-Answers s)
  where
    by_result :
        (p : Parsed LogicalType)
        → parse s ≡ p
        → Answers (λ t. is_valid t ≡ true) p
        → (parse s ≡ failed) ⊎ ((t : LogicalType) × (parse s ≡ ok t) × (is_valid t ≡ true))
    by_result (ok t) e valid = inr (t, e, valid)
    by_result failed e _ = inl e
    by_result out_of_fuel e h = absurd h
