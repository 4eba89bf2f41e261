-- ===== src/TypeSystem/Validate.antt =====
-- LogicalType.Validate (internal/typesystem/logical_type.go): whether a type is structurally correct.
-- The texts of its errors are not modelled.
use o_rabbit.Prelude.{
  ℤ, pos, is_positive, Bool, true, false, not, ◌&&◌, ◌||◌, Option, none, some, List, [], ◌∷◌, leb,
}
use o_rabbit.Store.Artifacts.{is_non_negative}
use o_rabbit.TypeSystem.{Kind, LogicalType, Ref, Fields, logical, nil, ref, no_fields, field}
use o_rabbit.TypeSystem.Bytes.{Text, same_text, trim}

-- scale <= precision, where both are not negative
abbrev pub scale_fits : ℤ → ℤ → Bool
scale_fits (pos p) (pos s) = leb s p
scale_fits _ _ = false

unfoldable pub decimal_is_valid : Option ℤ → Option ℤ → Bool
decimal_is_valid (some p) (some s) = is_positive p && is_non_negative s && scale_fits p s
decimal_is_valid _ _ = false

unfoldable pub is_seen : Text → List Text → Bool
unfolding same_text
is_seen name [] = false
is_seen name (x ∷ xs) = same_text x name || is_seen name xs

-- The checks of a kind; those of the parts are arguments, `none` for a part that is absent.
unfoldable pub kind_is_valid :
    Kind → Option ℤ → Option ℤ → (element key value : Option Bool) → Bool → Bool
unfolding decimal_is_valid
kind_is_valid Kind.decimal p s e k v fs = decimal_is_valid p s
kind_is_valid Kind.array p s (some e) k v fs = e
kind_is_valid Kind.array p s none k v fs = false
kind_is_valid Kind.map p s e (some k) (some v) fs = k && v
kind_is_valid Kind.map p s e (some k) none fs = false
kind_is_valid Kind.map p s e none v fs = false
kind_is_valid Kind.struct p s e k v fs = fs
kind_is_valid _ p s e k v fs = true

unfoldable mutual
  unfolding kind_is_valid is_seen trim same_text

  pub is_valid : LogicalType → Bool
  is_valid (logical kind null p s tz e k v fs) =
      kind_is_valid kind p s (ref_is_valid e) (ref_is_valid k) (ref_is_valid v)
        (fields_are_valid [] fs)

  pub ref_is_valid : Ref → Option Bool
  ref_is_valid nil = none
  ref_is_valid (ref t) = some (is_valid t)

  -- The loop over the fields, with the names that were seen.
  pub fields_are_valid : List Text → Fields → Bool
  fields_are_valid seen no_fields = true
  fields_are_valid seen (field name t fs) =
      not (same_text (trim name) [])
      && not (is_seen name seen)
      && is_valid t
      && fields_are_valid (name ∷ seen) fs
