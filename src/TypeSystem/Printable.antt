-- ===== src/TypeSystem/Printable.antt =====
-- The logical types that the syntax of types can express (internal/typesystem), and what can follow a
-- type in a text.
use o_rabbit.Prelude.{ℕ, ◌≤◌, pos, ◌≡◌, ◌≢◌, Bool, true, false, not, [], ◌∷◌, ◌==◌}
use o_rabbit.TypeSystem.{
  Kind, LogicalType, Fields, logical, no_fields, field, plain, decimal_of, timestamp_tz_of,
  array_of, map_of, struct_of, nullable,
}
use o_rabbit.TypeSystem.Bytes.{Text, is_name_byte, trim}
use o_rabbit.TypeSystem.Validate.{is_valid}
use o_rabbit.TypeSystem.Numbers.{every}

-- The kinds that print as their name alone.
abbrev pub is_simple : Kind → Bool
is_simple Kind.unknown = false
is_simple Kind.decimal = false
is_simple Kind.array = false
is_simple Kind.map = false
is_simple Kind.struct = false
is_simple _ = true

abbrev pub is_nullable : LogicalType → Bool
is_nullable (logical k null p s tz e key v fs) = null

abbrev pub is_zone_byte : ℕ → Bool
is_zone_byte c = not (c == b']')

-- A timezone that is not empty, has no ']', and no space around it.
pub record IsZone (tz : Text) : Type 0 where
  pub not_empty : tz ≢ []
  pub no_bracket : every is_zone_byte tz ≡ true
  pub trimmed : trim tz ≡ tz

-- A field name: letters, digits and '_', one at least.
pub record IsName (name : Text) : Type 0 where
  pub not_empty : name ≢ []
  pub plain_bytes : every is_name_byte name ≡ true

-- The types that the constructors of the package build, with names and timezones that the syntax can
-- express.
mutual
  pub data IsPrintable : LogicalType → Type 0 where
    plain_type : (k : Kind) → is_simple k ≡ true → IsPrintable (plain k)
    decimal_type :
        (p s : ℕ)
        → p ≤ 2147483647
        → s ≤ 2147483647
        → is_valid (decimal_of (pos p) (pos s)) ≡ true
        → IsPrintable (decimal_of (pos p) (pos s))
    zoned_type : (tz : Text) → IsZone tz → IsPrintable (timestamp_tz_of tz)
    array_type : {t : LogicalType} → IsPrintable t → IsPrintable (array_of t)
    map_type : {k v : LogicalType} → IsPrintable k → IsPrintable v → IsPrintable (map_of k v)
    struct_type :
        {name : Text} {t : LogicalType} {fs : Fields}
        → IsName name
        → IsPrintable t
        → ArePrintable fs
        → IsPrintable (struct_of (field name t fs))
    nullable_type :
        {t : LogicalType} → is_nullable t ≡ false → IsPrintable t → IsPrintable (nullable t)

  pub data ArePrintable : Fields → Type 0 where
    no_more : ArePrintable no_fields
    one_more :
        {name : Text} {t : LogicalType} {fs : Fields}
        → IsName name
        → IsPrintable t
        → ArePrintable fs
        → ArePrintable (field name t fs)

-- What can follow a type in a printed one: nothing, a comma, or the end of a container.
pub data Ends : Text → Type 0 where
  at_end : Ends []
  at_comma : (rest : Text) → Ends (b',' ∷ rest)
  at_close : (rest : Text) → Ends (b'>' ∷ rest)

pub by_end {ℓ} :
    (P : Text → Type ℓ)
    → P []
    → ((rest : Text) → P (b',' ∷ rest))
    → ((rest : Text) → P (b'>' ∷ rest))
    → (rest : Text) → Ends rest
    → P rest
by_end P e c k [] at_end = e
by_end P e c k (_ ∷ rest) (at_comma _) = c rest
by_end P e c k (_ ∷ rest) (at_close _) = k rest
