-- ===== src/Tests/Types.antt =====
-- Logical types that are printed and parsed.
use o_rabbit.Prelude.{◌⊎◌, ◌↔◌, true, [], ◌∷◌, arith, pos, ◌≡◌, refl}
use o_rabbit.TypeSystem.{
  Kind, LogicalType, no_fields, field, plain, decimal_of, array_of, map_of, struct_of, nullable,
  timestamp_tz_of,
}
use o_rabbit.TypeSystem.Bytes.{bytes, trim, is_name_byte}
use o_rabbit.TypeSystem.Validate.{is_valid}
use o_rabbit.TypeSystem.Printable.{
  IsName, IsZone, IsPrintable, plain_type, decimal_type, zoned_type, struct_type, nullable_type,
  no_more, one_more,
}
use o_rabbit.TypeSystem.ParsePrint.{parse-print}
use o_rabbit.TypeSystem.Terminates.{parse_ends}
use o_rabbit.TypeSystem.Equal.{equal, equal_iff}
use o_rabbit.TypeSystem.Parse.Result.{ok, failed}
use o_rabbit.TypeSystem.Print.{print}
use o_rabbit.TypeSystem.Parse.Lexical.{int32}
use o_rabbit.TypeSystem.Parse.Types.{parse}

parses_legacy :
    parse (bytes "Nullable(DateTime64(3, 'UTC'))") ≡ ok (nullable (timestamp_tz_of (bytes "UTC")))
unfolding parse nullable
parses_legacy = refl

parses_struct :
    parse (bytes "struct< id:int64, tags : array<string>>")
    ≡ ok (
        struct_of (
          field
            (bytes "id")
            (plain Kind.int64)
            (field (bytes "tags") (array_of (plain Kind.string)) no_fields)))
unfolding parse
parses_struct = refl

parses_decimal :
    parse (bytes "map(uuid,Decimal(10,2))")
    ≡ ok (map_of (plain Kind.uuid) (decimal_of (pos 10) (pos 2)))
unfolding parse int32
parses_decimal = refl

rejects_empty : parse (bytes "struct<>") ≡ failed
unfolding parse
rejects_empty = refl

prints :
    print (map_of (plain Kind.uuid) (nullable (decimal_of (pos 10) (pos 2))))
    ≡ bytes "map<uuid,nullable<decimal(10,2)>>"
unfolding print nullable
prints = refl

-- The ideographic space U+3000 is trimmed; bytes 0xA0 that end another rune, or stand alone, are not.
trims_wide : trim (0xe3 ∷ 0x80 ∷ 0x80 ∷ 0x55 ∷ 0x20 ∷ 0xe2 ∷ 0x80 ∷ 0x83 ∷ []) ≡ 0x55 ∷ []
unfolding trim
trims_wide = refl

trims_runes : trim (0xa0 ∷ 0xc3 ∷ 0xa0 ∷ 0xc2 ∷ 0xa0 ∷ []) ≡ 0xa0 ∷ 0xc3 ∷ 0xa0 ∷ []
unfolding trim
trims_runes = refl

id-IsName : IsName (bytes "id")
unfolding is_name_byte
id-IsName = record { not_empty = λ e. cc; plain_bytes = refl }

utc-IsZone : IsZone (bytes "UTC")
unfolding trim
utc-IsZone = record { not_empty = λ e. cc; no_bracket = refl; trimmed = refl }

abbrev event_type : LogicalType
event_type = struct_of (
    field (bytes "id") (plain Kind.int64) (
      field (bytes "id_2") (nullable (decimal_of (pos 10) (pos 2)))
        (field (bytes "at") (timestamp_tz_of (bytes "UTC")) no_fields)))

at-IsName : IsName (bytes "at")
unfolding is_name_byte
at-IsName = record { not_empty = λ e. cc; plain_bytes = refl }

id_2-IsName : IsName (bytes "id_2")
unfolding is_name_byte
id_2-IsName = record { not_empty = λ e. cc; plain_bytes = refl }

event_type-IsPrintable : IsPrintable event_type
unfolding is_valid
event_type-IsPrintable = struct_type id-IsName (plain_type Kind.int64 refl) (
    one_more id_2-IsName (nullable_type refl (decimal_type 10 2 (omega arith) (omega arith) refl))
      (one_more at-IsName (zoned_type (bytes "UTC") utc-IsZone) no_more))

parse-print_example : parse (print event_type) ≡ ok event_type
parse-print_example =
    parse-print event_type event_type-IsPrintable (unfold is_valid nullable in refl)

parse_ends_example :
    (parse (bytes "array<map<int8>>") ≡ failed)
    ⊎ ((t : LogicalType) × (parse (bytes "array<map<int8>>") ≡ ok t) × (is_valid t ≡ true))
parse_ends_example = parse_ends (bytes "array<map<int8>>")

equal_iff_example :
    (equal event_type (nullable event_type) ≡ true) ↔ (event_type ≡ nullable event_type)
equal_iff_example = equal_iff event_type (nullable event_type)
