-- ===== src/TypeSystem.antt =====
-- Logical types (internal/typesystem/kind.go, logical_type.go, logical_field.go): the types of columns
-- independently of any source or format. Texts are lists of bytes. A pointer to a type is `Ref`, and
-- SourceTypeName, which carries no meaning, is left out.
pub mod Bytes
pub mod Print
pub mod Validate
pub mod Parse
pub mod Numbers
pub mod Printable
pub mod RoundTrip
pub mod Records
pub mod ParsePrint
pub mod Fuel
pub mod Scalars
pub mod Terminates
pub mod Equal
use o_rabbit.Prelude.{ℕ, ℤ, pos, Bool, true, false, Option, none, some, List, [], ◌∷◌}

pub data Kind : Type 0 where
  unknown string bool int8 int16 int32 int64 uint8 uint16 uint32 uint64 float32 float64 : Kind
  decimal date time timestamp timestamp_tz uuid binary json array struct map : Kind

mutual
  pub data LogicalType : Type 0 where
    -- Kind, Nullable, Precision, Scale, Timezone, Element, Key, Value, Fields
    logical : Kind → Bool → Option ℤ → Option ℤ → List ℕ → Ref → Ref → Ref → Fields → LogicalType

  pub data Ref : Type 0 where
    nil : Ref
    ref : LogicalType → Ref

  pub data Fields : Type 0 where
    no_fields : Fields
    field : List ℕ → LogicalType → Fields → Fields

-- LogicalType{Kind: kind}
abbrev pub plain : Kind → LogicalType
plain kind = logical kind false none none [] nil nil nil no_fields

-- Decimal(precision, scale)
abbrev pub decimal_of : ℤ → ℤ → LogicalType
decimal_of precision scale =
    logical Kind.decimal false (some precision) (some scale) [] nil nil nil no_fields

-- LogicalType{Kind: KindTimestampTZ, Timezone: timezone}
abbrev pub timestamp_tz_of : List ℕ → LogicalType
timestamp_tz_of timezone = logical Kind.timestamp_tz false none none timezone nil nil nil no_fields

-- ArrayOf
abbrev pub array_of : LogicalType → LogicalType
array_of element = logical Kind.array false none none [] (ref element) nil nil no_fields

-- MapOf
abbrev pub map_of : LogicalType → LogicalType → LogicalType
map_of key value = logical Kind.map false none none [] nil (ref key) (ref value) no_fields

abbrev pub struct_of : Fields → LogicalType
struct_of fields = logical Kind.struct false none none [] nil nil nil fields

-- Nullable
unfoldable pub nullable : LogicalType → LogicalType
nullable (logical kind _ precision scale timezone element key value fields) =
    logical kind true precision scale timezone element key value fields
