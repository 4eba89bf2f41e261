-- ===== src/TypeSystem/Print.antt =====
-- LogicalType.String (internal/typesystem/logical_type.go) and Kind.String (kind.go).
use o_rabbit.Prelude.{ℤ, pos, negsuc, suc, Bool, true, false, Option, none, some, [], ◌∷◌, ◌++◌}
use o_rabbit.TypeSystem.{Kind, LogicalType, Ref, Fields, logical, nil, ref, no_fields, field}
use o_rabbit.TypeSystem.Bytes.{Text, bytes, show_digits}

unfoldable pub kind_name : Kind → Text
kind_name Kind.string = bytes "string"
kind_name Kind.bool = bytes "bool"
kind_name Kind.int8 = bytes "int8"
kind_name Kind.int16 = bytes "int16"
kind_name Kind.int32 = bytes "int32"
kind_name Kind.int64 = bytes "int64"
kind_name Kind.uint8 = bytes "uint8"
kind_name Kind.uint16 = bytes "uint16"
kind_name Kind.uint32 = bytes "uint32"
kind_name Kind.uint64 = bytes "uint64"
kind_name Kind.float32 = bytes "float32"
kind_name Kind.float64 = bytes "float64"
kind_name Kind.decimal = bytes "decimal"
kind_name Kind.date = bytes "date"
kind_name Kind.time = bytes "time"
kind_name Kind.timestamp = bytes "timestamp"
kind_name Kind.timestamp_tz = bytes "timestamp_tz"
kind_name Kind.uuid = bytes "uuid"
kind_name Kind.binary = bytes "binary"
kind_name Kind.json = bytes "json"
kind_name Kind.array = bytes "array"
kind_name Kind.struct = bytes "struct"
kind_name Kind.map = bytes "map"
kind_name Kind.unknown = bytes "unknown"

-- %d of an int32: ten digits are enough
unfoldable pub show_int32 : ℤ → Text
unfolding show_digits
show_int32 (pos n) = show_digits 10 n
show_int32 (negsuc n) = b'-' ∷ show_digits 10 (suc n)

abbrev pub or_question : Option ℤ → Text
or_question none = bytes "?"
or_question (some z) = show_int32 z

-- renderDecimal
unfoldable pub render_decimal : Option ℤ → Option ℤ → Text
unfolding show_int32
render_decimal none none = bytes "decimal"
render_decimal (some p) s =
    bytes "decimal(" ++ (or_question (some p) ++ (b',' ∷ (or_question s ++ b')' ∷ [])))
render_decimal none (some s) =
    bytes "decimal(" ++ (or_question none ++ (b',' ∷ (or_question (some s) ++ b')' ∷ [])))

unfoldable pub render_timestamp_tz : Text → Text
unfolding kind_name
render_timestamp_tz [] = kind_name Kind.timestamp_tz
render_timestamp_tz (c ∷ cs) = kind_name Kind.timestamp_tz ++ (b'[' ∷ ((c ∷ cs) ++ b']' ∷ []))

abbrev pub wrap_nullable : Bool → Text → Text
wrap_nullable true s = bytes "nullable<" ++ (s ++ b'>' ∷ [])
wrap_nullable false s = s

-- The rendering without the nullable wrapper; the texts of the parts are arguments.
unfoldable pub render : Kind → Option ℤ → Option ℤ → Text → (element key value fields : Text) → Text
unfolding render_decimal render_timestamp_tz kind_name
render Kind.decimal p s tz e k v fs = render_decimal p s
render Kind.timestamp_tz p s tz e k v fs = render_timestamp_tz tz
render Kind.array p s tz e k v fs = bytes "array<" ++ (e ++ b'>' ∷ [])
render Kind.map p s tz e k v fs = bytes "map<" ++ (k ++ (b',' ∷ (v ++ b'>' ∷ [])))
render Kind.struct p s tz e k v fs = bytes "struct<" ++ (fs ++ b'>' ∷ [])
render kind p s tz e k v fs = kind_name kind

unfoldable mutual
  unfolding render

  pub print : LogicalType → Text
  print (logical kind null p s tz e k v fs) =
      wrap_nullable null
        (render kind p s tz (print_ref e) (print_ref k) (print_ref v) (print_fields fs))

  -- nestedString
  pub print_ref : Ref → Text
  print_ref nil = kind_name Kind.unknown
  print_ref (ref t) = print t

  -- strings.Join(fields, ",")
  pub print_fields : Fields → Text
  print_fields no_fields = []
  print_fields (field name t fs) = name ++ (b':' ∷ (print t ++ print_more fs))

  pub print_more : Fields → Text
  print_more no_fields = []
  print_more (field name t fs) = b',' ∷ (name ++ (b':' ∷ (print t ++ print_more fs)))
