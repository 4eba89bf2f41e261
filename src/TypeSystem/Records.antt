-- ===== src/TypeSystem/Records.antt =====
-- The fields of a struct in a printed type are read back (internal/typesystem, parseStruct).
use mathlib.Core.List.{append_assoc}
use o_rabbit.Prelude.{ℕ, suc, ◌≡◌, refl, false, [], ◌∷◌, ◌++◌, arith}
use o_rabbit.TypeSystem.{LogicalType, Fields, no_fields, field, struct_of}
use o_rabbit.TypeSystem.Bytes.{Text, is_space, is_name_byte}
use o_rabbit.TypeSystem.Print.{print, print_fields}
use o_rabbit.TypeSystem.Numbers.{span-append}
use o_rabbit.TypeSystem.Parse.Result.{Parser, ok}
use o_rabbit.TypeSystem.Parse.Lexical.{identifier}
use o_rabbit.TypeSystem.Parse.Types.{parse_fields, parse_type}
use o_rabbit.TypeSystem.Printable.{IsName}

identifier-name :
    (name r : Text) → IsName name → identifier (name ++ b':' ∷ r) ≡ ok (name, b':' ∷ r)
unfolding identifier is_name_byte
identifier-name [] r h = absurd (h.not_empty refl)
identifier-name (c ∷ cs) r h =
    let all = h.plain_bytes in
    let solid : is_space c ≡ false = ground arith in
    rw (solid, span-append is_name_byte (c ∷ cs) b':' r all refl) refl

module _ (type : Parser LogicalType) (name : Text) (t : LogicalType) (h : IsName name) where
  pub last_field :
      (g : ℕ) (rest : Text)
      → type (print t ++ b'>' ∷ rest) ≡ ok (t, b'>' ∷ rest)
      → parse_fields type (suc g) (name ++ b':' ∷ (print t ++ b'>' ∷ rest))
        ≡ ok (field name t no_fields, b'>' ∷ rest)
  unfolding parse_fields
  last_field g rest e = rw (identifier-name name (print t ++ b'>' ∷ rest) h, e) refl

  pub next_field :
      (g : ℕ) (fs : Fields) (s rest : Text)
      → type (print t ++ b',' ∷ s) ≡ ok (t, b',' ∷ s)
      → parse_fields type g s ≡ ok (fs, rest)
      → parse_fields type (suc g) (name ++ b':' ∷ (print t ++ b',' ∷ s))
        ≡ ok (field name t fs, rest)
  unfolding parse_fields
  next_field g fs s rest e more = rw (identifier-name name (print t ++ b',' ∷ s) h, e, more) refl

pub struct-Reads :
    (fs : Fields) (rest : Text) (f : ℕ)
    → parse_fields (parse_type f) f (print_fields fs ++ b'>' ∷ rest) ≡ ok (fs, b'>' ∷ rest)
    → parse_type (suc f) (print (struct_of fs) ++ rest) ≡ ok (struct_of fs, rest)
unfolding parse_type print
struct-Reads fs rest f ih = simp append_assoc (rw ih refl)
