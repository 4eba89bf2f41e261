-- ===== src/TypeSystem/ParsePrint.antt =====
-- ParseType inverts LogicalType.String (internal/typesystem).
use mathlib.Core.List.{append_assoc, append-nil}
use o_rabbit.Prelude.{
  ℕ, pos, false, suc, ◌<◌, ◌+◌, ◌≡◌, refl, sym, ◌∙◌, ap, true, [], ◌∷◌, ◌++◌, arith, length,
  length-append,
}
use o_rabbit.TypeSystem.{
  Kind, LogicalType, Fields, no_fields, field, array_of, map_of, struct_of, nullable, decimal_of,
  timestamp_tz_of, plain,
}
use o_rabbit.TypeSystem.Bytes.{Text, skip_space}
use o_rabbit.TypeSystem.Print.{kind_name, print, print_fields, print_more}
use o_rabbit.TypeSystem.Validate.{is_valid}
use o_rabbit.TypeSystem.Parse.Result.{ok}
use o_rabbit.TypeSystem.Parse.Types.{parse_type, parse_fields, parse}
use o_rabbit.TypeSystem.Printable.{
  is_nullable, is_simple, IsPrintable, ArePrintable, IsName, at_end, at_comma, at_close, plain_type,
  decimal_type, zoned_type, array_type, map_type, struct_type, nullable_type, no_more, one_more,
}
use o_rabbit.TypeSystem.RoundTrip.{
  print-plain, Reads, one_less, plain-Reads, decimal-Reads, zone-Reads, array-Reads, nullable-Reads,
  map-Reads, print-nullable, skip_space-print,
}
use o_rabbit.TypeSystem.Records.{last_field, next_field, struct-Reads}

-- With fuel for its bytes, the loop over the fields reads printed fields.
abbrev ReadsFields : Fields → Type 0
ReadsFields fs =
    (rest : Text) (f g : ℕ)
    → length (print_fields fs) < f
    → length (print_fields fs) < g
    → parse_fields (parse_type f) g (print_fields fs ++ b'>' ∷ rest) ≡ ok (fs, b'>' ∷ rest)

field-length :
    (name p q : Text) (n : ℕ) → length (name ++ b':' ∷ (p ++ q)) < n → length p + length q < n
field-length name p q n h =
    let e = length-append name (b':' ∷ (p ++ q)) in let e' = length-append p q in omega arith

last-ReadsFields :
    (name : Text) (t : LogicalType) → IsName name → Reads t → ReadsFields (field name t no_fields)
unfolding print_fields print_more
last-ReadsFields name t h ih rest f g hf hg =
    let small = field-length name (print t) [] f hf in
    let type = ih (b'>' ∷ rest) f (at_close rest) (omega arith) in
    one_less
      (λ g.
        parse_fields (parse_type f) g ((name ++ b':' ∷ (print t ++ [])) ++ b'>' ∷ rest)
        ≡ ok (field name t no_fields, b'>' ∷ rest))
      (λ g _.
        rw (append-nil (print t))
          (simp append_assoc (last_field (parse_type f) name t h g rest type)))
      g hg

flat :
    (name p tail r : Text)
    → (name ++ b':' ∷ (p ++ b',' ∷ tail)) ++ r ≡ name ++ b':' ∷ (p ++ b',' ∷ (tail ++ r))
flat name p tail r = simp append_assoc refl

next-ReadsFields :
    (name next : Text) (t u : LogicalType) (fs : Fields)
    → IsName name
    → Reads t
    → ReadsFields (field next u fs)
    → ReadsFields (field name t (field next u fs))
unfolding print_fields print_more
next-ReadsFields name next t u fs h ih more rest f g hf hg =
    let tail = print_fields (field next u fs) in
    let small = field-length name (print t) (b',' ∷ tail) f hf in
    let type = ih (b',' ∷ (tail ++ b'>' ∷ rest)) f (at_comma (tail ++ b'>' ∷ rest)) (omega arith) in
    one_less
      (λ g.
        parse_fields (parse_type f) g ((name ++ b':' ∷ (print t ++ b',' ∷ tail)) ++ b'>' ∷ rest)
        ≡ ok (field name t (field next u fs), b'>' ∷ rest))
      (λ g fuel.
        let left = field-length name (print t) (b',' ∷ tail) (suc g) (omega arith) in
        rw (flat name (print t) tail (b'>' ∷ rest)) (
          next_field (parse_type f) name t h g (field next u fs) (tail ++ b'>' ∷ rest) (b'>' ∷ rest)
            type (more rest f g (omega arith) (omega arith))))
      g hg

array-step : (t : LogicalType) → Reads t → Reads (array_of t)
unfolding print
array-step t ih rest f end fuel =
    let e = length-append (print t) (b'>' ∷ []) in
    one_less (λ f. parse_type f (print (array_of t) ++ rest) ≡ ok (array_of t, rest))
      (λ f enough. array-Reads t rest f (ih (b'>' ∷ rest) f (at_close rest) (omega arith))) f fuel

nullable-step : (t : LogicalType) → is_nullable t ≡ false → Reads t → Reads (nullable t)
nullable-step t plain ih rest f end fuel =
    let e = length-append (print t) (b'>' ∷ []) in
    let e' = ap length (print-nullable t plain) in
    one_less (λ f. parse_type f (print (nullable t) ++ rest) ≡ ok (nullable t, rest))
      (λ f enough. nullable-Reads t rest f plain (ih (b'>' ∷ rest) f (at_close rest) (omega arith)))
      f fuel

map-step : (k v : LogicalType) → Reads k → Reads v → Reads (map_of k v)
unfolding print
map-step k v ih ih' rest f end fuel =
    let value = b',' ∷ (print v ++ b'>' ∷ []) in
    let follows = print v ++ b'>' ∷ rest in
    let e = length-append (print k) value in
    let e' = length-append (print v) (b'>' ∷ []) in
    one_less (λ f. parse_type f (print (map_of k v) ++ rest) ≡ ok (map_of k v, rest))
      (λ f enough.
        map-Reads k v rest f (ih (b',' ∷ follows) f (at_comma follows) (omega arith))
          (ih' (b'>' ∷ rest) f (at_close rest) (omega arith)))
      f fuel

struct-step : (fs : Fields) → ReadsFields fs → Reads (struct_of fs)
unfolding print
struct-step fs ih rest f end fuel =
    let e = length-append (print_fields fs) (b'>' ∷ []) in
    one_less (λ f. parse_type f (print (struct_of fs) ++ rest) ≡ ok (struct_of fs, rest))
      (λ f enough. struct-Reads fs rest f (ih rest f f (omega arith) (omega arith))) f fuel

plain-step : (k : Kind) → is_simple k ≡ true → Reads (plain k)
plain-step k h rest f end fuel = rw (print-plain k h) (
    one_less (λ f. parse_type f (kind_name k ++ rest) ≡ ok (plain k, rest))
      (λ f _. plain-Reads k h f rest end) f fuel)

mutual
  reads : (t : LogicalType) → IsPrintable t → Reads t
  reads _ (plain_type k h) = plain-step k h
  reads _ (decimal_type p s hp hs valid) = λ rest f end fuel.
      one_less
        (λ f.
          parse_type f (print (decimal_of (pos p) (pos s)) ++ rest)
          ≡ ok (decimal_of (pos p) (pos s), rest))
        (λ f _. decimal-Reads p s hp hs valid rest f) f fuel
  reads _ (zoned_type tz z) = λ rest f end fuel.
      one_less
        (λ f. parse_type f (print (timestamp_tz_of tz) ++ rest) ≡ ok (timestamp_tz_of tz, rest))
        (λ f _. zone-Reads tz rest f z) f fuel
  reads _ (array_type {t} h) = array-step t (reads t h)
  reads _ (map_type {k} {v} h h') = map-step k v (reads k h) (reads v h')
  reads _ (struct_type {name} {t} {fs} n h hs) =
      struct-step (field name t fs) (reads_fields name t fs n (reads t h) hs)
  reads _ (nullable_type {t} once h) = nullable-step t once (reads t h)

  reads_fields :
      (name : Text) (t : LogicalType) (fs : Fields)
      → IsName name
      → Reads t
      → ArePrintable fs
      → ReadsFields (field name t fs)
  reads_fields name t _ n h no_more = last-ReadsFields name t n h
  reads_fields name t _ n h (one_more {name = next} {t = u} {fs} n' h' hs) =
      next-ReadsFields name next t u fs n h (reads_fields next u fs n' (reads u h') hs)

parse-read :
    (t : LogicalType) (s : Text)
    → skip_space s ≡ s
    → parse_type (suc (length s)) s ≡ ok (t, [])
    → is_valid t ≡ true
    → parse s ≡ ok t
unfolding parse
parse-read t s e read valid = rw (e, read, valid) refl

-- A printable valid type is what ParseType returns for its text.
pub parse-print : (t : LogicalType) → IsPrintable t → is_valid t ≡ true → parse (print t) ≡ ok t
parse-print t h valid =
    let e = skip_space-print t [] in
    let e' = append-nil (print t) in
    let read = reads t h [] (suc (length (print t))) at_end (omega arith) in
    parse-read t (print t) (ap skip_space (sym e') ∙ e ∙ e')
      (ap (parse_type (suc (length (print t)))) (sym e') ∙ read) valid
