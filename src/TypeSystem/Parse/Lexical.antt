-- ===== src/TypeSystem/Parse/Lexical.antt =====
-- The lexical parts of the parser of types (internal/typesystem/parser.go): names, numbers, single
-- bytes, containers and parenthesized texts.
use o_rabbit.Prelude.{
  ℕ, ℤ, pos, negsuc, ◌+◌, ◌-◌, zero, suc, Bool, true, false, not, ◌&&◌, ◌||◌, Option, none, some,
  List, [], ◌∷◌, leb, ◌==◌, if◌then◌else◌,
}
use o_rabbit.TypeSystem.{Kind}
use o_rabbit.TypeSystem.Bytes.{
  Text, bytes, same_text, skip_space, span, is_digit, is_name_byte, digits_value,
}
use o_rabbit.TypeSystem.Parse.Result.{Word, Parsed, ok, failed, out_of_fuel, bind, Parser}

-- primitiveKind
unfoldable pub primitive_kind : Text → Option Kind
primitive_kind name =
    if among ("string" ∷ "text" ∷ "varchar" ∷ "nvarchar" ∷ "char" ∷ "nchar" ∷ "xml" ∷ [])
    then some Kind.string
    else if among ("bool" ∷ "boolean" ∷ [])
    then some Kind.bool
    else if among ("int8" ∷ [])
    then some Kind.int8
    else if among ("int16" ∷ [])
    then some Kind.int16
    else if among ("int32" ∷ [])
    then some Kind.int32
    else if among ("int64" ∷ [])
    then some Kind.int64
    else if among ("uint8" ∷ [])
    then some Kind.uint8
    else if among ("uint16" ∷ [])
    then some Kind.uint16
    else if among ("uint32" ∷ [])
    then some Kind.uint32
    else if among ("uint64" ∷ [])
    then some Kind.uint64
    else if among ("float32" ∷ [])
    then some Kind.float32
    else if among ("float64" ∷ [])
    then some Kind.float64
    else if among ("date" ∷ "date32" ∷ [])
    then some Kind.date
    else if among ("time" ∷ [])
    then some Kind.time
    else if among ("uuid" ∷ "uniqueidentifier" ∷ [])
    then some Kind.uuid
    else if among ("binary" ∷ "bytea" ∷ "blob" ∷ "varbinary" ∷ "image" ∷ "rowversion" ∷ [])
    then some Kind.binary
    else if among ("json" ∷ [])
    then some Kind.json
    else none
  where
    among : List Word → Bool
    among [] = false
    among (w ∷ ws) = same_text name (bytes w) || among ws

-- p.consume(b)
unfoldable pub expect : ℕ → Parser (Unit {0})
expect b [] = failed
expect b (c ∷ cs) = if c == b then ok (tt, cs) else failed

-- p.peek(b)
abbrev pub peek : ℕ → Text → Bool
peek b [] = false
peek b (c ∷ cs) = c == b

-- p.skipSpace()
abbrev pub spaces : Parser (Unit {0})
spaces s = ok (tt, skip_space s)

-- The name of the bytes that were read, where there is one at least.
abbrev pub named : Text × Text → Parsed (Text × Text)
named ([], rest) = failed
named (c ∷ cs, rest) = ok (c ∷ cs, rest)

unfoldable pub identifier : Parser Text
unfolding span is_name_byte skip_space
identifier s = named (span is_name_byte (skip_space s))

abbrev pub opened : Text → Parsed (ℕ × Text)
opened [] = failed
opened (c ∷ cs) = if c == b'<' then ok (b'>', cs) else if c == b'(' then ok (b')', cs) else failed

-- openContainer, with the byte that closes the container
unfoldable pub open_container : Parser ℕ
unfolding skip_space
open_container s = opened (skip_space s)

abbrev pub close_container : ℕ → Parser (Unit {0})
close_container close s = expect close (skip_space s)

-- strconv.ParseInt(s, 10, 32) on a text with digits only
abbrev pub int32_of : (negative : Bool) → ℕ → Parsed ℤ
int32_of false n = if leb n 2147483647 then ok (pos n) else failed
int32_of true zero = ok (pos 0)
int32_of true (suc n) = if leb n 2147483647 then ok (negsuc n) else failed

-- The sign of a number: '-' or '+', or none.
abbrev pub signed : Text → Bool × Text
signed [] = (false, [])
signed (c ∷ cs) =
    if c == b'-' then (true, cs) else if c == b'+' then (false, cs) else (false, c ∷ cs)

-- The int32 of digits that were read, where there is one at least.
abbrev pub int32_digits : Bool → Text × Text → Parsed (ℤ × Text)
int32_digits negative ([], rest) = failed
int32_digits negative (c ∷ cs, rest) =
    bind (int32_of negative (digits_value 0 (c ∷ cs))) (λ z. ok (z, rest))

unfoldable pub int32 : Parser ℤ
unfolding span digits_value skip_space
int32 s =
    let (negative, digits) = signed (skip_space s) in int32_digits negative (span is_digit digits)

-- strconv.ParseInt(s, 10, 32) succeeds
unfoldable pub is_int32_text : Text → Bool
unfolding span digits_value
is_int32_text s =
    let (negative, digits) = signed s in whole (int32_digits negative (span is_digit digits))
  where
    whole : Parsed (ℤ × Text) → Bool
    whole (ok (z, [])) = true
    whole _ = false

-- A byte in front of the text that was read.
abbrev pub consed : ℕ → Parsed (Text × Text) → Parsed (Text × Text)
consed b (ok (text, rest)) = ok (b ∷ text, rest)
consed b failed = failed
consed b out_of_fuel = out_of_fuel

-- parenthesizedContent from behind the '(': the text up to its ')', and the rest. `quote` is the
-- quote that is open, or 0.
unfoldable pub content : (depth quote : ℕ) → Text → Parsed (Text × Text)
content depth quote [] = failed
content depth quote (c ∷ []) = if quote == 0 && c == b')' && depth == 1 then ok ([], []) else failed
content depth quote (c ∷ d ∷ cs) =
    let escaped = content depth quote cs in
    let after_quote = content depth 0 (d ∷ cs) in
    let in_quote = content depth quote (d ∷ cs) in
    let opens = content depth c (d ∷ cs) in
    let deeper = content (depth + 1) 0 (d ∷ cs) in
    let up = content (depth - 1) 0 (d ∷ cs) in
    let on = content depth 0 (d ∷ cs) in
    if not (quote == 0)
    then (if c == b'\\'
        then consed c (consed d escaped)
        else if c == quote
        then consed c after_quote
        else consed c in_quote)
    else if c == 39 || c == 34
    then consed c opens
    else if c == b'('
    then consed c deeper
    else if c == b')'
    then (if depth == 1 then ok ([], d ∷ cs) else consed c up)
    else consed c on

abbrev pub parenthesized : Parser Text
parenthesized s = bind (expect b'(' (skip_space s)) λ (_, rest). content 1 0 rest
