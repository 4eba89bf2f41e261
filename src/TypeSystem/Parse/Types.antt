-- ===== src/TypeSystem/Parse/Types.antt =====
-- The parsers of types (internal/typesystem/parser.go): parseType with one parser for each name, and
-- ParseType.
use o_rabbit.Prelude.{
  ℕ, pos, ◌+◌, ◌-◌, zero, suc, Bool, not, ◌&&◌, ◌||◌, Option, none, some, List, [], ◌∷◌, ◌==◌,
  if◌then◌else◌, length,
}
use o_rabbit.TypeSystem.{
  Kind, LogicalType, Fields, no_fields, field, plain, decimal_of, timestamp_tz_of, array_of, map_of,
  struct_of, nullable,
}
use o_rabbit.TypeSystem.Bytes.{Text, bytes, same_text, lower, skip_space, trim, span, reverse_onto}
use o_rabbit.TypeSystem.Validate.{is_valid}
use o_rabbit.TypeSystem.Parse.Result.{
  Word, Parsed, ok, failed, out_of_fuel, bind, Parser, ◌>>=◌, ◌>>◌, done, fail,
}
use o_rabbit.TypeSystem.Parse.Lexical.{
  primitive_kind, expect, peek, spaces, identifier, open_container, close_container, int32,
  is_int32_text, content, parenthesized,
}

-- parseDecimal
unfoldable pub parse_decimal : Parser LogicalType
unfolding expect
parse_decimal = do
  spaces
  expect b'('
  p ← int32
  spaces
  expect b','
  s ← int32
  spaces
  expect b')'
  (if is_valid (decimal_of p s) then done (decimal_of p s) else fail)

-- The zone of parseTimestampTZ, with what follows its ']'.
unfoldable pub zone : Text × Text → Parsed (LogicalType × Text)
unfolding trim same_text
zone (text, []) = failed
zone (text, _ ∷ rest) =
    if same_text (trim text) [] then failed else ok (timestamp_tz_of (trim text), rest)

abbrev pub zoned : Text → Parsed (LogicalType × Text)
zoned [] = ok (timestamp_tz_of [], [])
zoned (c ∷ cs) =
    if c == b'[' then zone (span (λ b. not (b == b']')) cs) else ok (timestamp_tz_of [], c ∷ cs)

-- parseTimestampTZ
unfoldable pub parse_timestamp_tz : Parser LogicalType
unfolding zone span skip_space
parse_timestamp_tz s = zoned (skip_space s)

-- splitArguments: the parts between commas outside of quotes and parentheses. The first argument is
-- the part that is being read, reversed. Parentheses outside of quotes are balanced in the text of a
-- parenthesized type, so that the depth does not fall below 0.
unfoldable pub split_arguments : Text → (depth quote : ℕ) → Text → List Text
split_arguments part depth quote [] = reverse_onto [] part ∷ []
split_arguments part depth quote (c ∷ []) =
    if quote == 0 && c == b',' && depth == 0
    then reverse_onto [] part ∷ ([] ∷ [])
    else reverse_onto [] (c ∷ part) ∷ []
split_arguments part depth quote (c ∷ d ∷ cs) =
    let escaped = split_arguments (d ∷ c ∷ part) depth quote cs in
    let after_quote = split_arguments (c ∷ part) depth 0 (d ∷ cs) in
    let in_quote = split_arguments (c ∷ part) depth quote (d ∷ cs) in
    let opens = split_arguments (c ∷ part) depth c (d ∷ cs) in
    let deeper = split_arguments (c ∷ part) (depth + 1) 0 (d ∷ cs) in
    let up = split_arguments (c ∷ part) (depth - 1) 0 (d ∷ cs) in
    let next_part = split_arguments [] depth 0 (d ∷ cs) in
    let on = split_arguments (c ∷ part) depth 0 (d ∷ cs) in
    if not (quote == 0)
    then (if c == b'\\' then escaped else if c == quote then after_quote else in_quote)
    else if c == 39 || c == 34
    then opens
    else if c == b'('
    then deeper
    else if c == b')'
    then up
    else if c == b',' && depth == 0
    then reverse_onto [] part ∷ next_part
    else on

-- The text before the last byte, if that is a given one.
unfoldable pub until_last : ℕ → Text → Option Text
until_last q [] = none
until_last q (c ∷ []) = if c == q then some [] else none
until_last q (c ∷ d ∷ cs) = elim (until_last q (d ∷ cs)) [ none ↦ none | some s ↦ some (c ∷ s) ]

-- quotedText
unfoldable pub quoted_text : Text → Option Text
unfolding until_last trim same_text
quoted_text value = quoted (trim value)
  where
    quoted : Text → Option Text
    quoted [] = none
    quoted (c ∷ cs) =
        if c == 39 || c == 34
        then elim (until_last c cs) [
          | none ↦ none
          | some inner ↦ if same_text (trim inner) [] then none else some (trim inner)
        ]
        else none

-- The loop over the arguments of a legacy timestamp, with the zone that was found.
unfoldable pub timestamp_arguments : Text → List Text → Parsed Text
unfolding quoted_text is_int32_text same_text trim
timestamp_arguments timezone [] = ok timezone
timestamp_arguments timezone (raw ∷ parts) =
    let part = trim raw in
    let rest = timestamp_arguments timezone parts in
    if same_text part [] then failed else elim (quoted_text part) [
      | some found ↦ if same_text timezone [] then timestamp_arguments found parts else failed
      | none ↦ if is_int32_text part then rest else failed
    ]

-- parseLegacyTimestamp
unfoldable pub parse_legacy_timestamp : Parser LogicalType
unfolding timestamp_arguments split_arguments content expect skip_space same_text
parse_legacy_timestamp s =
    let given = bind (parenthesized (skip_space s)) λ (raw, rest).
      bind (timestamp_arguments [] (split_arguments [] 0 0 raw)) λ timezone.
        ok (
          if same_text timezone [] then plain Kind.timestamp else timestamp_tz_of timezone,
          rest,
        ) in
    if peek b'(' (skip_space s) then given else ok (plain Kind.timestamp, skip_space s)

-- consumeOptionalPrecision, for time64
unfoldable pub parse_time64 : Parser LogicalType
unfolding is_int32_text content expect trim skip_space
parse_time64 s =
    let given =
      bind (parenthesized (skip_space s))
        λ (raw, rest). if is_int32_text (trim raw) then ok (plain Kind.time, rest) else failed in
    if peek b'(' (skip_space s) then given else ok (plain Kind.time, skip_space s)

-- if p.peek(close) { return error }
abbrev pub not_closed : ℕ → Parser (Unit {0})
not_closed close s = if peek close s then failed else ok (tt, s)

abbrev pub after_comma : Text → Text
after_comma [] = []
after_comma (_ ∷ cs) = cs

-- The parsers of the types that have parts, over the parser of types.
module _ (type : Parser LogicalType) where
  unfoldable pub parse_array : Parser LogicalType
  unfolding open_container skip_space expect
  parse_array = do
    close ← open_container
    spaces
    not_closed close
    t ← type
    close_container close
    done (array_of t)

  unfoldable pub parse_nullable : Parser LogicalType
  unfolding open_container skip_space expect
  parse_nullable = do
    close ← open_container
    spaces
    not_closed close
    t ← type
    close_container close
    done (nullable t)

  unfoldable pub parse_low_cardinality : Parser LogicalType
  unfolding open_container skip_space expect
  parse_low_cardinality = do close ← open_container; t ← type; close_container close; done t

  unfoldable pub parse_map : Parser LogicalType
  unfolding open_container skip_space expect
  parse_map = do
    close ← open_container
    k ← type
    spaces
    expect b','
    v ← type
    close_container close
    done (map_of k v)

  -- The loop over the fields of a struct.
  unfoldable pub parse_fields : ℕ → Parser Fields
  unfolding identifier skip_space expect
  parse_fields zero s = out_of_fuel
  parse_fields (suc f) s = bind (identifier s) λ (name, s₁).
      bind (expect b':' (skip_space s₁)) λ (_, s₂). bind (type s₂) λ (t, s₃).
        let more =
          bind (parse_fields f (after_comma (skip_space s₃)))
            λ (fs, s₄). ok (field name t fs, s₄) in
        if peek b',' (skip_space s₃) then more else ok (field name t no_fields, skip_space s₃)

  unfoldable pub parse_struct : ℕ → Parser LogicalType
  unfolding open_container skip_space expect parse_fields
  parse_struct f = do
    close ← open_container
    fs ← parse_fields f
    close_container close
    done (struct_of fs)

  -- The parser for a name.
  unfoldable pub parse_named : ℕ → Text → Parser LogicalType
  unfolding parse_array parse_nullable parse_low_cardinality parse_map parse_struct parse_decimal
      parse_timestamp_tz parse_legacy_timestamp parse_time64 primitive_kind same_text
  parse_named f name =
      if is "array"
      then parse_array
      else if is "map"
      then parse_map
      else if is "struct"
      then parse_struct f
      else if is "nullable"
      then parse_nullable
      else if is "lowcardinality"
      then parse_low_cardinality
      else if is "decimal" || is "numeric" || is "number"
      then parse_decimal
      else if is "money"
      then done (decimal_of (pos 19) (pos 4))
      else if is "smallmoney"
      then done (decimal_of (pos 10) (pos 4))
      else if is "timestamp_tz"
      then parse_timestamp_tz
      else if is "datetime" || is "datetime64" || is "timestamp"
      then parse_legacy_timestamp
      else if is "time64"
      then parse_time64
      else elim (primitive_kind name) [ none ↦ fail | some kind ↦ done (plain kind) ]
    where
      is : Word → Bool
      is w = same_text name (bytes w)

-- parseType
unfoldable pub parse_type : ℕ → Parser LogicalType
unfolding identifier lower parse_named
parse_type zero s = out_of_fuel
parse_type (suc f) s =
    bind (identifier s) λ (name, rest). parse_named (parse_type f) f (lower name) rest

-- The end of the input, and the validation of the type.
abbrev pub whole_type : LogicalType → Text → Parsed LogicalType
whole_type t [] = if is_valid t then ok t else failed
whole_type t (_ ∷ _) = failed

-- ParseType
unfoldable pub parse : Text → Parsed LogicalType
unfolding parse_type is_valid skip_space
parse input =
    bind (parse_type (suc (length input)) (skip_space input))
      λ (t, rest). whole_type t (skip_space rest)
