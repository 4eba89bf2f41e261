-- ===== src/TypeSystem/Bytes.antt =====
-- Bytes of a text and the tests on them that the parser of types makes (internal/typesystem/parser.go).
-- The parser takes each byte as a rune, so its tests of unicode.IsSpace and IsLetter are those of
-- Latin-1; strings.TrimSpace decodes UTF-8.
use o_rabbit.Prelude.{
  ℕ, ◌+◌, ◌-◌, ◌*◌, ◌/◌, ◌%◌, zero, suc, Bool, true, false, ◌&&◌, ◌||◌, List, [], ◌∷◌, ◌++◌, ltb,
  leb, ◌==◌, if◌then◌else◌, String,
}
use Prim.Native.Char.{code}

abbrev pub Text : Type 0
Text = List ℕ

abbrev pub bytes : String → Text
bytes String.[] = []
bytes (String.◌∷◌ c s) = code c ∷ bytes s

unfoldable pub same_text : Text → Text → Bool
same_text [] [] = true
same_text [] (_ ∷ _) = false
same_text (_ ∷ _) [] = false
same_text (x ∷ xs) (y ∷ ys) = x == y && same_text xs ys

-- unicode.IsSpace of a byte
abbrev pub is_space : ℕ → Bool
is_space c = (leb 9 c && leb c 13) || c == 32 || c == 0x85 || c == 0xa0

abbrev pub is_digit : ℕ → Bool
is_digit c = leb b'0' c && leb c b'9'

-- unicode.IsLetter
abbrev pub is_letter : ℕ → Bool
is_letter c =
    (leb b'A' c && leb c b'Z')
    || (leb b'a' c && leb c b'z')
    || c == 0xaa
    || c == 0xb5
    || c == 0xba
    || (leb 0xc0 c && leb c 0xd6)
    || (leb 0xd8 c && leb c 0xf6)
    || (leb 0xf8 c && leb c 0xff)

unfoldable pub is_name_byte : ℕ → Bool
is_name_byte c = is_letter c || is_digit c || c == b'_'

-- strings.ToLower, for the comparison with names of ASCII letters: no other letter that the parser
-- lets into an identifier has a lower case in ASCII.
abbrev pub lower_byte : ℕ → ℕ
lower_byte c = if leb b'A' c && leb c b'Z' then c + 32 else c

unfoldable pub lower : Text → Text
lower [] = []
lower (c ∷ cs) = lower_byte c ∷ lower cs

unfoldable pub skip_space : Text → Text
skip_space [] = []
skip_space (c ∷ cs) = if is_space c then skip_space cs else c ∷ cs

unfoldable pub reverse_onto : Text → Text → Text
reverse_onto acc [] = acc
reverse_onto acc (c ∷ cs) = reverse_onto (c ∷ acc) cs

-- unicode.IsSpace of the runes that UTF-8 writes with one, two and three bytes.
abbrev pub is_ascii_space : ℕ → Bool
is_ascii_space c = (leb 9 c && leb c 13) || c == 32

-- U+0085, U+00A0
abbrev pub is_space_pair : ℕ → ℕ → Bool
is_space_pair a b = a == 0xc2 && (b == 0x85 || b == 0xa0)

-- U+1680, U+2000 to U+200A, U+2028, U+2029, U+202F, U+205F, U+3000
abbrev pub is_space_triple : ℕ → ℕ → ℕ → Bool
is_space_triple a b c =
    (a == 0xe1 && b == 0x9a && c == 0x80)
    || (a == 0xe2
        && b == 0x80
        && ((leb 0x80 c && leb c 0x8a) || c == 0xa8 || c == 0xa9 || c == 0xaf))
    || (a == 0xe2 && b == 0x81 && c == 0x9f)
    || (a == 0xe3 && b == 0x80 && c == 0x80)

-- The bytes of the space that a text starts with; 0 where it starts with none.
unfoldable pub first_space : Text → ℕ
first_space [] = 0
first_space (a ∷ []) = if is_ascii_space a then 1 else 0
first_space (a ∷ b ∷ []) = if is_ascii_space a then 1 else if is_space_pair a b then 2 else 0
first_space (a ∷ b ∷ c ∷ _) =
    if is_ascii_space a
    then 1
    else if is_space_pair a b
    then 2
    else if is_space_triple a b c
    then 3
    else 0

-- The bytes of the space that a text ends with, from the reversed text.
unfoldable pub last_space : Text → ℕ
last_space [] = 0
last_space (c ∷ []) = if is_ascii_space c then 1 else 0
last_space (c ∷ b ∷ []) = if is_ascii_space c then 1 else if is_space_pair b c then 2 else 0
last_space (c ∷ b ∷ a ∷ _) =
    if is_ascii_space c
    then 1
    else if is_space_pair b c
    then 2
    else if is_space_triple a b c
    then 3
    else 0

-- TrimFunc at one end: `left` counts the bytes of the current space that are still to be dropped.
unfoldable pub drop_spaces : (Text → ℕ) → (left : ℕ) → Text → Text
drop_spaces width left [] = []
drop_spaces width (suc left) (c ∷ cs) = drop_spaces width left cs
drop_spaces width zero (c ∷ cs) =
    let w = width (c ∷ cs) in
    let rest = drop_spaces width (w - 1) cs in if w == 0 then c ∷ cs else rest

-- strings.TrimSpace
unfoldable pub trim : Text → Text
unfolding first_space last_space drop_spaces reverse_onto
trim s = reverse_onto [] (drop_spaces last_space 0 (reverse_onto [] (drop_spaces first_space 0 s)))

-- The longest prefix of bytes that meet a test, and the rest.
unfoldable pub span : (ℕ → Bool) → Text → Text × Text
span p [] = ([], [])
span p (c ∷ cs) = let rest = span p cs in if p c then (c ∷ rest.0, rest.1) else ([], c ∷ cs)

-- %d of a number, with a bound on its digits
unfoldable pub show_digits : (bound : ℕ) → ℕ → Text
show_digits zero n = []
show_digits (suc k) n =
    let front = show_digits k (n / 10) in
    if ltb n 10 then (b'0' + n) ∷ [] else front ++ (b'0' + n % 10) ∷ []

-- The value of digits, from the left.
unfoldable pub digits_value : ℕ → Text → ℕ
digits_value acc [] = acc
digits_value acc (c ∷ cs) = digits_value (acc * 10 + (c - b'0')) cs
