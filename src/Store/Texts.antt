-- ===== src/Store/Texts.antt =====
-- Texts of the store, where the code looks into them: strings.TrimSpace, and the trimming test.
use Prim.Native.Char.{code}
use Prim.Native.String.{String}
use text.Mathlib.Text.{◌==◌ as str_eq}
use o_rabbit.Prelude.{ℕ, Bool, ◌||◌, ◌&&◌, ◌==◌, leb, if◌then◌else◌}

-- unicode.IsSpace
abbrev pub is_space : ℕ → Bool
is_space c =
    (leb 9 c && leb c 13)
    || c == 32
    || c == 0x85
    || c == 0xa0
    || c == 0x1680
    || (leb 0x2000 c && leb c 0x200a)
    || c == 0x2028
    || c == 0x2029
    || c == 0x202f
    || c == 0x205f
    || c == 0x3000

unfoldable pub drop_space : String → String
drop_space String.[] = String.[]
drop_space (String.◌∷◌ c s) = if is_space (code c) then drop_space s else String.◌∷◌ c s

unfoldable pub reverse_onto : String → String → String
reverse_onto acc String.[] = acc
reverse_onto acc (String.◌∷◌ c s) = reverse_onto (String.◌∷◌ c acc) s

-- strings.TrimSpace
unfoldable pub trim_space : String → String
unfolding drop_space reverse_onto
trim_space s = reverse_onto String.[] (drop_space (reverse_onto String.[] (drop_space s)))

-- `s = strings.TrimSpace(s); if s == "" { s = d }`
unfoldable pub trimmed_or : String → String → String
unfolding trim_space
trimmed_or s d = let t = trim_space s in if str_eq t "" then d else t
