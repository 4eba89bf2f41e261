-- ===== src/LogBuffer/Query.antt =====
-- Query of the log buffer (internal/logbuffer/buffer.go).
use Prim.Native.Char.{code}
use Prim.Native.String.{String}
use text.Mathlib.Text.{◌==◌ as str_eq}
use o_rabbit.Prelude.{
  ℕ, ◌+◌, ◌-◌, ◌%◌, zero, suc, ℤ, is_positive, pos_part, Bool, true, false, not, ◌&&◌, ◌||◌, Option,
  none, some, List, [], ◌∷◌, ◌++◌, ◌==◌, ltb, leb, length, if◌then◌else◌,
}
use o_rabbit.Store.Texts.{trim_space}
use o_rabbit.LogBuffer.Ring.{Entry, Buffer, entry_at}

-- What Query takes from package strings.
pub record Cases : Type 0 where
  pub to_lower : String → String
  pub to_upper : String → String

-- Filter; a zero time is `none`.
pub record Filter : Type 0 where
  pub levels : List String
  pub query : String
  pub since : Option ℕ
  pub until : Option ℕ
  pub before : ℤ
  pub after : ℤ
  pub limit : ℤ

unfoldable pub starts_with : String → String → Bool
starts_with s String.[] = true
starts_with String.[] (String.◌∷◌ c q) = false
starts_with (String.◌∷◌ d s) (String.◌∷◌ c q) = code d == code c && starts_with s q

-- strings.Contains
unfoldable pub contains_text : String → String → Bool
unfolding starts_with
contains_text String.[] q = starts_with String.[] q
contains_text (String.◌∷◌ c s) q = starts_with (String.◌∷◌ c s) q || contains_text s q

-- The entry is on the page.
unfoldable pub is_on_page : Filter → Entry → Bool
is_on_page f e = not (
    (is_positive f.before && leb (pos_part f.before) e.seq)
    || (is_positive f.after && leb e.seq (pos_part f.after)))

-- The position of the i-th newest entry.
abbrev pub newest_at : Buffer → ℕ → ℕ
newest_at b i = (b.next + length b.entries - (1 + i)) % length b.entries

abbrev pub size_of : Buffer → ℕ
size_of b = if b.full then length b.entries else b.next

unfoldable pub reversed : List Entry → List Entry → List Entry
reversed acc [] = acc
reversed acc (x ∷ xs) = reversed (x ∷ acc) xs

unfoldable pub cut : ℕ → List Entry → List Entry
cut n [] = []
cut n (x ∷ xs) = let rest = cut (n - 1) xs in if n == 0 then [] else x ∷ rest

abbrev pub page_limit : ℤ → ℕ
page_limit limit = if is_positive limit && leb (pos_part limit) 1000 then pos_part limit else 200

-- The order and the size of the page.
abbrev pub page : Filter → List Entry → List Entry
page f items = cut (page_limit f.limit) (if is_positive f.after then reversed [] items else items)

module _ (cases : Cases) where
  unfoldable pub canonical_level : String → String
  unfolding trim_space
  canonical_level l =
      let up = cases.to_upper (trim_space l) in if str_eq up "WARNING" then "WARN" else up

  -- levels[level], for the map of the canonical levels
  unfoldable pub has_level : List String → String → Bool
  unfolding canonical_level
  has_level [] level = false
  has_level (l ∷ ls) level = str_eq (canonical_level l) level || has_level ls level

  unfoldable pub attr_matches : String → List (String × Option String) → Bool
  unfolding contains_text
  attr_matches q [] = false
  attr_matches q ((k, none) ∷ rest) = contains_text (cases.to_lower k) q || attr_matches q rest
  attr_matches q ((k, some v) ∷ rest) =
      contains_text (cases.to_lower k) q
      || contains_text (cases.to_lower v) q
      || attr_matches q rest

  unfoldable pub entry_matches : String → Entry → Bool
  unfolding contains_text attr_matches
  entry_matches q e = contains_text (cases.to_lower e.message) q || attr_matches q e.attrs

  abbrev pub is_older : ℕ → Option ℕ → Bool
  is_older t none = false
  is_older t (some since) = ltb t since

  abbrev pub is_newer : ℕ → Option ℕ → Bool
  is_newer t none = false
  is_newer t (some until) = ltb until t

  abbrev pub no_levels : List String → Bool
  no_levels [] = true
  no_levels (l ∷ ls) = false

  -- The entry passes the tests on level, time and text.
  unfoldable pub is_selected : Filter → Entry → Bool
  unfolding has_level entry_matches trim_space
  is_selected f e =
      let q = cases.to_lower (trim_space f.query) in
      (no_levels f.levels || has_level f.levels e.level)
      && not (is_older e.time f.since || is_newer e.time f.until)
      && (str_eq q "" || entry_matches q e)

  -- The loop from the i-th newest entry on, with the items and the total so far.
  unfoldable pub scan : Filter → Buffer → (i rounds : ℕ) → List Entry × ℕ → List Entry × ℕ
  unfolding is_selected is_on_page entry_at
  scan f b i zero (items, total) = (items, total)
  scan f b i (suc n) (items, total) =
      let e = entry_at (newest_at b i) b.entries in
      let skipped = scan f b (i + 1) n (items, total) in
      let counted = scan f b (i + 1) n (items, total + 1) in
      let taken = scan f b (i + 1) n (items ++ e ∷ [], total + 1) in
      if not (is_selected f e) then skipped else if is_on_page f e then taken else counted

  unfoldable pub query : Filter → Buffer → List Entry × ℕ
  unfolding scan reversed cut
  query f b = let found = scan f b 0 (size_of b) ([], 0) in (page f found.0, found.1)
