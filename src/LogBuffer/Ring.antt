-- ===== src/LogBuffer/Ring.antt =====
-- New and add of the log buffer (internal/logbuffer/buffer.go).
use o_rabbit.Prelude.{
  ℕ, ◌+◌, ◌-◌, ◌%◌, zero, suc, ℤ, is_positive, pos_part, Bool, true, false, Option, String, List,
  [], ◌∷◌, ◌==◌, length, if◌then◌else◌,
}

-- Entry; a value of Attrs that is no string is `none`.
pub record Entry : Type 0 where
  pub seq : ℕ
  pub time : ℕ
  pub level : String
  pub message : String
  pub attrs : List (String × Option String)

-- The zero Entry.
abbrev pub empty_entry : Entry
empty_entry = record { seq = 0; time = 0; level = ""; message = ""; attrs = [] }

pub record Buffer : Type 0 where
  pub entries : List Entry
  pub next : ℕ
  pub full : Bool
  pub seq : ℕ

abbrev pub default_capacity : ℕ
default_capacity = 10000

-- make([]Entry, n)
unfoldable pub blank : ℕ → List Entry
blank zero = []
blank (suc n) = empty_entry ∷ blank n

unfoldable pub new_buffer : (capacity : ℤ) → Buffer
unfolding blank
new_buffer capacity = record {
  entries = blank (if is_positive capacity then pos_part capacity else default_capacity);
  next = 0;
  full = false;
  seq = 0;
}

-- entries[i]
unfoldable pub entry_at : ℕ → List Entry → Entry
entry_at i [] = empty_entry
entry_at i (x ∷ xs) = let rest = entry_at (i - 1) xs in if i == 0 then x else rest

-- entries[i] = e
unfoldable pub put_at : ℕ → Entry → List Entry → List Entry
put_at i e [] = []
put_at i e (x ∷ xs) = let rest = put_at (i - 1) e xs in if i == 0 then e ∷ xs else x ∷ rest

abbrev pub with_seq : ℕ → Entry → Entry
with_seq n e = record e { seq = n }

unfoldable pub add : Entry → Buffer → Buffer
unfolding put_at
add e b =
    let next = (b.next + 1) % length b.entries in
    record {
      entries = put_at b.next (with_seq (b.seq + 1) e) b.entries;
      next = next;
      full = if next == 0 then true else b.full;
      seq = b.seq + 1;
    }

-- LatestSeq
abbrev pub latest_seq : Buffer → ℕ
latest_seq b = b.seq
