-- ===== src/Tests/Logs.antt =====
-- A log buffer of two entries after three records, and queries on it.
use o_rabbit.Prelude.{ℕ, pos, ◌≡◌, refl, none, List, [], ◌∷◌}
use o_rabbit.LogBuffer.Ring.{Entry, new_buffer, latest_seq, with_seq, add}
use o_rabbit.LogBuffer.Query.{Cases, Filter, query}
use o_rabbit.LogBuffer.Search.{log, numbered, search, query-search}
use o_rabbit.LogBuffer.Query.{cut}

abbrev cases : Cases
cases = record { to_lower = λ s. s; to_upper = λ s. s }

abbrev entry : ℕ → Entry
entry time = record { seq = 0; time = time; level = "INFO"; message = "started"; attrs = [] }

abbrev records : List Entry
records = entry 10 ∷ entry 20 ∷ entry 30 ∷ []

-- The tail behind the first record, oldest first.
abbrev tail_filter : Filter
tail_filter = record {
  levels = "INFO" ∷ [];
  query = "";
  since = none;
  until = none;
  before = pos 0;
  after = pos 1;
  limit = pos 1;
}

tail_answers :
    query cases tail_filter (log records (new_buffer (pos 2))) ≡ (with_seq 2 (entry 20) ∷ [], 2)
unfolding query add new_buffer
tail_answers = refl

query-search_example :
    (query cases tail_filter (log records (new_buffer (pos 2)))
      ≡ search cases tail_filter (cut 2 (numbered 0 [] records)))
    × (latest_seq (log records (new_buffer (pos 2))) ≡ 3)
query-search_example = query-search cases tail_filter (pos 2) records
