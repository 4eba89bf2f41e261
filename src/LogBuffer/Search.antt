-- ===== src/LogBuffer/Search.antt =====
-- A query of the log buffer answers from the list of the newest records (internal/logbuffer/buffer.go).
use mathlib.Core.List.{append_assoc, append-nil}
use o_rabbit.Prelude.{
  ℕ, ◌+◌, ◌-◌, ◌<◌, ◌≤◌, zero, suc, ℤ, is_positive, pos_part, ◌≡◌, refl, sym, ◌∙◌, ap, ◌&&◌, List,
  [], ◌∷◌, ◌++◌, arith, length, if◌then◌else◌, Bool-cases, inl, inr,
}
use o_rabbit.Table.{count_where, select_where}
use o_rabbit.LogBuffer.Ring.{
  Entry, Buffer, new_buffer, blank, add, entry_at, with_seq, latest_seq, default_capacity,
}
use o_rabbit.LogBuffer.Query.{
  Cases, Filter, is_selected, is_on_page, newest_at, scan, size_of, cut, page, query,
}
use o_rabbit.LogBuffer.Recent.{
  visit, recent, IsRing, add-IsRing, recent-add, cut-cons, length-put_at,
}

-- The buffer after records, the oldest first.
abbrev pub log : List Entry → Buffer → Buffer
log [] b = b
log (e ∷ es) b = log es (add e b)

-- All records with their sequence numbers, the newest first.
abbrev pub numbered : (seq : ℕ) → (newest : List Entry) → List Entry → List Entry
numbered seq newest [] = newest
numbered seq newest (e ∷ es) = numbered (seq + 1) (with_seq (seq + 1) e ∷ newest) es

abbrev pub capacity_of : ℤ → ℕ
capacity_of capacity = if is_positive capacity then pos_part capacity else default_capacity

cut-cut : (k m : ℕ) (xs : List Entry) → k ≤ m → cut k (cut m xs) ≡ cut k xs
unfolding cut
cut-cut k m [] h = refl
cut-cut k m (x ∷ xs) h = ground (arith, cut-cut (k - 1) (m - 1) xs)

cut-cons_cut : (m : ℕ) (x : Entry) (xs : List Entry) → 0 < m → cut m (x ∷ cut m xs) ≡ cut m (x ∷ xs)
cut-cons_cut m x xs h =
    cut-cons m x (cut m xs) h
    ∙ ap (λ rest. x ∷ rest) (cut-cut (m - 1) m xs (omega arith))
    ∙ sym (cut-cons m x xs h)

length-add : (e : Entry) (b : Buffer) → length (add e b).entries ≡ length b.entries
unfolding add
length-add e b = length-put_at b.next (with_seq (b.seq + 1) e) b.entries

seq-add : (e : Entry) (b : Buffer) → (add e b).seq ≡ b.seq + 1
unfolding add
seq-add e b = refl

recent-log :
    (es : List Entry) (b : Buffer) (newest : List Entry)
    → IsRing b
    → recent b ≡ cut (length b.entries) newest
    → (recent (log es b) ≡ cut (length b.entries) (numbered b.seq newest es))
      × (latest_seq (log es b) ≡ b.seq + length es)
recent-log [] b newest r h = (h, omega arith)
recent-log (e ∷ es) b newest r h =
    let cap = length b.entries in
    let x = with_seq (b.seq + 1) e in
    let now : recent (add e b) ≡ cut cap (x ∷ newest) =
      recent-add e b r
      ∙ ap (λ xs. cut cap (x ∷ xs)) h
      ∙ cut-cons_cut cap x newest (omega (arith, r.within)) in
    let same = length-add e b in
    let (rest, last) =
      recent-log es (add e b) (x ∷ newest) (add-IsRing e b r)
        (now ∙ ap (λ k. cut k (x ∷ newest)) (sym same)) in
    (
      rest
          ∙ ap (λ k. cut k (numbered (add e b).seq (x ∷ newest) es)) same
          ∙ ap (λ k. cut cap (numbered k (x ∷ newest) es)) (seq-add e b),
      omega (arith, last, seq-add e b),
    )

length-blank : (n : ℕ) → length (blank n) ≡ n
unfolding blank
length-blank zero = refl
length-blank (suc n) = ap suc (length-blank n)

capacity_positive : (capacity : ℤ) → 0 < capacity_of capacity
capacity_positive capacity = ground arith

both {ℓ} : {A : Type ℓ} {xs ys : A} {m n : ℕ} → xs ≡ ys → m ≡ n → ◌≡◌ {A = A × ℕ} (xs, m) (ys, n)
both e e' = rw (e, e') refl

module _ (cases : Cases) (f : Filter) where
  -- What a query asks of a list of records.
  abbrev pub search : List Entry → List Entry × ℕ
  search xs = (
    page f (select_where (λ e. is_selected cases f e && is_on_page f e) xs),
    count_where (is_selected cases f) xs,
  )

  scan-visit :
      (b : Buffer) (i n : ℕ) (items : List Entry) (total : ℕ)
      → scan cases f b i n (items, total) ≡ (
        items ++ select_where (λ e. is_selected cases f e && is_on_page f e) (visit b i n),
        total + count_where (is_selected cases f) (visit b i n),
      )
  unfolding scan visit select_where count_where
  scan-visit b i zero items total = both (sym (append-nil items)) (omega arith)
  scan-visit b i (suc n) items total =
      let e = entry_at (newest_at b i) b.entries in
      elim (Bool-cases (is_selected cases f e)) [
        | inr out ↦ rw out (scan-visit b (i + 1) n items total)
        | inl selected ↦ elim (Bool-cases (is_on_page f e)) [
          | inl shown ↦
              rw (selected, shown)
                (scan-visit b (i + 1) n (items ++ e ∷ []) (total + 1)
                  ∙ both (append_assoc items (e ∷ []) _) (omega arith))
          | inr hidden ↦
              rw (selected, hidden)
                (scan-visit b (i + 1) n items (total + 1) ∙ both refl (omega arith))
        ]
      ]

  scan-recent :
      (b : Buffer)
      → scan cases f b 0 (size_of b) ([], 0) ≡ (
        select_where (λ e. is_selected cases f e && is_on_page f e) (recent b),
        count_where (is_selected cases f) (recent b),
      )
  scan-recent b = scan-visit b 0 (size_of b) [] 0 ∙ both refl (omega arith)

  -- However many records were logged, a query answers exactly as from the list of all records, the
  -- newest first and numbered from 1, cut at the capacity: the page and the total count what matches
  -- among the records that the ring still holds. The latest sequence number is that of all records.
  pub query-search :
      (capacity : ℤ) (es : List Entry)
      → (query cases f (log es (new_buffer capacity))
          ≡ search (cut (capacity_of capacity) (numbered 0 [] es)))
        × (latest_seq (log es (new_buffer capacity)) ≡ length es)
  unfolding query new_buffer cut visit
  query-search capacity es =
      let size = length-blank (capacity_of capacity) in
      let (held, last) =
        recent-log es (new_buffer capacity) []
          (record { within = omega (arith, size, capacity_positive capacity) }) refl in
      (
        ap (λ o. (page f o.0, o.1)) (scan-recent (log es (new_buffer capacity)))
            ∙ ap search (held ∙ ap (λ k. cut k (numbered 0 [] es)) size),
        last ∙ omega arith,
      )
