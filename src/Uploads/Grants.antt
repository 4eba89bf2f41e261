-- ===== src/Uploads/Grants.antt =====
-- The writes of an acquisition (internal/db/upload_capacity.go) keep the limit on live slots.
use o_rabbit.Prelude.{
  ℕ, suc, ◌+◌, ◌≤◌, ◌<◌, ◌≡◌, refl, ap, Bool, true, Option, none, some, List, [], ◌∷◌, ◌++◌, Memᴰ,
  arith, leb, ◌==◌, Bool-cases, inl, inr,
}
use o_rabbit.Table.{count_where, any_where, update_where}
use o_rabbit.Table.Laws.{any_where-false, mem-update_where}
use o_rabbit.Table.Keyed.{Each}
use o_rabbit.Table.Key.{PrimaryKey, PrimaryKey-update_where, PrimaryKey-append}
use o_rabbit.Store.Tx.{Result, ok, ◌>>=◌, >>=-eq-ok, ok-injective}
use o_rabbit.Lease.Renew.{Credential}
use o_rabbit.Uploads.Slots.{
  Slot, SlotLease, slot_is_active, is_live, slot_lapsed, lapsed_slot, reclaim, active_slot,
  extended_slot, extend_slot, new_slot, taken_slot, slot_conflicts, other_conflicts, write_slot,
  take_slot, is_own, grant,
}

-- An UPDATE that gives the property p to no row without it does not increase the count of p.
pub count_where-update_le :
    (p q : Slot → Bool) (f : Slot → Slot) (us : List Slot)
    → Each (λ u. q u ≡ true → p (f u) ≡ true → p u ≡ true) us
    → count_where p (update_where q f us) ≤ count_where p us
unfolding count_where update_where
count_where-update_le p q f [] h = omega arith
count_where-update_le p q f (u ∷ us) h =
    ground (arith, h u (Memᴰ.head refl), count_where-update_le p q f us (λ x m. h x (Memᴰ.tail m)))

-- Any UPDATE increases it by at most the rows that it touches.
count_where-update_add :
    (p q : Slot → Bool) (f : Slot → Slot) (us : List Slot)
    → count_where p (update_where q f us) ≤ count_where p us + count_where q us
unfolding count_where update_where
count_where-update_add p q f [] = omega arith
count_where-update_add p q f (u ∷ us) = ground (arith, count_where-update_add p q f us)

count_where-append_le :
    (p : Slot → Bool) (us : List Slot) (u : Slot)
    → count_where p (us ++ u ∷ []) ≤ suc (count_where p us)
unfolding count_where
count_where-append_le p [] u = ground arith
count_where-append_le p (x ∷ us) u = ground (arith, count_where-append_le p us u)

-- UNIQUE(attempt_id), and at most `limit` live slots.
pub record WithinLimit (limit now : ℕ) (slots : List Slot) : Type 0 where
  pub attempts_key : PrimaryKey (λ (u : Slot). u.attempt_id) slots
  pub live : count_where (is_live now) slots ≤ limit

-- After the reclaim, every ACTIVE slot is live.
abbrev pub Reclaimed : ℕ → List Slot → Type 0
Reclaimed now slots = Each (λ u. slot_is_active u.status ≡ true → is_live now u ≡ true) slots

pub reclaim-Reclaimed : (now : ℕ) (slots : List Slot) → Reclaimed now (reclaim now slots)
unfolding reclaim
reclaim-Reclaimed now slots u m e =
    let (x, mx, ex) = mem-update_where _ _ slots m in ground (arith, e, ex)

pub reclaim-WithinLimit :
    (limit now : ℕ) (slots : List Slot)
    → WithinLimit limit now slots
    → WithinLimit limit now (reclaim now slots)
unfolding reclaim
reclaim-WithinLimit limit now slots w = record {
  attempts_key = PrimaryKey-update_where _ _ _ slots (λ u. refl) w.attempts_key;
  live = omega (
    arith,
    w.live,
    count_where-update_le (is_live now) (slot_lapsed now) (lapsed_slot now) slots
        (λ u m q p. ground arith),
  );
}

module _ (c : Credential) (limit deadline now : ℕ) where
  extend_slot-WithinLimit :
      (u : Slot) (slots slots' : List Slot) (l : Option SlotLease)
      → WithinLimit limit now slots
      → Reclaimed now slots
      → extend_slot deadline now u slots ≡ ok (l, slots')
      → WithinLimit limit now slots'
  unfolding extend_slot
  extend_slot-WithinLimit u slots slots' l w k h =
      let e : update_where (active_slot u.id) (extended_slot deadline now) slots ≡ slots' =
        ap (λ o. o.1) (ok-injective h) in
      rw (← e) (record {
        attempts_key = PrimaryKey-update_where _ _ _ slots (λ x. refl) w.attempts_key;
        live = omega (
          arith,
          w.live,
          count_where-update_le (is_live now) (active_slot u.id) (extended_slot deadline now) slots
              (λ x m q p. k x m (ground arith)),
        );
      })

  write_slot-WithinLimit :
      (id token : ℕ) (existing : Option Slot) (slots slots' : List Slot) (l : Option SlotLease)
      → WithinLimit limit now slots
      → count_where (is_live now) slots < limit
      → write_slot c id token deadline now existing slots ≡ ok (l, slots')
      → WithinLimit limit now slots'
  write_slot-WithinLimit id token none slots slots' l w free h =
      elim (Bool-cases (any_where (slot_conflicts id token c.attempt_id) slots)) [
        | inl clash ↦ cc (rw clash at h)
        | inr fresh ↦
            let e : slots ++ new_slot c id token deadline now ∷ [] ≡ slots' =
              ap (λ o. o.1) (ok-injective (rw fresh at h)) in
            rw (← e) (record {
              attempts_key =
                  PrimaryKey-append _ slots (new_slot c id token deadline now)
                    (λ u m q. ground (
                      arith,
                      any_where-false (slot_conflicts id token c.attempt_id) slots fresh m,
                      q,
                    ))
                    w.attempts_key;
              live = omega (
                arith,
                count_where-append_le (is_live now) slots (new_slot c id token deadline now),
              );
            })
      ]
  write_slot-WithinLimit id token (some u) slots slots' l w free h =
      elim (Bool-cases (any_where (other_conflicts id token c.attempt_id) slots)) [
        | inl clash ↦ cc (rw clash at h)
        | inr fresh ↦
            let e : update_where (λ (x : Slot). x.attempt_id == c.attempt_id)
                  (taken_slot c id token deadline now) slots
                ≡ slots' =
              ap (λ o. o.1) (ok-injective (rw fresh at h)) in
            rw (← e) (record {
              attempts_key = PrimaryKey-update_where _ _ _ slots (λ x. refl) w.attempts_key;
              live = omega (
                arith,
                w.attempts_key c.attempt_id,
                count_where-update_add (is_live now) (λ (x : Slot). x.attempt_id == c.attempt_id)
                    (taken_slot c id token deadline now) slots,
              );
            })
      ]

  take_slot-WithinLimit :
      (id_fn token_fn : Result ℕ) (existing : Option Slot) (slots slots' : List Slot)
      (l : Option SlotLease)
      → WithinLimit limit now slots
      → take_slot c limit deadline now id_fn token_fn existing slots ≡ ok (l, slots')
      → WithinLimit limit now slots'
  unfolding take_slot
  take_slot-WithinLimit id_fn token_fn existing slots slots' l w h =
      elim (Bool-cases (leb limit (count_where (is_live now) slots))) [
        | inl full ↦
            let e : slots ≡ slots' = ap (λ o. o.1) (ok-injective (rw full at h)) in rw (← e) w
        | inr free ↦
            let (id, _, h₁) =
              >>=-eq-ok id_fn
                (λ id. token_fn >>= λ token. write_slot c id token deadline now existing slots)
                (rw free at h) in
            let (token, _, h₂) =
              >>=-eq-ok token_fn (λ token. write_slot c id token deadline now existing slots) h₁ in
            write_slot-WithinLimit id token existing slots slots' l w (ground arith) h₂
      ]

  pub grant-WithinLimit :
      (id_fn token_fn : Result ℕ) (existing : Option Slot) (slots slots' : List Slot)
      (l : Option SlotLease)
      → WithinLimit limit now slots
      → Reclaimed now slots
      → grant c limit deadline now id_fn token_fn existing slots ≡ ok (l, slots')
      → WithinLimit limit now slots'
  grant-WithinLimit id_fn token_fn none slots slots' l w k h =
      take_slot-WithinLimit id_fn token_fn none slots slots' l w h
  grant-WithinLimit id_fn token_fn (some u) slots slots' l w k h = elim (Bool-cases (is_own c u)) [
    | inl own ↦ extend_slot-WithinLimit u slots slots' l w k (rw own at h)
    | inr other ↦ take_slot-WithinLimit id_fn token_fn (some u) slots slots' l w (rw other at h)
  ]
