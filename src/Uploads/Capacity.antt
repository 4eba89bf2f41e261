-- ===== src/Uploads/Capacity.antt =====
-- The limit on uploads (internal/db/upload_capacity.go): at no time are more slots live than the limit.
use o_rabbit.Prelude.{ℕ, ℤ, ◌+◌, ◌≤◌, ◌≡◌, ap, positive_or, Option, List, arith, ◌==◌}
use o_rabbit.Table.{find_where, update_where}
use o_rabbit.Table.Key.{PrimaryKey-update_where, count_where_mono}
use o_rabbit.Store.{Db}
use o_rabbit.Store.Tx.{Result, ok, upload_fenced, guard-eq-ok, if-eq-ok}
use o_rabbit.Lease.Renew.{Credential}
use o_rabbit.Uploads.Slots.{
  Slot, SlotLease, is_live, reclaim, owns_attempt, acquire_upload, released_slot, matches_slot,
  release_upload,
}
use o_rabbit.Uploads.Grants.{
  WithinLimit, count_where-update_le, reclaim-Reclaimed, reclaim-WithinLimit, grant-WithinLimit,
}

-- One operation at a time: an acquisition under the limit, or a release.
pub data SlotStep (limit : ℤ) (now : ℕ) (slots slots' : List Slot) : Type 0 where
  acquires :
      (c : Credential) (ttl : ℤ) (id_fn token_fn : Result ℕ) (db : Db) (l : Option SlotLease)
      → acquire_upload c now ttl limit id_fn token_fn db slots ≡ ok (l, slots')
      → SlotStep limit now slots slots'
  releases :
      (task_id attempt_id worker_id id token : ℕ)
      → release_upload task_id attempt_id worker_id id token now slots ≡ ok (tt, slots')
      → SlotStep limit now slots slots'

-- Operations in the order of their times, from one time to another.
pub data SlotReach (limit : ℤ) (start : ℕ) (slots : List Slot) : ℕ → List Slot → Type 0 where
  here : SlotReach limit start slots start slots
  next :
      {before now : ℕ} {slots' slots'' : List Slot}
      → SlotReach limit start slots before slots'
      → before ≤ now
      → SlotStep limit now slots' slots''
      → SlotReach limit start slots now slots''

-- Time only makes slots lapse.
later-WithinLimit :
    (limit before now : ℕ) (slots : List Slot)
    → before ≤ now
    → WithinLimit limit before slots
    → WithinLimit limit now slots
later-WithinLimit limit before now slots le w = record {
  attempts_key = w.attempts_key;
  live =
      omega (
        arith,
        w.live,
        count_where_mono (is_live now) (is_live before) slots (λ u p. ground arith),
      );
}

release_upload-WithinLimit :
    (limit task_id attempt_id worker_id id token now : ℕ) (slots slots' : List Slot)
    → WithinLimit limit now slots
    → release_upload task_id attempt_id worker_id id token now slots ≡ ok (tt, slots')
    → WithinLimit limit now slots'
unfolding release_upload
release_upload-WithinLimit limit task_id attempt_id worker_id id token now slots slots' w h =
    let (_, q) = if-eq-ok _ _ _ h in
    let e : update_where (matches_slot task_id attempt_id worker_id id token) (released_slot now)
          slots
        ≡ slots' =
      ap (λ o. o.1) q in
    rw (← e) (record {
      attempts_key = PrimaryKey-update_where _ _ _ slots (λ u. ground arith) w.attempts_key;
      live = omega (
        arith,
        w.live,
        count_where-update_le (is_live now) (matches_slot task_id attempt_id worker_id id token)
            (released_slot now) slots (λ u m q p. ground arith),
      );
    })

step-WithinLimit :
    (limit : ℤ) (now : ℕ) (slots slots' : List Slot)
    → SlotStep limit now slots slots'
    → WithinLimit (positive_or limit 1) now slots
    → WithinLimit (positive_or limit 1) now slots'
unfolding acquire_upload
step-WithinLimit limit now slots slots' (acquires c ttl id_fn token_fn db l h) w =
    let (_, q) = guard-eq-ok (owns_attempt c now db) upload_fenced _ h in
    grant-WithinLimit c (positive_or limit 1) (now + positive_or ttl 120000000000) now id_fn
      token_fn (find_where (λ (u : Slot). u.attempt_id == c.attempt_id) (reclaim now slots))
      (reclaim now slots) slots' l (reclaim-WithinLimit (positive_or limit 1) now slots w)
      (reclaim-Reclaimed now slots) q
step-WithinLimit limit now slots slots' (releases task_id attempt_id worker_id id token h) w =
    release_upload-WithinLimit (positive_or limit 1) task_id attempt_id worker_id id token now slots
      slots' w h

-- Whatever acquisitions and releases run, at times that do not go back, each attempt has at most one
-- slot, and at most as many slots are live as the limit allows (1 where it is not positive).
pub SlotReach-WithinLimit :
    (limit : ℤ) (start : ℕ) (slots : List Slot) (now : ℕ) (slots' : List Slot)
    → WithinLimit (positive_or limit 1) start slots
    → SlotReach limit start slots now slots'
    → WithinLimit (positive_or limit 1) now slots'
SlotReach-WithinLimit limit start slots now slots' w here = w
SlotReach-WithinLimit limit start slots now slots' w (next {before} {slots' = mid} r le step) =
    step-WithinLimit limit now mid slots' step (
      later-WithinLimit (positive_or limit 1) before now mid le
        (SlotReach-WithinLimit limit start slots before mid w r))
