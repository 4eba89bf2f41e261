-- ===== src/Uploads/Slots.antt =====
-- AcquireUploadCapacity and ReleaseUploadCapacity (internal/db/upload_capacity.go) on the table
-- upload_capacity_leases (internal/db/migrate.go, schemaV17).
use o_rabbit.Prelude.{
  ℕ, ◌+◌, ℤ, positive_or, Bool, true, false, not, ◌&&◌, ◌||◌, Option, none, some, List, [], ◌∷◌,
  ◌++◌, ltb, leb, ◌==◌, if◌then◌else◌,
}
use o_rabbit.Table.{find_where, count_where, any_where, update_where}
use o_rabbit.Store.{Db}
use o_rabbit.Store.Tx.{Result, ok, err, guard, upload_fenced, constraint, ◌>>=◌, ◌>>◌}
use o_rabbit.Lease.Renew.{Credential, runs_attempt, holds_lease}

pub data SlotStatus : Type 0 where
  active released expired : SlotStatus

abbrev pub slot_is_active : SlotStatus → Bool
slot_is_active SlotStatus.active = true
slot_is_active _ = false

-- A row of upload_capacity_leases.
pub record Slot : Type 0 where
  pub id : ℕ
  pub task_id : ℕ
  pub attempt_id : ℕ
  pub worker_id : ℕ
  pub lease_token : ℕ
  pub status : SlotStatus
  pub lease_deadline : ℕ
  pub created_at : ℕ
  pub updated_at : ℕ
  pub released_at : Option ℕ

-- What a worker gets.
pub record SlotLease : Type 0 where
  pub id : ℕ
  pub task_id : ℕ
  pub attempt_id : ℕ
  pub worker_id : ℕ
  pub token : ℕ
  pub deadline : ℕ

abbrev pub slot_lapsed : ℕ → Slot → Bool
slot_lapsed now u = slot_is_active u.status && leb u.lease_deadline now

abbrev pub lapsed_slot : ℕ → Slot → Slot
lapsed_slot now u = record u { status = SlotStatus.expired; updated_at = now }

unfoldable pub reclaim : (now : ℕ) → List Slot → List Slot
reclaim now slots = update_where (slot_lapsed now) (lapsed_slot now) slots

-- status='ACTIVE' AND lease_deadline>now
abbrev pub is_live : ℕ → Slot → Bool
is_live now u = slot_is_active u.status && ltb now u.lease_deadline

abbrev pub lease_of_slot : (deadline : ℕ) → Slot → SlotLease
lease_of_slot deadline u = record {
  id = u.id;
  task_id = u.task_id;
  attempt_id = u.attempt_id;
  worker_id = u.worker_id;
  token = u.lease_token;
  deadline = deadline;
}

-- WHERE id=? AND status='ACTIVE'
abbrev pub active_slot : ℕ → Slot → Bool
active_slot id u = u.id == id && slot_is_active u.status

abbrev pub extended_slot : (deadline now : ℕ) → Slot → Slot
extended_slot deadline now u = record u { lease_deadline = deadline; updated_at = now }

unfoldable pub extend_slot :
    (deadline now : ℕ) → Slot → List Slot → Result (Option SlotLease × List Slot)
extend_slot deadline now u slots = ok (
  some (lease_of_slot deadline u),
  update_where (active_slot u.id) (extended_slot deadline now) slots,
)

abbrev pub granted_lease : Credential → (id token deadline : ℕ) → SlotLease
granted_lease c id token deadline = record {
  id = id;
  task_id = c.task_id;
  attempt_id = c.attempt_id;
  worker_id = c.worker_id;
  token = token;
  deadline = deadline;
}

abbrev pub new_slot : Credential → (id token deadline now : ℕ) → Slot
new_slot c id token deadline now = record {
  id = id;
  task_id = c.task_id;
  attempt_id = c.attempt_id;
  worker_id = c.worker_id;
  lease_token = token;
  status = SlotStatus.active;
  lease_deadline = deadline;
  created_at = now;
  updated_at = now;
  released_at = none;
}

abbrev pub taken_slot : Credential → (id token deadline now : ℕ) → Slot → Slot
taken_slot c id token deadline now u = record u {
  id = id;
  task_id = c.task_id;
  worker_id = c.worker_id;
  lease_token = token;
  status = SlotStatus.active;
  lease_deadline = deadline;
  updated_at = now;
  released_at = none;
}

-- PRIMARY KEY(id), UNIQUE(attempt_id), UNIQUE(lease_token)
abbrev pub slot_conflicts : (id token attempt_id : ℕ) → Slot → Bool
slot_conflicts id token attempt_id u =
    u.id == id || u.lease_token == token || u.attempt_id == attempt_id

abbrev pub other_conflicts : (id token attempt_id : ℕ) → Slot → Bool
other_conflicts id token attempt_id u =
    not (u.attempt_id == attempt_id) && (u.id == id || u.lease_token == token)

-- The INSERT where the attempt has no row yet, or the UPDATE of the row that it has.
abbrev pub write_slot :
    Credential
    → (id token deadline now : ℕ) → Option Slot
    → List Slot
    → Result (Option SlotLease × List Slot)
write_slot c id token deadline now none slots =
    if any_where (slot_conflicts id token c.attempt_id) slots
    then err constraint
    else ok
        (some (granted_lease c id token deadline), slots ++ new_slot c id token deadline now ∷ [])
write_slot c id token deadline now (some u) slots =
    if any_where (other_conflicts id token c.attempt_id) slots
    then err constraint
    else ok (
      some (granted_lease c id token deadline),
      update_where (λ (x : Slot). x.attempt_id == c.attempt_id) (taken_slot c id token deadline now)
          slots,
    )

-- A slot is free, or the transaction commits without a grant.
unfoldable pub take_slot :
    Credential
    → (limit deadline now : ℕ) → Result ℕ
    → Result ℕ
    → Option Slot
    → List Slot
    → Result (Option SlotLease × List Slot)
take_slot c limit deadline now id_fn token_fn existing slots =
    if leb limit (count_where (is_live now) slots)
    then ok (none, slots)
    else id_fn >>= λ id. token_fn >>= λ token. write_slot c id token deadline now existing slots

-- status == "ACTIVE" && out.TaskID == taskID && out.WorkerID == workerID
abbrev pub is_own : Credential → Slot → Bool
is_own c u = slot_is_active u.status && u.task_id == c.task_id && u.worker_id == c.worker_id

abbrev pub grant :
    Credential
    → (limit deadline now : ℕ) → Result ℕ
    → Result ℕ
    → Option Slot
    → List Slot
    → Result (Option SlotLease × List Slot)
grant c limit deadline now id_fn token_fn none slots =
    take_slot c limit deadline now id_fn token_fn none slots
grant c limit deadline now id_fn token_fn (some u) slots =
    if is_own c u
    then extend_slot deadline now u slots
    else take_slot c limit deadline now id_fn token_fn (some u) slots

-- The query on task_attempts and tasks: the attempt is held, and is the current one of its RUNNING task.
abbrev pub owns_attempt : Credential → ℕ → Db → Bool
owns_attempt c now db =
    any_where (holds_lease c now) db.attempts && any_where (runs_attempt c) db.tasks

unfoldable pub acquire_upload :
    Credential
    → (now : ℕ) → (ttl limit : ℤ) → Result ℕ
    → Result ℕ
    → Db
    → List Slot
    → Result (Option SlotLease × List Slot)
unfolding reclaim extend_slot take_slot
acquire_upload c now ttl limit id_fn token_fn db slots =
    guard (owns_attempt c now db) upload_fenced
    >> grant c (positive_or limit 1) (now + positive_or ttl 120000000000) now id_fn token_fn
        (find_where (λ (u : Slot). u.attempt_id == c.attempt_id) (reclaim now slots))
        (reclaim now slots)

abbrev pub released_slot : (now : ℕ) → Slot → Slot
released_slot now u =
    if slot_is_active u.status
    then record u { status = SlotStatus.released; updated_at = now; released_at = some now }
    else record u { updated_at = now }

abbrev pub matches_slot : (task_id attempt_id worker_id id token : ℕ) → Slot → Bool
matches_slot task_id attempt_id worker_id id token u =
    u.id == id
    && u.task_id == task_id
    && u.attempt_id == attempt_id
    && u.worker_id == worker_id
    && u.lease_token == token

unfoldable pub release_upload :
    (task_id attempt_id worker_id id token now : ℕ) → List Slot → Result (Unit {0} × List Slot)
release_upload task_id attempt_id worker_id id token now slots =
    if count_where (matches_slot task_id attempt_id worker_id id token) slots == 1
    then ok (
      tt,
      update_where (matches_slot task_id attempt_id worker_id id token) (released_slot now) slots,
    )
    else err upload_fenced
