-- ===== src/Lease/PreserveResults.antt =====
-- Completing and abandoning an attempt (internal/db/attempts.go) keep the tables well formed.
use o_rabbit.Table.{count_where}
use o_rabbit.Table.Laws.{find_where-some}
use o_rabbit.Prelude.{ℕ, true, String, Bool-cases, Memᴰ, ◌≡◌, refl, arith, leb, inl, inr, ◌==◌}
use o_rabbit.Store.{Task, Attempt, Db}
use o_rabbit.Store.Status.{AttemptStatus}
use o_rabbit.Store.Tx.{ok, guard, attempt_fenced, ◌>>◌, >>=-eq-ok, guard-eq-ok, or_error-eq-ok}
use o_rabbit.Store.Events.{Sha}
use o_rabbit.Lease.Policy.{LeasePolicy, normalized}
use o_rabbit.Lease.Renew.{Credential}
use o_rabbit.Lease.Expire.{active_attempt, quarantined_task, retried_task}
use o_rabbit.Lease.Judge.{Report, ReportedStatus, other}
use o_rabbit.Lease.Complete.{
  Reply, running_task, final_attempt_status, finished_attempt, finished_task, recorded_db, complete,
}
use o_rabbit.Lease.CompleteParts.{complete-eq-ok}
use o_rabbit.Lease.Abandon.{
  owned_attempt, held_task, abandoned_attempt, find_abandoned, abandon_writes, abandon,
}
use o_rabbit.Lease.WellFormed.{attempts-Keyed, WellFormed, RowWise, WellFormed-updates}

-- A reported status is never ACTIVE.
pub final_attempt_status-ne-active :
    (s : ReportedStatus) {st : AttemptStatus}
    → final_attempt_status s ≡ ok st
    → ¬ (st ≡ AttemptStatus.active)
final_attempt_status-ne-active ReportedStatus.succeeded h e = cc
final_attempt_status-ne-active ReportedStatus.failed h e = cc
final_attempt_status-ne-active ReportedStatus.canceled h e = cc
final_attempt_status-ne-active (other s) h e = cc

module _ (c : Credential) (r : Report) (digest now : ℕ) (status : AttemptStatus) (db : Db) where
  result_rows :
      ¬ (status ≡ AttemptStatus.active)
      → RowWise db
          (active_attempt c.attempt_id)
          (finished_attempt r digest now status)
          (running_task c)
          (finished_task r now)
  unfolding finished_attempt finished_task
  result_rows final = record {
    attempt_id = λ a. refl;
    task_id = λ t. refl;
    holds = λ t h. ground arith;
    fit = λ a t m n h. ground arith;
  }

-- An accepted result keeps the tables well formed, and so does one that was known already.
pub complete-WellFormed :
    (sha : Sha) (c : Credential) (r : Report) (master_now now : ℕ) (db : Db) {out : Reply × Db}
    → WellFormed db
    → complete sha c r master_now now db ≡ ok out
    → WellFormed out.1
unfolding recorded_db
complete-WellFormed sha c r master_now now db w h =
    let (f, found, cases) = complete-eq-ok sha c r master_now now db h in
    elim cases [
      | inl known ↦ rw (← known.1) w
      | inr new ↦ rw (← new.1.result) (
          WellFormed-updates _ _ _ _ db _
            (result_rows c r _ now new.1.status db
              (final_attempt_status-ne-active r.status new.1.final))
            w refl refl)
    ]

-- The attempt that an abandonment found, among the rows with its id.
abbrev IsFound : (attempt_id worker_id task_id : ℕ) → Db → Type 0
IsFound attempt_id worker_id task_id db =
    (a : Attempt)
    → Memᴰ a db.attempts
    → a.id ≡ attempt_id
    → (a.task_id ≡ task_id) × (a.worker_id ≡ worker_id)

module _ (task_id attempt_id worker_id : ℕ) (reason : String) (now : ℕ) (db : Db)
    (found : IsFound attempt_id worker_id task_id db) where
  retry_rows :
      (next : ℕ)
      → RowWise db
          (owned_attempt task_id attempt_id worker_id)
          (abandoned_attempt reason now)
          (held_task task_id attempt_id)
          (retried_task reason next)
  retry_rows next = record {
    attempt_id = λ a. refl;
    task_id = λ t. refl;
    holds = λ t h. ground arith;
    fit = λ a t m n h. ground (arith, found a m);
  }

  quarantine_rows :
      RowWise db
        (owned_attempt task_id attempt_id worker_id)
        (abandoned_attempt reason now)
        (held_task task_id attempt_id)
        (quarantined_task reason now)
  quarantine_rows = record {
    attempt_id = λ a. refl;
    task_id = λ t. refl;
    holds = λ t h. ground arith;
    fit = λ a t m n h. ground (arith, found a m);
  }

-- The rows that an abandonment finds are those that it was asked for.
pub find_abandoned-eq-ok :
    (task_id attempt_id worker_id : ℕ) (db : Db) {r : Task × Attempt}
    → find_abandoned task_id attempt_id worker_id db ≡ ok r
    → Memᴰ r.0 db.tasks
      × (held_task task_id attempt_id r.0 ≡ true)
      × Memᴰ r.1 db.attempts
      × (owned_attempt task_id attempt_id worker_id r.1 ≡ true)
unfolding find_abandoned
find_abandoned-eq-ok task_id attempt_id worker_id db {r} h =
    let (t, ht, h₁) = >>=-eq-ok _ _ h in
    let (a, ha, h₂) = >>=-eq-ok _ _ h₁ in
    let (mt, pt) = find_where-some _ db.tasks (or_error-eq-ok _ _ ht) in
    let (ma, pa) = find_where-some _ db.attempts (or_error-eq-ok _ _ ha) in
    let e : (t, a) ≡ r = cc in rw (← e) (mt, pt, ma, pa)

module _ (sha : Sha) (task_id attempt_id worker_id : ℕ) (reason : String) (now : ℕ)
    (policy : LeasePolicy) (db : Db) where
  writes_of_guards :
      (t : Task) (a : Attempt) {out : Unit {0} × Db}
      → (guard
            (count_where (owned_attempt task_id attempt_id worker_id) db.attempts == 1)
            attempt_fenced
          >> (guard (count_where (held_task task_id attempt_id) db.tasks == 1) attempt_fenced
              >> ok (tt, abandon_writes sha (normalized policy) reason now t a db)))
        ≡ ok out
      → (tt, abandon_writes sha (normalized policy) reason now t a db) ≡ out
  writes_of_guards t a h =
      let (_, h₁) =
        guard-eq-ok (count_where (owned_attempt task_id attempt_id worker_id) db.attempts == 1)
          attempt_fenced _ h in
      let (_, h₂) =
        guard-eq-ok (count_where (held_task task_id attempt_id) db.tasks == 1) attempt_fenced _
          h₁ in
      cc

  -- An abandonment that succeeds found the two rows, and made the writes for them.
  pub abandon-eq-ok :
      {out : Unit {0} × Db}
      → abandon sha task_id attempt_id worker_id reason now policy db ≡ ok out
      → (t : Task) × (a : Attempt) × (find_abandoned task_id attempt_id worker_id db ≡ ok (t, a))
        × ((tt, abandon_writes sha (normalized policy) reason now t a db) ≡ out)
  unfolding abandon
  abandon-eq-ok h =
      let (r, found, h₁) = >>=-eq-ok _ _ h in (r.0, r.1, found, writes_of_guards r.0 r.1 h₁)

  writes-WellFormed :
      (t : Task) (a : Attempt)
      → WellFormed db
      → find_abandoned task_id attempt_id worker_id db ≡ ok (t, a)
      → WellFormed (abandon_writes sha (normalized policy) reason now t a db)
  unfolding abandon_writes
  writes-WellFormed t a w found =
      let (mt, pt, ma, pa) = find_abandoned-eq-ok task_id attempt_id worker_id db found in
      elim (Bool-cases (leb (normalized policy).max_attempts a.attempt_number)) [
        | inl l ↦ rw l (
            WellFormed-updates _ _ _ _ db _
              (quarantine_rows t.id a.id a.worker_id reason now db (same_row ma pt pa)) w refl refl)
        | inr l ↦ rw l (
            WellFormed-updates _ _ _ _ db _
              (retry_rows t.id a.id a.worker_id reason now db (same_row ma pt pa) _) w refl refl)
      ]
    where
      same_row :
          Memᴰ a db.attempts
          → held_task task_id attempt_id t ≡ true
          → owned_attempt task_id attempt_id worker_id a ≡ true
          → IsFound a.id a.worker_id t.id db
      same_row ma pt pa b mb e =
          let q : b ≡ a = attempts-Keyed w b a mb ma e in rw q (ground arith, refl)

  -- An abandonment that succeeds keeps the tables well formed.
  pub abandon-WellFormed :
      {out : Unit {0} × Db}
      → WellFormed db
      → abandon sha task_id attempt_id worker_id reason now policy db ≡ ok out
      → WellFormed out.1
  abandon-WellFormed w h =
      let (t, a, found, e) = abandon-eq-ok h in rw (← e) (writes-WellFormed t a w found)
