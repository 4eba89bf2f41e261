-- ===== src/Lease/Renew.antt =====
-- RenewTaskLease, UpdateTaskProgressFencedAt and CancelActiveAttempts (internal/db/attempts.go).
use o_rabbit.Prelude.{
  ℕ, ◌+◌, ℤ, positive_or, Bool, ◌&&◌, some, String, ltb, ◌==◌, if◌then◌else◌, Option, none, false,
}
use o_rabbit.Table.{count_where, any_where, update_where}
use o_rabbit.Store.{Task, Attempt, Db}
use o_rabbit.Store.Status.{AttemptStatus, task_is_running, attempt_is_active}
use o_rabbit.Store.Tx.{Result, ok, err, attempt_fenced}
use o_rabbit.Lease.Policy.{default_lease}

-- What a worker presents to prove that it holds an attempt.
pub record Credential : Type 0 where
  pub boot_id : ℕ
  pub task_id : ℕ
  pub attempt_id : ℕ
  pub token : ℕ
  pub worker_id : ℕ

-- current_attempt_id = ?, false on NULL
abbrev pub is_current : Option ℕ → ℕ → Bool
is_current none attempt_id = false
is_current (some a) attempt_id = a == attempt_id

-- EXISTS(SELECT 1 FROM tasks WHERE id=? AND status='RUNNING' AND current_attempt_id=?)
abbrev pub runs_attempt : Credential → Task → Bool
runs_attempt c t =
    t.id == c.task_id && task_is_running t.status && is_current t.current_attempt_id c.attempt_id

-- The attempt that the credential names, ACTIVE and before its deadline.
abbrev pub holds_lease : Credential → ℕ → Attempt → Bool
holds_lease c now a =
    a.id == c.attempt_id
    && a.task_id == c.task_id
    && a.fencing_token == c.token
    && a.worker_id == c.worker_id
    && a.worker_boot_id == c.boot_id
    && attempt_is_active a.status
    && ltb now a.lease_deadline

abbrev pub renewed : (deadline now : ℕ) → Attempt → Attempt
renewed deadline now a = record a {
  lease_deadline = deadline;
  last_renewed_at = now;
  updated_at = now;
}

unfoldable pub renewable : Credential → ℕ → Db → Attempt → Bool
renewable c now db a = holds_lease c now a && any_where (runs_attempt c) db.tasks

-- Returns the new deadline.
unfoldable pub renew : Credential → (now : ℕ) → (duration : ℤ) → Db → Result (ℕ × Db)
unfolding renewable
renew c now duration db =
    let deadline = now + positive_or duration default_lease in
    if count_where (renewable c now db) db.attempts == 1
    then ok (
      deadline,
      record db { attempts = update_where (renewable c now db) (renewed deadline now) db.attempts },
    )
    else err attempt_fenced

abbrev pub progressed : (rows bytes_read bytes_written : ℤ) → Task → Task
progressed rows bytes_read bytes_written t = record t {
  rows_read = rows;
  bytes_read = bytes_read;
  bytes_written = bytes_written;
}

unfoldable pub may_progress : Credential → ℕ → Db → Task → Bool
may_progress c now db t = runs_attempt c t && any_where (holds_lease c now) db.attempts

unfoldable pub update_progress :
    Credential → (now : ℕ) → (rows bytes_read bytes_written : ℤ) → Db → Result (Unit {0} × Db)
unfolding may_progress
update_progress c now rows bytes_read bytes_written db =
    if count_where (may_progress c now db) db.tasks == 1
    then ok (
      tt,
      record db {
        tasks =
            update_where (may_progress c now db) (progressed rows bytes_read bytes_written)
              db.tasks;
      },
    )
    else err attempt_fenced

abbrev pub canceled_attempt : String → (now : ℕ) → Attempt → Attempt
canceled_attempt reason now a = record a {
  status = AttemptStatus.canceled;
  finished_at = some now;
  failure_class = "CANCELED";
  failure_message = some reason;
  updated_at = now;
}

-- task_id IN (SELECT id FROM tasks WHERE run_id=?)
abbrev pub in_run : (run_id task_id : ℕ) → Db → Bool
in_run run_id task_id db = any_where (λ (t : Task). t.id == task_id && t.run_id == run_id) db.tasks

unfoldable pub cancel_active_attempts : (run_id : ℕ) → String → (now : ℕ) → Db → Db
cancel_active_attempts run_id reason now db = record db {
  attempts =
      update_where (λ a. attempt_is_active a.status && in_run run_id a.task_id db)
        (canceled_attempt reason now) db.attempts;
}
