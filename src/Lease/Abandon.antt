-- ===== src/Lease/Abandon.antt =====
-- AbandonTaskAttemptWithPolicy (internal/db/attempts.go): an assignment that could not be built for
-- the worker is given back, under the retry policy of an expired lease.
use o_rabbit.Prelude.{ℕ, Bool, ◌&&◌, some, String, leb, ◌==◌, if◌then◌else◌}
use o_rabbit.Table.{find_where, count_where, update_where}
use o_rabbit.Store.{Task, Attempt, Db}
use o_rabbit.Store.Status.{AttemptStatus, task_is_running, attempt_is_active}
use o_rabbit.Store.Tx.{Result, ok, guard, attempt_fenced, ◌>>=◌, ◌>>◌, or_error}
use o_rabbit.Store.Events.{Sha, nothing, max_attempts, next_eligible_at, insert_attempt_event}
use o_rabbit.Lease.Policy.{LeasePolicy, NormalPolicy, normalized, retry_backoff, add_duration}
use o_rabbit.Lease.Renew.{is_current}
use o_rabbit.Lease.Expire.{quarantined_task, retried_task, running_run, exhausted_run}

-- WHERE id=? AND task_id=? AND worker_id=? AND status='ACTIVE'
abbrev pub owned_attempt : (task_id attempt_id worker_id : ℕ) → Attempt → Bool
owned_attempt task_id attempt_id worker_id a =
    a.id == attempt_id
    && a.task_id == task_id
    && a.worker_id == worker_id
    && attempt_is_active a.status

-- WHERE id=? AND status='RUNNING' AND current_attempt_id=?
abbrev pub held_task : (task_id attempt_id : ℕ) → Task → Bool
held_task task_id attempt_id t =
    t.id == task_id && task_is_running t.status && is_current t.current_attempt_id attempt_id

abbrev pub abandoned_attempt : String → (now : ℕ) → Attempt → Attempt
abandoned_attempt reason now a = record a {
  status = AttemptStatus.failed;
  finished_at = some now;
  failure_class = "ASSIGNMENT_BUILD_FAILURE";
  failure_message = some reason;
  updated_at = now;
}

-- SELECT t.run_id, a.attempt_number ... WHERE both are as the UPDATEs below want them.
unfoldable pub find_abandoned : (task_id attempt_id worker_id : ℕ) → Db → Result (Task × Attempt)
find_abandoned task_id attempt_id worker_id db = do
  t ← or_error (find_where (held_task task_id attempt_id) db.tasks) attempt_fenced
  a ← or_error (find_where (owned_attempt task_id attempt_id worker_id) db.attempts) attempt_fenced
  ok (t, a)

-- The writes.
unfoldable pub abandon_attempt : Sha → String → (now : ℕ) → Task → Attempt → Db → Db
abandon_attempt sha reason now t a db = record db {
  attempts =
      update_where (owned_attempt t.id a.id a.worker_id) (abandoned_attempt reason now) db.attempts;
  events =
      insert_attempt_event sha t.run_id t.id a.id a.attempt_number a.worker_id "ATTEMPT_ABANDONED"
        "ASSIGNMENT_BUILD_FAILURE" now nothing db.events;
}

unfoldable pub abandon_quarantine :
    Sha → NormalPolicy → String → (now : ℕ) → Task → Attempt → Db → Db
abandon_quarantine sha p reason now t a db = record db {
  tasks = update_where (held_task t.id a.id) (quarantined_task reason now) db.tasks;
  runs = update_where (running_run t.run_id) (exhausted_run now) db.runs;
  events =
      insert_attempt_event sha t.run_id t.id a.id a.attempt_number a.worker_id "TASK_QUARANTINED"
        "RETRY_LIMIT_EXHAUSTED" now (max_attempts p.max_attempts) db.events;
}

unfoldable pub abandon_retry : Sha → String → (now next : ℕ) → Task → Attempt → Db → Db
abandon_retry sha reason now next t a db = record db {
  tasks = update_where (held_task t.id a.id) (retried_task reason next) db.tasks;
  events =
      insert_attempt_event sha t.run_id t.id a.id a.attempt_number a.worker_id
        "TASK_RETRY_SCHEDULED" "ASSIGNMENT_BUILD_FAILURE" now (next_eligible_at next) db.events;
}

unfoldable pub abandon_writes : Sha → NormalPolicy → String → (now : ℕ) → Task → Attempt → Db → Db
unfolding abandon_attempt abandon_quarantine abandon_retry
abandon_writes sha p reason now t a db =
    let db' = abandon_attempt sha reason now t a db in
    if leb p.max_attempts a.attempt_number
    then abandon_quarantine sha p reason now t a db'
    else abandon_retry sha reason now (add_duration now (retry_backoff p a.attempt_number)) t a db'

unfoldable pub abandon :
    Sha
    → (task_id attempt_id worker_id : ℕ) → String
    → (now : ℕ) → LeasePolicy
    → Db
    → Result (Unit {0} × Db)
unfolding find_abandoned abandon_writes normalized
abandon sha task_id attempt_id worker_id reason now policy db = do
  (t, a) ← find_abandoned task_id attempt_id worker_id db
  guard (count_where (owned_attempt task_id attempt_id worker_id) db.attempts == 1) attempt_fenced
  guard (count_where (held_task task_id attempt_id) db.tasks == 1) attempt_fenced
  ok (tt, abandon_writes sha (normalized policy) reason now t a db)
