-- ===== src/Lease/Expire.antt =====
-- ExpireTaskAttempts (internal/db/attempts.go): attempts whose lease has run out are expired, and
-- their tasks are scheduled again or, past the retry limit, quarantined with their run failed.
use o_rabbit.Prelude.{
  ℕ, suc, Bool, ◌&&◌, Option, none, some, String, List, [], ◌∷◌, leb, ◌==◌, if◌then◌else◌,
}
use o_rabbit.Table.{find_where, count_where, select_where, update_where}
use o_rabbit.Store.{Run, Task, Attempt, Db}
use o_rabbit.Store.Status.{
  RunStatus, TaskStatus, AttemptStatus, run_is_running, task_is_running, attempt_is_active,
}
use o_rabbit.Store.Events.{
  Sha, lease_deadline, max_attempts, next_eligible_at, insert_attempt_event,
}
use o_rabbit.Lease.Policy.{LeasePolicy, NormalPolicy, normalized, retry_backoff, add_duration}
use o_rabbit.Lease.Renew.{is_current}

-- A row of the query: the attempt, and the run of its task.
pub record Item : Type 0 where
  pub attempt : Attempt
  pub run_id : ℕ

-- t.status='RUNNING' AND t.current_attempt_id=a.id AND r.status='RUNNING'
abbrev pub expiry_run : Db → Attempt → Task → Option ℕ
expiry_run db a t = elim (find_where (λ (r : Run). r.id == t.run_id) db.runs) [
  | none ↦ none
  | some r ↦
      if task_is_running t.status && is_current t.current_attempt_id a.id && run_is_running r.status
      then some t.run_id
      else none
]

abbrev pub expiry_join : Db → Attempt → Option ℕ
expiry_join db a = elim (find_where (λ (t : Task). t.id == a.task_id) db.tasks) [
  | none ↦ none
  | some t ↦ expiry_run db a t
]

abbrev pub add_item : Attempt → Option ℕ → List Item → List Item
add_item a none items = items
add_item a (some run_id) items = record { attempt = a; run_id = run_id } ∷ items

unfoldable pub collect_items : Db → List Attempt → List Item
collect_items db [] = []
collect_items db (a ∷ rest) = add_item a (expiry_join db a) (collect_items db rest)

abbrev pub lapsed : ℕ → Attempt → Bool
lapsed now a = attempt_is_active a.status && leb a.lease_deadline now

unfoldable pub expiry_items : ℕ → Db → List Item
unfolding collect_items
expiry_items now db = collect_items db (select_where (lapsed now) db.attempts)

-- WHERE id=? AND status='ACTIVE'
abbrev pub active_attempt : ℕ → Attempt → Bool
active_attempt id a = a.id == id && attempt_is_active a.status

abbrev pub expired_attempt : (now : ℕ) → Attempt → Attempt
expired_attempt now a = record a {
  status = AttemptStatus.expired;
  finished_at = some now;
  failure_class = "LEASE_EXPIRED";
  failure_message = some "lease expired";
  updated_at = now;
}

-- WHERE id=? AND current_attempt_id=?
abbrev pub task_with_attempt : (task_id attempt_id : ℕ) → Task → Bool
task_with_attempt task_id attempt_id t =
    t.id == task_id && is_current t.current_attempt_id attempt_id

abbrev pub quarantined_task : String → (now : ℕ) → Task → Task
quarantined_task message now t = record t {
  status = TaskStatus.quarantined;
  worker_id = none;
  current_attempt_id = none;
  finished_at = some now;
  error_message = some message;
  next_eligible_at = none;
}

abbrev pub retried_task : String → (next : ℕ) → Task → Task
retried_task message next t = record t {
  status = TaskStatus.pending;
  worker_id = none;
  current_attempt_id = none;
  next_eligible_at = some next;
  error_message = some message;
}

abbrev pub running_run : ℕ → Run → Bool
running_run id r = r.id == id && run_is_running r.status

abbrev pub exhausted_run : (now : ℕ) → Run → Run
exhausted_run now r = record r {
  status = RunStatus.failed;
  finished_at = some now;
  error_summary = some "task retry limit exhausted";
}

-- The writes for one item: the attempt is expired, then its task is retried or quarantined.
unfoldable pub expire_attempt : Sha → (now : ℕ) → Item → Db → Db
expire_attempt sha now x db = record db {
  attempts = update_where (active_attempt x.attempt.id) (expired_attempt now) db.attempts;
  events =
      insert_attempt_event sha x.run_id x.attempt.task_id x.attempt.id x.attempt.attempt_number
        x.attempt.worker_id "ATTEMPT_EXPIRED" "LEASE_EXPIRED" now
        (lease_deadline x.attempt.lease_deadline) db.events;
}

unfoldable pub quarantine : Sha → NormalPolicy → (now : ℕ) → Item → Db → Db
quarantine sha p now x db = record db {
  tasks =
      update_where (task_with_attempt x.attempt.task_id x.attempt.id)
        (quarantined_task "retry limit exhausted" now) db.tasks;
  runs = update_where (running_run x.run_id) (exhausted_run now) db.runs;
  events =
      insert_attempt_event sha x.run_id x.attempt.task_id x.attempt.id x.attempt.attempt_number
        x.attempt.worker_id "TASK_QUARANTINED" "RETRY_LIMIT_EXHAUSTED" now
        (max_attempts p.max_attempts) db.events;
}

unfoldable pub schedule_retry : Sha → (now next : ℕ) → Item → Db → Db
schedule_retry sha now next x db = record db {
  tasks =
      update_where (task_with_attempt x.attempt.task_id x.attempt.id)
        (retried_task "lease expired" next) db.tasks;
  events =
      insert_attempt_event sha x.run_id x.attempt.task_id x.attempt.id x.attempt.attempt_number
        x.attempt.worker_id "TASK_RETRY_SCHEDULED" "LEASE_EXPIRED" now (next_eligible_at next)
        db.events;
}

unfoldable pub requeue_or_quarantine : Sha → NormalPolicy → (now : ℕ) → Item → Db → Db
unfolding quarantine schedule_retry
requeue_or_quarantine sha p now x db =
    if leb p.max_attempts x.attempt.attempt_number
    then quarantine sha p now x db
    else schedule_retry sha now (add_duration now (retry_backoff p x.attempt.attempt_number)) x db

-- One round of the loop: skipped where the UPDATE of the attempt finds it no longer ACTIVE.
unfoldable pub expire_item : Sha → NormalPolicy → (now : ℕ) → Item → Db → Db
unfolding expire_attempt requeue_or_quarantine
expire_item sha p now x db =
    if count_where (active_attempt x.attempt.id) db.attempts == 1
    then requeue_or_quarantine sha p now x (expire_attempt sha now x db)
    else record db {
      attempts = update_where (active_attempt x.attempt.id) (expired_attempt now) db.attempts;
    }

abbrev pub counted : Item → Db → ℕ → ℕ
counted x db n = if count_where (active_attempt x.attempt.id) db.attempts == 1 then suc n else n

unfoldable pub expire_items : Sha → NormalPolicy → (now : ℕ) → List Item → ℕ → Db → ℕ × Db
unfolding expire_item
expire_items sha p now [] expired db = (expired, db)
expire_items sha p now (x ∷ rest) expired db =
    expire_items sha p now rest (counted x db expired) (expire_item sha p now x db)

-- Returns how many attempts were expired.
unfoldable pub expire : Sha → (now : ℕ) → LeasePolicy → Db → ℕ × Db
unfolding normalized expiry_items expire_items
expire sha now policy db = expire_items sha (normalized policy) now (expiry_items now db) 0 db
