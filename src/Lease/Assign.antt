-- ===== src/Lease/Assign.antt =====
-- AssignNextPendingTaskInPool (internal/db/attempts.go): the transaction leases the task that the
-- query picks to the worker, under a new fenced attempt.
use o_rabbit.Prelude.{
  ℕ, ◌+◌, ◌-◌, Bool, true, false, ◌&&◌, ◌||◌, Option, none, some, List, [], ◌∷◌, ◌++◌, ltb, ◌==◌,
  if◌then◌else◌,
}
use o_rabbit.Table.{count_where, any_where, update_where}
use o_rabbit.Store.{Task, Attempt, LeaderRow, Db}
use o_rabbit.Store.Status.{
  TaskStatus, AttemptStatus, task_is_pending, attempt_is_active, leader_is_active,
}
use o_rabbit.Store.Tx.{Result, ok, err, constraint, ◌>>=◌}
use o_rabbit.Store.Events.{Sha, Event, lease_deadline, replacement_attempt_id, insert_attempt_event}
use o_rabbit.Lease.Policy.{LeasePolicy, normalized}
use o_rabbit.Lease.Select.{Candidate, select_next}

-- SELECT a.id, a.worker_id ... WHERE a.task_id=t.id ORDER BY a.attempt_number DESC LIMIT 1
abbrev pub later_attempt : Attempt → Option Attempt → Attempt
later_attempt a none = a
later_attempt a (some b) = if ltb a.attempt_number b.attempt_number then b else a

unfoldable pub latest_attempt : ℕ → List Attempt → Option Attempt
latest_attempt task_id [] = none
latest_attempt task_id (a ∷ rest) =
    let best = latest_attempt task_id rest in
    if a.task_id == task_id then some (later_attempt a best) else best

-- PRIMARY KEY(id), UNIQUE(task_id, attempt_number), UNIQUE(fencing_token), and the unique index of
-- one ACTIVE attempt for each task.
unfoldable pub attempt_conflicts : Attempt → Attempt → Bool
attempt_conflicts a b =
    a.id == b.id
    || (a.task_id == b.task_id && a.attempt_number == b.attempt_number)
    || a.fencing_token == b.fencing_token
    || (a.task_id == b.task_id && attempt_is_active a.status && attempt_is_active b.status)

unfoldable pub insert_attempt : Attempt → List Attempt → Result (List Attempt)
unfolding attempt_conflicts
insert_attempt a rows =
    if any_where (attempt_conflicts a) rows then err constraint else ok (rows ++ a ∷ [])

-- The epoch that the INSERT's subquery reads.
abbrev pub current_epoch : LeaderRow → Option ℕ
current_epoch l = if leader_is_active l.status then some l.epoch else none

abbrev pub is_null : Option ℕ → Bool
is_null none = true
is_null (some _) = false

abbrev pub coalesce : Option ℕ → ℕ → ℕ
coalesce none d = d
coalesce (some n) d = n

-- WHERE id=? AND status='PENDING' AND current_attempt_id IS NULL
abbrev pub assignable : ℕ → Task → Bool
assignable task_id t = t.id == task_id && task_is_pending t.status && is_null t.current_attempt_id

-- The SET clause of the UPDATE.
unfoldable pub assigned : (worker_id now attempt_id attempt_number : ℕ) → Task → Task
assigned worker_id now attempt_id attempt_number t = record t {
  status = TaskStatus.running;
  worker_id = some worker_id;
  started_at = some (coalesce t.started_at now);
  current_attempt_id = some attempt_id;
  attempt_count = attempt_number;
  next_eligible_at = none;
}

-- The assignment that a worker receives.
pub record Lease : Type 0 where
  pub task_id : ℕ
  pub run_id : ℕ
  pub attempt_id : ℕ
  pub attempt_number : ℕ
  pub fencing_token : ℕ
  pub deadline : ℕ

abbrev pub lease_of : Candidate → (attempt_id token deadline : ℕ) → Lease
lease_of c attempt_id token deadline = record {
  task_id = c.task.id;
  run_id = c.task.run_id;
  attempt_id = attempt_id;
  attempt_number = c.task.attempt_count + 1;
  fencing_token = token;
  deadline = deadline;
}

abbrev pub new_attempt : Lease → (boot_id worker_id now : ℕ) → Option ℕ → Attempt
new_attempt l boot_id worker_id now epoch = record {
  id = l.attempt_id;
  task_id = l.task_id;
  attempt_number = l.attempt_number;
  worker_id = worker_id;
  worker_boot_id = boot_id;
  fencing_token = l.fencing_token;
  status = AttemptStatus.active;
  assigned_at = now;
  lease_deadline = l.deadline;
  last_renewed_at = now;
  started_at = some now;
  finished_at = none;
  failure_class = "";
  failure_message = none;
  result_digest = 0;
  created_at = now;
  updated_at = now;
  assigned_by_leader_epoch = epoch;
}

-- The event of the attempt that the new one replaces, if there was one.
abbrev pub supersede_event : Sha → Lease → (now : ℕ) → Option Attempt → List Event → List Event
supersede_event sha l now none events = events
supersede_event sha l now (some previous) events =
    if previous.id == 0
    then events
    else insert_attempt_event sha l.run_id l.task_id previous.id (l.attempt_number - 1)
        previous.worker_id "ATTEMPT_SUPERSEDED" "REASSIGNED" now
        (replacement_attempt_id l.attempt_id) events

-- The events of an assignment.
unfoldable pub assign_events :
    Sha → Lease → (worker_id now : ℕ) → Option Attempt → List Event → List Event
assign_events sha l worker_id now previous events = supersede_event sha l now previous (
    insert_attempt_event sha l.run_id l.task_id l.attempt_id l.attempt_number worker_id
      "ATTEMPT_ASSIGNED" "ASSIGNED" now (lease_deadline l.deadline) events)

-- The database after a lease, with the attempts that the INSERT left.
abbrev pub leased_db :
    Sha → (worker_id now : ℕ) → Lease → Db → List Attempt → Result (Option Lease × Db)
leased_db sha worker_id now l db attempts = ok (
  some l,
  record db {
    tasks =
        update_where (assignable l.task_id) (assigned worker_id now l.attempt_id l.attempt_number)
          db.tasks;
    attempts = attempts;
    events = assign_events sha l worker_id now (latest_attempt l.task_id db.attempts) db.events;
  },
)

-- The writes of the transaction, once a task is picked. If another assignment took the task, the
-- UPDATE touches no row and the transaction commits as it is.
unfoldable pub lease_task :
    Sha → (boot_id worker_id now : ℕ) → Lease → Db → Result (Option Lease × Db)
unfolding assigned insert_attempt latest_attempt assign_events
lease_task sha boot_id worker_id now l db =
    if count_where (assignable l.task_id) db.tasks == 1
    then insert_attempt (new_attempt l boot_id worker_id now (current_epoch db.leader)) db.attempts
      >>= leased_db sha worker_id now l db
    else ok (
      none,
      record db {
        tasks =
            update_where (assignable l.task_id)
              (assigned worker_id now l.attempt_id l.attempt_number) db.tasks;
      },
    )

abbrev pub lease_candidate :
    Sha
    → (boot_id worker_id now deadline attempt_id token : ℕ) → Option Candidate
    → Db
    → Result (Option Lease × Db)
lease_candidate sha boot_id worker_id now deadline attempt_id token none db = ok (none, db)
lease_candidate sha boot_id worker_id now deadline attempt_id token (some c) db =
    lease_task sha boot_id worker_id now (lease_of c attempt_id token deadline) db

-- `id_fn` and `token_fn` are the results of the caller's functions or of crypto/rand.
unfoldable pub assign :
    Sha
    → (boot_id worker_id worker_pool now : ℕ) → LeasePolicy
    → Result ℕ
    → Result ℕ
    → Db
    → Result (Option Lease × Db)
unfolding select_next lease_task normalized
assign sha boot_id worker_id worker_pool now policy id_fn token_fn db = do
  attempt_id ← id_fn
  token ← token_fn
  let p = normalized policy
  lease_candidate sha boot_id worker_id now (now + p.duration) attempt_id token
      (select_next p now worker_pool db) db
