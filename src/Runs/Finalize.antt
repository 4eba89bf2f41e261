-- ===== src/Runs/Finalize.antt =====
-- TryFinalizeRun (internal/db/store_runs.go) with taskFailureSummary and RecordRunFailure
-- (internal/db/run_failure.go). The wording of the summary is a parameter, a function of the counts and
-- of the first error.
use o_rabbit.Prelude.{
  ℕ, Bool, true, false, not, ◌&&◌, ◌||◌, Option, none, some, String, List, [], ◌∷◌, ltb, ◌==◌,
  if◌then◌else◌,
}
use o_rabbit.Table.{find_where, count_where, select_where, update_where}
use o_rabbit.Store.{Run, Task, Attempt, Db}
use o_rabbit.Store.Status.{
  RunStatus, TaskStatus, CommitPhase, ReconciliationStatus, run_is_running, task_is_succeeded,
  task_has_failed,
}
use o_rabbit.Store.Tx.{Result, ok, guard, no_rows, no_tasks, or_error, ◌>>=◌, ◌>>◌}
use o_rabbit.Lease.Judge.{message_or_empty}
use o_rabbit.Runs.Cancel.{is_past_cancel, pending_in_run}

abbrev pub of_run : ℕ → Task → Bool
of_run run_id t = t.run_id == run_id

unfoldable pub total_tasks : ℕ → Db → ℕ
total_tasks run_id db = count_where (of_run run_id) db.tasks

unfoldable pub succeeded_tasks : ℕ → Db → ℕ
succeeded_tasks run_id db =
    count_where (λ t. of_run run_id t && task_is_succeeded t.status) db.tasks

unfoldable pub failed_tasks : ℕ → Db → ℕ
failed_tasks run_id db = count_where (λ t. of_run run_id t && task_has_failed t.status) db.tasks

-- ORDER BY t.finished_at, t.task_index: a NULL stands first.
abbrev pub ends_before : Task → Task → Bool
ends_before a b = before a.finished_at b.finished_at
  where
    before : Option ℕ → Option ℕ → Bool
    before none none = ltb a.task_index b.task_index
    before none (some y) = true
    before (some x) none = false
    before (some x) (some y) = ltb x y || (x == y && ltb a.task_index b.task_index)

unfoldable pub first_ended : List Task → Option Task
first_ended [] = none
first_ended (t ∷ ts) = elim (first_ended ts) [
  | none ↦ some t
  | some u ↦ if ends_before u t then some u else some t
]

-- ORDER BY attempt_number DESC LIMIT 1
unfoldable pub last_attempt : (task_id : ℕ) → List Attempt → Option Attempt
last_attempt task_id [] = none
last_attempt task_id (a ∷ as_) =
    let rest = last_attempt task_id as_ in
    if a.task_id == task_id
    then elim rest [
      | none ↦ some a
      | some b ↦ if ltb a.attempt_number b.attempt_number then some b else some a
    ]
    else rest

-- taskFailureSummary: the message of the first failed task, and the class of its last attempt
unfoldable pub task_failure : (run_id : ℕ) → Db → String × String
unfolding first_ended last_attempt
task_failure run_id db =
    elim (first_ended (select_where (λ t. of_run run_id t && task_has_failed t.status) db.tasks)) [
      | none ↦ ("", "")
      | some t ↦ (
        message_or_empty t.error_message,
        elim (last_attempt t.id db.attempts) [ none ↦ "" | some a ↦ a.failure_class ],
      )
    ]

abbrev pub failed_run : (summary class : String) → (now : ℕ) → Run → Run
failed_run summary class now r = record r {
  status = RunStatus.failed;
  finished_at = some now;
  error_summary = some summary;
  failure_class = class;
  failure_phase = "extract";
}

abbrev pub dropped_task : (now : ℕ) → Task → Task
dropped_task now t = record t {
  status = TaskStatus.canceled;
  finished_at = some now;
  error_message = some "canceled";
}

abbrev pub running_id : ℕ → Run → Bool
running_id id r = r.id == id && run_is_running r.status

abbrev pub committing_run : Run → Run
committing_run r = record r {
  status = RunStatus.committing;
  finished_at = none;
  error_summary = none;
  failure_class = "";
  commit_phase = CommitPhase.preparing;
  commit_reconciliation_status = ReconciliationStatus.pending;
  commit_reconciliation_attempt_count = 0;
  commit_reconciliation_next_eligible_at = none;
  operator_action_required = false;
}

-- The wording of a failure: the numbers of failed and of all tasks, and the first error.
abbrev pub Wording : Type 0
Wording = (failed total : ℕ) → String → String

unfoldable pub fail_run : Wording → (run_id now : ℕ) → Db → Db
unfolding task_failure failed_tasks total_tasks
fail_run wording run_id now db =
    let first = task_failure run_id db in
    record db {
      runs =
          update_where (λ r. r.id == run_id)
            (failed_run (wording (failed_tasks run_id db) (total_tasks run_id db) first.0) first.1
              now)
            db.runs;
      tasks = update_where (pending_in_run run_id) (dropped_task now) db.tasks;
    }

abbrev pub begin_commit : (run_id : ℕ) → Db → Db
begin_commit run_id db = record db {
  runs = update_where (running_id run_id) committing_run db.runs;
}

-- The decision on an unfinished run, from the counts of its tasks.
unfoldable pub decide_run :
    Wording → (run_id now : ℕ) → RunStatus → Db → Result ((Bool × RunStatus) × Db)
unfolding fail_run succeeded_tasks failed_tasks total_tasks
decide_run wording run_id now status db = do
  guard (not (total_tasks run_id db == 0)) no_tasks
  if not (failed_tasks run_id db == 0)
      then ok ((true, RunStatus.failed), fail_run wording run_id now db)
      else if succeeded_tasks run_id db == total_tasks run_id db
      then ok ((true, RunStatus.committing), begin_commit run_id db)
      else ok ((false, status), db)

unfoldable pub try_finalize_run : Wording → (run_id now : ℕ) → Db → Result ((Bool × RunStatus) × Db)
unfolding decide_run
try_finalize_run wording run_id now db = do
  r ← or_error (find_where (λ (r : Run). r.id == run_id) db.runs) no_rows
  if is_past_cancel r.status
      then ok ((false, r.status), db)
      else decide_run wording run_id now r.status db

abbrev pub run_has_failed : RunStatus → Bool
run_has_failed RunStatus.failed = true
run_has_failed _ = false

unfoldable pub record_run_failure : (run_id : ℕ) → (class phase : String) → Db → Db
record_run_failure run_id class phase db = record db {
  runs =
      update_where (λ r. r.id == run_id && run_has_failed r.status)
        (λ r. record r { failure_class = class; failure_phase = phase }) db.runs;
}
