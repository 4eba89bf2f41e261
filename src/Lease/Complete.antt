-- ===== src/Lease/Complete.antt =====
-- completeTaskAttemptAt and its wrappers (internal/db/attempts.go): a worker's result is recorded
-- once, and only from the attempt that currently holds the task's lease.
use Prim.Native.String.{String}
use package.text.Mathlib.Text.{◌==◌ as str_eq}
use o_rabbit.Prelude.{
  ℕ, is_positive, Bool, true, false, ◌&&◌, Option, none, some, List, [], ◌∷◌, ◌++◌, ◌==◌,
  if◌then◌else◌,
}
use o_rabbit.Table.{count_where, update_where}
use o_rabbit.Store.{Task, Attempt, Db}
use o_rabbit.Store.Status.{TaskStatus, AttemptStatus, task_is_running}
use o_rabbit.Store.Tx.{
  Result, ok, err, guard, attempt_fenced, missing_artifacts, artifact_identity, invalid_status,
  constraint, ◌>>=◌, ◌>>◌,
}
use o_rabbit.Store.Artifacts.{ArtifactRecord, ArtifactRow, artifact_admissible}
use o_rabbit.Store.Events.{Sha, text, num}
use o_rabbit.Lease.Renew.{Credential, is_current}
use o_rabbit.Lease.Expire.{active_attempt}
use o_rabbit.Lease.Classes.{classification_from_message}
use o_rabbit.Lease.Judge.{
  Report, ReportedStatus, Found, Verdict, already_accepted, accept, other, result_digest,
  find_attempt, judge,
}

abbrev pub is_succeeded : ReportedStatus → Bool
is_succeeded ReportedStatus.succeeded = true
is_succeeded _ = false

-- The statuses that a task may end with, and the checks on the others.
abbrev pub final_attempt_status : ReportedStatus → Result AttemptStatus
final_attempt_status ReportedStatus.succeeded = ok AttemptStatus.succeeded
final_attempt_status ReportedStatus.failed = ok AttemptStatus.failed
final_attempt_status ReportedStatus.canceled = ok AttemptStatus.canceled
final_attempt_status (other s) = err invalid_status

abbrev pub final_task_status : ReportedStatus → TaskStatus
final_task_status ReportedStatus.succeeded = TaskStatus.succeeded
final_task_status ReportedStatus.failed = TaskStatus.failed
final_task_status _ = TaskStatus.canceled

abbrev pub or_permanent : String → String
or_permanent class = if str_eq class "" then "PERMANENT_TASK_FAILURE" else class

abbrev pub class_from_message : Option String → String
class_from_message none = "PERMANENT_TASK_FAILURE"
class_from_message (some m) = or_permanent (classification_from_message m)

-- failureClass: only a FAILED result has one.
unfoldable pub failure_class_for : ReportedStatus → Report → String
unfolding classification_from_message
failure_class_for ReportedStatus.failed r =
    if str_eq r.failure_class_override ""
    then class_from_message r.error_message
    else r.failure_class_override
failure_class_for _ r = ""

-- The id is attemptEventID("ARTIFACT", attemptID, index), with the index written out in %06d.
unfoldable pub artifact_row : Sha → (attempt_id master_now now : ℕ) → ArtifactRecord → ArtifactRow
artifact_row sha attempt_id master_now now r = record {
  id = sha (text "ARTIFACT" ∷ num attempt_id ∷ num r.file_index ∷ []);
  artifact = r;
  verified_at = master_now;
  created_at = now;
}

-- The loop over the records: each must carry the run and the attempt number of the attempt, and each
-- row must meet the constraints of the table.
unfoldable pub insert_artifacts :
    Sha
    → Credential
    → (run_id attempt_number master_now now : ℕ) → List ArtifactRecord
    → List ArtifactRow
    → Result (List ArtifactRow)
unfolding artifact_row artifact_admissible
insert_artifacts sha c run_id attempt_number master_now now [] rows = ok rows
insert_artifacts sha c run_id attempt_number master_now now (r ∷ rest) rows = do
  guard (r.run_id == run_id && r.attempt_number == attempt_number) artifact_identity
  let row = artifact_row sha c.attempt_id master_now now r
  guard (artifact_admissible row rows) constraint
  insert_artifacts sha c run_id attempt_number master_now now rest (rows ++ row ∷ [])

abbrev pub is_empty {ℓ} : {A : Type ℓ} → List A → Bool
is_empty [] = true
is_empty (_ ∷ _) = false

unfoldable pub persist_artifacts :
    Sha
    → Credential
    → Report
    → (master_now now : ℕ) → Found
    → List ArtifactRow
    → Result (List ArtifactRow)
unfolding insert_artifacts
persist_artifacts sha c r master_now now f rows =
    if r.strict && is_succeeded r.status
    then (if is_positive r.bytes_written && is_empty r.records
        then err missing_artifacts
        else insert_artifacts sha c f.run.id f.attempt.attempt_number master_now now r.records rows)
    else ok rows

unfoldable pub finished_attempt : Report → (digest now : ℕ) → AttemptStatus → Attempt → Attempt
finished_attempt r digest now status a = record a {
  status = status;
  finished_at = some now;
  failure_class = failure_class_for r.status r;
  failure_message = r.error_message;
  result_digest = digest;
  updated_at = now;
}

unfoldable pub finished_task : Report → (now : ℕ) → Task → Task
finished_task r now t = record t {
  status = final_task_status r.status;
  error_message = r.error_message;
  parquet_objects = r.objects;
  hwm_boundary = r.hwm_boundary;
  rows_read = r.rows;
  bytes_read = r.bytes_read;
  bytes_written = r.bytes_written;
  finished_at = some now;
  current_attempt_id = none;
}

-- WHERE id=? AND status='RUNNING' AND current_attempt_id=?
abbrev pub running_task : Credential → Task → Bool
running_task c t =
    t.id == c.task_id && task_is_running t.status && is_current t.current_attempt_id c.attempt_id

-- What a report changed: the message of the reply, and the final status of the task.
pub data Reply : Type 0 where
  already : TaskStatus → Reply
  accepted : TaskStatus → Reply

-- The tables after an accepted result.
unfoldable pub recorded_db :
    Credential → Report → (digest now : ℕ) → AttemptStatus → List ArtifactRow → Db → Db
unfolding finished_attempt finished_task
recorded_db c r digest now status artifacts db = record db {
  artifacts = artifacts;
  attempts =
      update_where (active_attempt c.attempt_id) (finished_attempt r digest now status) db.attempts;
  tasks = update_where (running_task c) (finished_task r now) db.tasks;
}

-- The writes of an accepted result, with the checks on the rows that each UPDATE touched.
unfoldable pub record_result :
    Sha → Credential → Report → (digest master_now now : ℕ) → Found → Db → Result (Reply × Db)
unfolding persist_artifacts recorded_db
record_result sha c r digest master_now now f db = do
  artifacts ← persist_artifacts sha c r master_now now f db.artifacts
  status ← final_attempt_status r.status
  guard (count_where (active_attempt c.attempt_id) db.attempts == 1) attempt_fenced
  guard (count_where (running_task c) db.tasks == 1) attempt_fenced
  ok (accepted (final_task_status r.status), recorded_db c r digest now status artifacts db)

abbrev pub act_on :
    Verdict
    → Sha
    → Credential
    → Report
    → (digest master_now now : ℕ) → Found
    → Db
    → Result (Reply × Db)
act_on already_accepted sha c r digest master_now now f db = ok (already f.task.status, db)
act_on accept sha c r digest master_now now f db = record_result sha c r digest master_now now f db

-- `now` is the wall clock that stamps the rows, `master_now` the time that the lease is held to.
unfoldable pub complete :
    Sha → Credential → Report → (master_now now : ℕ) → Db → Result (Reply × Db)
unfolding result_digest find_attempt judge record_result
complete sha c r master_now now db = do
  f ← find_attempt c db
  v ← judge c (result_digest sha r) master_now f
  act_on v sha c r (result_digest sha r) master_now now f db
