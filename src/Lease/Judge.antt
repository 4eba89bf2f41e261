-- ===== src/Lease/Judge.antt =====
-- The checks of completeTaskAttemptAt (internal/db/attempts.go): who may report a result, and when.
use Prim.Native.String.{String}
use package.text.Mathlib.Text.{◌==◌ as str_eq}
use o_rabbit.Prelude.{ℕ, ℤ, Bool, ◌&&◌, Option, none, some, List, [], ◌∷◌, ltb, ◌==◌, if◌then◌else◌}
use o_rabbit.Table.{find_where}
use o_rabbit.Store.{Run, Task, Attempt, Db}
use o_rabbit.Store.Status.{AttemptStatus, run_is_running, task_is_running, attempt_is_active}
use o_rabbit.Store.Tx.{
  Result, ok, err, guard, attempt_fenced, no_rows, result_conflict, ◌>>◌, ◌>>=◌, or_error,
}
use o_rabbit.Store.Artifacts.{ArtifactRecord}
use o_rabbit.Store.Events.{Sha, text, int}
use o_rabbit.Lease.Renew.{Credential}

-- The status text of a report.
pub data ReportedStatus : Type 0 where
  succeeded failed canceled : ReportedStatus
  other : String → ReportedStatus

pub record Report : Type 0 where
  pub status : ReportedStatus
  pub error_message : Option String
  pub objects : String
  pub rows : ℤ
  pub bytes_read : ℤ
  pub bytes_written : ℤ
  pub records : List ArtifactRecord
  pub strict : Bool
  pub failure_class_override : String
  pub hwm_boundary : String

abbrev pub status_text : ReportedStatus → String
status_text ReportedStatus.succeeded = "SUCCEEDED"
status_text ReportedStatus.failed = "FAILED"
status_text ReportedStatus.canceled = "CANCELED"
status_text (other s) = s

abbrev pub message_or_empty : Option String → String
message_or_empty none = ""
message_or_empty (some m) = m

-- resultDigest
unfoldable pub result_digest : Sha → Report → ℕ
result_digest sha r = sha (
    text (status_text r.status)
    ∷ text r.objects
    ∷ int r.rows
    ∷ int r.bytes_read
    ∷ int r.bytes_written
    ∷ text (message_or_empty r.error_message)
    ∷ (if str_eq r.hwm_boundary "" then [] else text r.hwm_boundary ∷ []))

-- The row of the query: the attempt with its task and run.
pub record Found : Type 0 where
  pub attempt : Attempt
  pub task : Task
  pub run : Run

-- JOIN tasks t ON t.id=a.task_id JOIN runs r ON r.id=t.run_id WHERE a.id=? AND a.task_id=?
unfoldable pub find_attempt : Credential → Db → Result Found
find_attempt c db = do
  a ←
      or_error
        (find_where (λ (a : Attempt). a.id == c.attempt_id && a.task_id == c.task_id) db.attempts)
        no_rows
  t ← or_error (find_where (λ (t : Task). t.id == a.task_id) db.tasks) no_rows
  r ← or_error (find_where (λ (r : Run). r.id == t.run_id) db.runs) no_rows
  ok (record { attempt = a; task = t; run = r })

-- What the checks decide: the result was recorded before, or it is to be recorded now.
pub data Verdict : Type 0 where
  already_accepted : Verdict
  accept : Verdict

abbrev pub same_owner : Credential → Attempt → Bool
same_owner c a =
    a.worker_id == c.worker_id && a.worker_boot_id == c.boot_id && a.fencing_token == c.token

-- current != attemptID, where a NULL current_attempt_id is read as the empty text
abbrev pub current_or_empty : Option ℕ → ℕ
current_or_empty none = 0
current_or_empty (some a) = a

abbrev pub lease_checks : Credential → (master_now : ℕ) → Found → Result Verdict
lease_checks c master_now f = do
  guard (current_or_empty f.task.current_attempt_id == c.attempt_id) attempt_fenced
  guard (ltb master_now f.attempt.lease_deadline) attempt_fenced
  guard
      (attempt_is_active f.attempt.status
        && task_is_running f.task.status
        && run_is_running f.run.status)
      attempt_fenced
  ok accept

-- The checks on the status of the attempt, in the order of the source.
unfoldable pub verdict_for :
    AttemptStatus → Credential → (digest master_now : ℕ) → Found → Result Verdict
verdict_for AttemptStatus.canceled c digest master_now f = err attempt_fenced
verdict_for AttemptStatus.expired c digest master_now f = err attempt_fenced
verdict_for AttemptStatus.superseded c digest master_now f = err attempt_fenced
verdict_for AttemptStatus.succeeded c digest master_now f =
    if f.attempt.result_digest == digest then ok already_accepted else err result_conflict
verdict_for AttemptStatus.failed c digest master_now f =
    if f.attempt.result_digest == digest then ok already_accepted else err result_conflict
verdict_for AttemptStatus.active c digest master_now f = lease_checks c master_now f

unfoldable pub judge : Credential → (digest master_now : ℕ) → Found → Result Verdict
unfolding verdict_for
judge c digest master_now f = do
  guard (same_owner c f.attempt) attempt_fenced
  verdict_for f.attempt.status c digest master_now f
