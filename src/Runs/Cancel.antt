-- ===== src/Runs/Cancel.antt =====
-- CancelRun (internal/db/store_runs.go), with createCanceledObjectCandidatesTx
-- (internal/db/canceled_objects.go).
use package.text.Mathlib.Text.{◌==◌ as str_eq}
use o_rabbit.Prelude.{
  ℕ, ◌+◌, ℤ, positive_or, Bool, true, false, not, ◌&&◌, ◌||◌, none, some, String, List, [], ◌∷◌,
  ◌++◌, ◌==◌, if◌then◌else◌,
}
use o_rabbit.Table.{find_where, count_where, any_where, select_where, update_where}
use o_rabbit.Store.{Run, Task, Attempt, MultipartUpload, Candidate, Db}
use o_rabbit.Store.Status.{
  RunStatus, TaskStatus, attempt_is_active, attempt_is_canceled, task_is_pending, task_is_running,
  upload_is_completed,
}
use o_rabbit.Store.Tx.{Result, ok, no_rows, or_error, ◌>>=◌}
use o_rabbit.Store.Artifacts.{ArtifactRow}
use o_rabbit.Store.Events.{
  Sha, Event, text, num, reason, candidate, insert_attempt_event, insert_or_ignore,
}
use o_rabbit.Store.Texts.{trimmed_or}
use o_rabbit.Lease.Renew.{canceled_attempt, in_run}
use o_rabbit.Runs.Admit.{run_event}

-- The statuses in which CancelRun changes nothing.
abbrev pub is_past_cancel : RunStatus → Bool
is_past_cancel RunStatus.succeeded = true
is_past_cancel RunStatus.failed = true
is_past_cancel RunStatus.canceled = true
is_past_cancel RunStatus.committing = true
is_past_cancel _ = false

abbrev pub active_in_run : ℕ → Db → Attempt → Bool
active_in_run run_id db a = attempt_is_active a.status && in_run run_id a.task_id db

abbrev pub pending_in_run : ℕ → Task → Bool
pending_in_run run_id t = t.run_id == run_id && task_is_pending t.status

abbrev pub running_in_run : ℕ → Task → Bool
running_in_run run_id t = t.run_id == run_id && task_is_running t.status

abbrev pub canceled_pending : String → (now : ℕ) → Task → Task
canceled_pending why now t = record t {
  status = TaskStatus.canceled;
  finished_at = some now;
  error_message = some why;
}

abbrev pub canceled_running : String → (now : ℕ) → Task → Task
canceled_running why now t = record t {
  status = TaskStatus.canceled;
  finished_at = some now;
  error_message = some why;
  current_attempt_id = none;
}

abbrev pub canceled_run : String → (now : ℕ) → Run → Run
canceled_run why now r = record r {
  status = RunStatus.canceled;
  finished_at = some now;
  error_summary = some why;
}

-- The ATTEMPT_CANCELED events, one for each attempt.
unfoldable pub cancel_events :
    Sha → (run_id now : ℕ) → String → List Attempt → List Event → List Event
cancel_events sha run_id now why [] events = events
cancel_events sha run_id now why (a ∷ rest) events = cancel_events sha run_id now why rest (
    insert_attempt_event sha run_id a.task_id a.id a.attempt_number a.worker_id "ATTEMPT_CANCELED"
      "RUN_CANCELED" now (reason why) events)

-- canceledCandidateID, and the row that insertCanceledObjectCandidateTx inserts
abbrev pub candidate_of :
    Sha → (dataset_id : ℕ) → String → (now quarantine : ℕ) → MultipartUpload → Candidate
candidate_of sha dataset_id why now quarantine m = record {
  id = sha (num m.attempt_id ∷ text m.object_key ∷ text m.object_sha256 ∷ []);
  run_id = m.run_id;
  task_id = m.task_id;
  attempt_id = m.attempt_id;
  dataset_id = dataset_id;
  object_key = m.object_key;
  expected_size = m.object_size;
  expected_sha256 = m.object_sha256;
  eligibility_reason = why;
  discovered_at = now;
  quarantine_until = quarantine;
}

-- PRIMARY KEY(id), UNIQUE(attempt_id, object_key, expected_sha256)
abbrev pub candidate_conflicts : Candidate → Candidate → Bool
candidate_conflicts a b =
    a.id == b.id
    || (a.attempt_id == b.attempt_id
        && str_eq a.object_key b.object_key
        && str_eq a.expected_sha256 b.expected_sha256)

-- INSERT OR IGNORE, and the two events of an inserted row
unfoldable pub insert_candidate : Sha → Sha → Candidate → Db → Db
insert_candidate sha name c db =
    let event = λ (kind label : String) (events : List Event).
      insert_or_ignore
        (run_event (name (text "canceled-object-event-" ∷ num c.id ∷ text label ∷ [])) c.run_id
          c.discovered_at kind (candidate c.id))
        events in
    if any_where (candidate_conflicts c) db.candidates then db else record db {
      candidates = db.candidates ++ c ∷ [];
      events =
          event "CANCELED_OBJECT_QUARANTINED" "canceled_object_quarantined"
            (event "CANCELED_OBJECT_DISCOVERED" "canceled_object_discovered" db.events);
    }

unfoldable pub insert_candidates : Sha → Sha → List Candidate → Db → Db
unfolding insert_candidate
insert_candidates sha name [] db = db
insert_candidates sha name (c ∷ cs) db =
    insert_candidates sha name cs (insert_candidate sha name c db)

-- A completed upload of the run under a canceled attempt, whose object is no accepted artifact.
abbrev pub is_unclaimed : (run_id : ℕ) → Db → MultipartUpload → Bool
is_unclaimed run_id db m =
    m.run_id == run_id
    && upload_is_completed m.status
    && any_where (λ (a : Attempt). a.id == m.attempt_id && attempt_is_canceled a.status) db.attempts
    && not (any_where (λ (x : ArtifactRow). str_eq x.artifact.object_key m.object_key) db.artifacts)

abbrev pub dataset_of : (run_id : ℕ) → Db → ℕ
dataset_of run_id db = elim (find_where (λ (r : Run). r.id == run_id) db.runs) [
  | none ↦ 0
  | some r ↦ r.dataset_key
]

abbrev pub candidates_of :
    Sha → (dataset_id now quarantine : ℕ) → List MultipartUpload → List Candidate
candidates_of sha dataset_id now quarantine [] = []
candidates_of sha dataset_id now quarantine (m ∷ ms) =
    candidate_of sha dataset_id "CANCELED_ATTEMPT_COMPLETED_UPLOAD" now quarantine m
    ∷ candidates_of sha dataset_id now quarantine ms

-- createCanceledObjectCandidatesTx; the retention is a day where it is not configured.
unfoldable pub create_canceled_object_candidates :
    Sha → Sha → (retention : ℤ) → (run_id now : ℕ) → Db → Db
unfolding insert_candidates
create_canceled_object_candidates sha name retention run_id now db =
    insert_candidates sha name
      (candidates_of sha (dataset_of run_id db) now (now + positive_or retention 86400000000000)
        (select_where (is_unclaimed run_id db) db.uploads))
      db

-- The updates of a cancellation, before its cleanup candidates.
unfoldable pub canceled_db : Sha → (run_id : ℕ) → String → (now : ℕ) → Db → Db
unfolding cancel_events
canceled_db sha run_id why now db = record db {
  runs = update_where (λ r. r.id == run_id) (canceled_run why now) db.runs;
  tasks =
      update_where (running_in_run run_id) (canceled_running why now)
        (update_where (pending_in_run run_id) (canceled_pending why now) db.tasks);
  attempts = update_where (active_in_run run_id db) (canceled_attempt why now) db.attempts;
  events =
      cancel_events sha run_id now why (select_where (active_in_run run_id db) db.attempts)
        db.events;
}

-- What CancelRun returns: whether the run was canceled, its status, and the PENDING tasks ended.
pub record Cancellation : Type 0 where
  pub changed : Bool
  pub status : RunStatus
  pub pending_tasks_killed : ℕ

unfoldable pub cancel_run :
    Sha
    → Sha
    → (retention : ℤ) → (run_id : ℕ) → String
    → (now : ℕ) → Db
    → Result (Cancellation × Db)
unfolding canceled_db create_canceled_object_candidates trimmed_or
cancel_run sha name retention run_id given now db = do
  r ← or_error (find_where (λ (r : Run). r.id == run_id) db.runs) no_rows
  let why = trimmed_or given "canceled by client"
  if is_past_cancel r.status
      then ok (record { changed = false; status = r.status; pending_tasks_killed = 0 }, db)
      else ok (
        record {
          changed = true;
          status = RunStatus.canceled;
          pending_tasks_killed = count_where (pending_in_run run_id) db.tasks;
        },
        create_canceled_object_candidates sha name retention run_id now
            (canceled_db sha run_id why now db),
      )
