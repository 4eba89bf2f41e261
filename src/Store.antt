-- ===== src/Store.antt =====
-- The tables of the control-plane database that task execution and the commit of runs read and
-- write: jobs, runs, tasks, task_attempts, task_artifacts, events, multipart_uploads,
-- canceled_object_candidates, iceberg_registrations and master_leadership (internal/db/migrate.go;
-- internal/db/attempts.go, store_tasks.go, store_runs.go, canceled_objects.go, registrations.go). Texts that are only compared for
-- equality (ids, tokens, worker names) are numbers, and 0 is the empty text; a nullable column is
-- an Option. Timestamps have one fixed-width layout whose text order is the order in time
-- (internal/db/store.go, TimestampLayout), and are numbers of nanoseconds.
pub mod Status
pub mod Tx
pub mod Artifacts
pub mod Events
pub mod Texts
use o_rabbit.Prelude.{ℕ, ℤ, Bool, Option, List, String}
use Status.{
  RunStatus, TaskStatus, AttemptStatus, LeaderStatus, CommitPhase, ReconciliationStatus,
  UploadStatus, RegistrationStatus,
}

-- The columns of jobs, with the values that the assignment query extracts from options_json: a
-- missing, null or non-positive max_in_flight_tasks is 0 (the query tests only `<= 0`), and a
-- missing, null or empty worker_pool is 0.
pub record Job : Type 0 where
  pub id : ℕ
  pub max_in_flight_tasks : ℕ
  pub worker_pool : ℕ

pub record Run : Type 0 where
  pub id : ℕ
  pub job_id : ℕ
  pub status : RunStatus
  pub started_at : ℕ
  pub finished_at : Option ℕ
  pub error_summary : Option String
  pub dataset_key : ℕ
  pub failure_class : String
  pub failure_phase : String
  pub registration_config : String
  pub commit_id : ℕ
  pub commit_intent : String
  pub commit_phase : CommitPhase
  pub commit_reconciliation_status : ReconciliationStatus
  pub commit_reconciliation_attempt_count : ℕ
  pub commit_reconciliation_next_eligible_at : Option ℕ
  pub operator_action_required : Bool
  pub commit_claim_token : ℕ
  pub commit_claim_expires_at : Option ℕ

pub record Task : Type 0 where
  pub id : ℕ
  pub run_id : ℕ
  pub task_index : ℕ
  pub partition_spec : String
  pub worker_id : Option ℕ
  pub status : TaskStatus
  pub rows_read : ℤ
  pub bytes_read : ℤ
  pub bytes_written : ℤ
  pub parquet_objects : String
  pub hwm_boundary : String
  pub started_at : Option ℕ
  pub finished_at : Option ℕ
  pub error_message : Option String
  pub current_attempt_id : Option ℕ
  pub attempt_count : ℕ
  pub next_eligible_at : Option ℕ

pub record Attempt : Type 0 where
  pub id : ℕ
  pub task_id : ℕ
  pub attempt_number : ℕ
  pub worker_id : ℕ
  pub worker_boot_id : ℕ
  pub fencing_token : ℕ
  pub status : AttemptStatus
  pub assigned_at : ℕ
  pub lease_deadline : ℕ
  pub last_renewed_at : ℕ
  pub started_at : Option ℕ
  pub finished_at : Option ℕ
  pub failure_class : String
  pub failure_message : Option String
  pub result_digest : ℕ
  pub created_at : ℕ
  pub updated_at : ℕ
  pub assigned_by_leader_epoch : Option ℕ

-- The single row of master_leadership.
pub record LeaderRow : Type 0 where
  pub instance_id : ℕ
  pub epoch : ℕ
  pub status : LeaderStatus
  pub lease_deadline_ms : ℕ
  pub acquired_at_ms : ℕ
  pub renewed_at_ms : ℕ
  pub released_at_ms : ℕ
  pub metadata_json : String

-- The columns of multipart_uploads that the cancellation of a run reads.
pub record MultipartUpload : Type 0 where
  pub run_id : ℕ
  pub task_id : ℕ
  pub attempt_id : ℕ
  pub object_key : String
  pub object_size : ℤ
  pub object_sha256 : String
  pub status : UploadStatus

-- A row of canceled_object_candidates as it is inserted, with status QUARANTINED.
pub record Candidate : Type 0 where
  pub id : ℕ
  pub run_id : ℕ
  pub task_id : ℕ
  pub attempt_id : ℕ
  pub dataset_id : ℕ
  pub object_key : String
  pub expected_size : ℤ
  pub expected_sha256 : String
  pub eligibility_reason : String
  pub discovered_at : ℕ
  pub quarantine_until : ℕ

-- A row of iceberg_registrations, in the columns that its insertion writes.
pub record Registration : Type 0 where
  pub id : ℕ
  pub run_id : ℕ
  pub dataset_id : ℕ
  pub dataset_sequence : ℕ
  pub target_key : ℕ
  pub commit_id : ℕ
  pub manifest_key : String
  pub artifact_set_digest : ℕ
  pub backend_type : String
  pub catalog_namespace : String
  pub table_identifier : String
  pub status : RegistrationStatus
  pub created_at : ℕ
  pub updated_at : ℕ

pub record Db : Type 0 where
  pub jobs : List Job
  pub runs : List Run
  pub tasks : List Task
  pub attempts : List Attempt
  pub artifacts : List Artifacts.ArtifactRow
  pub events : List Events.Event
  pub leader : LeaderRow
  pub uploads : List MultipartUpload
  pub candidates : List Candidate
  pub registrations : List Registration
