-- ===== src/Store/Status.antt =====
-- The status columns (internal/db/attempts.go, store_runs.go, commit_reconciliation.go, multipart.go,
-- registrations.go, leadership.go) and the tests on them.
use o_rabbit.Prelude.{Bool, true, false}

pub data RunStatus : Type 0 where
  planning running committing succeeded failed canceled : RunStatus

pub data TaskStatus : Type 0 where
  pending running succeeded failed canceled quarantined : TaskStatus

pub data AttemptStatus : Type 0 where
  active succeeded failed expired superseded canceled : AttemptStatus

pub data LeaderStatus : Type 0 where
  active released : LeaderStatus

-- status='RUNNING' of runs
abbrev pub run_is_running : RunStatus → Bool
run_is_running RunStatus.running = true
run_is_running _ = false

-- status='PENDING' of tasks
abbrev pub task_is_pending : TaskStatus → Bool
task_is_pending TaskStatus.pending = true
task_is_pending _ = false

-- status='RUNNING' of tasks
abbrev pub task_is_running : TaskStatus → Bool
task_is_running TaskStatus.running = true
task_is_running _ = false

-- status='ACTIVE' of task_attempts
abbrev pub attempt_is_active : AttemptStatus → Bool
attempt_is_active AttemptStatus.active = true
attempt_is_active _ = false

-- status='ACTIVE' of master_leadership
abbrev pub leader_is_active : LeaderStatus → Bool
leader_is_active LeaderStatus.active = true
leader_is_active _ = false

-- commit_phase of runs; `none_yet` is the empty text
pub data CommitPhase : Type 0 where
  none_yet preparing intent manifest_verified state_verified verified complete : CommitPhase
  retry_required failed : CommitPhase

-- commit_reconciliation_status of runs; `none_yet` is the empty text
pub data ReconciliationStatus : Type 0 where
  none_yet pending retry_required terminal action_required complete : ReconciliationStatus

-- status of multipart_uploads
pub data UploadStatus : Type 0 where
  prepared active completing completion_ambiguous completed : UploadStatus
  abort_pending aborting aborted abort_failed unknown_review : UploadStatus

-- status of iceberg_registrations
pub data RegistrationStatus : Type 0 where
  pending registering retry_required reconciling registered failed : RegistrationStatus
  quarantined canceled blocked : RegistrationStatus

abbrev pub run_is_planning : RunStatus → Bool
run_is_planning RunStatus.planning = true
run_is_planning _ = false

abbrev pub run_is_committing : RunStatus → Bool
run_is_committing RunStatus.committing = true
run_is_committing _ = false

-- status IN ('RUNNING','COMMITTING') of runs
abbrev pub run_is_executing : RunStatus → Bool
run_is_executing RunStatus.running = true
run_is_executing RunStatus.committing = true
run_is_executing _ = false

-- status IN ('PLANNING','RUNNING','COMMITTING') of runs
abbrev pub run_is_open : RunStatus → Bool
run_is_open RunStatus.planning = true
run_is_open RunStatus.running = true
run_is_open RunStatus.committing = true
run_is_open _ = false

-- status='SUCCEEDED' of tasks
abbrev pub task_is_succeeded : TaskStatus → Bool
task_is_succeeded TaskStatus.succeeded = true
task_is_succeeded _ = false

-- status IN ('FAILED','QUARANTINED') of tasks
abbrev pub task_has_failed : TaskStatus → Bool
task_has_failed TaskStatus.failed = true
task_has_failed TaskStatus.quarantined = true
task_has_failed _ = false

-- status='CANCELED' of task_attempts
abbrev pub attempt_is_canceled : AttemptStatus → Bool
attempt_is_canceled AttemptStatus.canceled = true
attempt_is_canceled _ = false

-- status='COMPLETED' of multipart_uploads
abbrev pub upload_is_completed : UploadStatus → Bool
upload_is_completed UploadStatus.completed = true
upload_is_completed _ = false

abbrev pub phase_is_verified : CommitPhase → Bool
phase_is_verified CommitPhase.verified = true
phase_is_verified _ = false

-- commit_reconciliation_status IN ('','PENDING','RETRY_REQUIRED') of runs
abbrev pub is_reconcilable : ReconciliationStatus → Bool
is_reconcilable ReconciliationStatus.none_yet = true
is_reconcilable ReconciliationStatus.pending = true
is_reconcilable ReconciliationStatus.retry_required = true
is_reconcilable _ = false
