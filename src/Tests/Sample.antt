-- ===== src/Tests/Sample.antt =====
-- A small control-plane database: one job and its running run, with one task that a worker holds and
-- one that waits.
use o_rabbit.Prelude.{
  ℕ, pos, ◌+◌, ◌≡◌, inl, inr, none, some, [], ◌∷◌, Memᴰ, arith, ◌⊎◌, true, false,
}
use o_rabbit.Table.{count_where}
use o_rabbit.Store.{Job, Run, Task, Attempt, LeaderRow, Db}
use o_rabbit.Store.Status.{
  RunStatus, TaskStatus, AttemptStatus, LeaderStatus, CommitPhase, ReconciliationStatus,
}
use o_rabbit.Store.Events.{Sha, Part, text, num, int}
use o_rabbit.Lease.Policy.{LeasePolicy}
use o_rabbit.Lease.Renew.{Credential}
use o_rabbit.Lease.Judge.{Report, ReportedStatus}
use o_rabbit.Lease.WellFormed.{WellFormed}

abbrev part_value : Part → ℕ
part_value (text s) = 1
part_value (num n) = n + 2
part_value (int (pos n)) = n + 3
part_value (int _) = 0

abbrev pub sample_sha : Sha
sample_sha [] = 0
sample_sha (p ∷ rest) = part_value p + sample_sha rest

abbrev pub job : Job
job = record { id = 1; max_in_flight_tasks = 2; worker_pool = 0 }

abbrev pub run : Run
run = record {
  id = 5;
  job_id = 1;
  status = RunStatus.running;
  started_at = 100;
  finished_at = none;
  error_summary = none;
  dataset_key = 4;
  failure_class = "";
  failure_phase = "";
  registration_config = "";
  commit_id = 0;
  commit_intent = "";
  commit_phase = CommitPhase.none_yet;
  commit_reconciliation_status = ReconciliationStatus.none_yet;
  commit_reconciliation_attempt_count = 0;
  commit_reconciliation_next_eligible_at = none;
  operator_action_required = false;
  commit_claim_token = 0;
  commit_claim_expires_at = none;
}

abbrev pub waiting_task : Task
waiting_task = record {
  id = 21;
  run_id = 5;
  task_index = 1;
  partition_spec = "{}";
  worker_id = none;
  status = TaskStatus.pending;
  rows_read = pos 0;
  bytes_read = pos 0;
  bytes_written = pos 0;
  parquet_objects = "[]";
  hwm_boundary = "";
  started_at = none;
  finished_at = none;
  error_message = none;
  current_attempt_id = none;
  attempt_count = 0;
  next_eligible_at = none;
}

abbrev pub held : Task
held = record waiting_task {
  id = 20;
  task_index = 0;
  worker_id = some 7;
  status = TaskStatus.running;
  started_at = some 110;
  current_attempt_id = some 30;
  attempt_count = 1;
}

abbrev pub holding : Attempt
holding = record {
  id = 30;
  task_id = 20;
  attempt_number = 1;
  worker_id = 7;
  worker_boot_id = 8;
  fencing_token = 9;
  status = AttemptStatus.active;
  assigned_at = 110;
  lease_deadline = 200;
  last_renewed_at = 110;
  started_at = some 110;
  finished_at = none;
  failure_class = "";
  failure_message = none;
  result_digest = 0;
  created_at = 110;
  updated_at = 110;
  assigned_by_leader_epoch = some 1;
}

abbrev pub leader : LeaderRow
leader = record {
  instance_id = 3;
  epoch = 1;
  status = LeaderStatus.active;
  lease_deadline_ms = 1000;
  acquired_at_ms = 0;
  renewed_at_ms = 0;
  released_at_ms = 0;
  metadata_json = "{}";
}

abbrev pub sample : Db
sample = record {
  jobs = job ∷ [];
  runs = run ∷ [];
  tasks = held ∷ waiting_task ∷ [];
  attempts = holding ∷ [];
  artifacts = [];
  events = [];
  leader = leader;
  uploads = [];
  candidates = [];
  registrations = [];
}

abbrev pub credential : Credential
credential = record { boot_id = 8; task_id = 20; attempt_id = 30; token = 9; worker_id = 7 }

abbrev pub policy : LeasePolicy
policy = record {
  duration = pos 50;
  max_attempts = pos 3;
  max_active_tasks = pos 4;
  backoff_base = pos 10;
  backoff_max = pos 60;
}

abbrev pub report : Report
report = record {
  status = ReportedStatus.succeeded;
  error_message = none;
  objects = "[]";
  rows = pos 4;
  bytes_read = pos 64;
  bytes_written = pos 0;
  records = [];
  strict = true;
  failure_class_override = "";
  hwm_boundary = "";
}

task_mem : (t : Task) → Memᴰ t sample.tasks → (t ≡ held) ⊎ (t ≡ waiting_task)
task_mem t (Memᴰ.head e) = inl e
task_mem t (Memᴰ.tail (Memᴰ.head e)) = inr e
task_mem t (Memᴰ.tail (Memᴰ.tail m)) = elim m [ ]

pub attempt_mem : (a : Attempt) → Memᴰ a sample.attempts → a ≡ holding
attempt_mem a (Memᴰ.head e) = e
attempt_mem a (Memᴰ.tail m) = elim m [ ]

pub sample-WellFormed : WellFormed sample
unfolding count_where
sample-WellFormed = record {
  tasks_key = λ k. ground arith;
  attempts_key = λ k. ground arith;
  held = λ t m. ground (arith, task_mem t m);
  fits = λ a t ma mt. ground (arith, attempt_mem a ma, task_mem t mt);
}
