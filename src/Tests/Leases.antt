-- ===== src/Tests/Leases.antt =====
-- The theorems on leases at the sample database (internal/db/attempts.go): runs of the operations, and
-- each theorem applied to them.
use o_rabbit.Prelude.{ℕ, ℤ, ◌≡◌, ◌≢◌, refl, true, false, Option, none, some, Memᴰ, arith}
use o_rabbit.Table.{find_where, count_where, select_where, update_where}
use o_rabbit.Store.{Db, Task, Attempt}
use o_rabbit.Store.Status.{TaskStatus, AttemptStatus}
use o_rabbit.Store.Tx.{ok, err, attempt_fenced}
use o_rabbit.Lease.Policy.{normalized, retry_backoff, retry_backoff_lem}
use o_rabbit.Lease.Select.{Candidate, join_row, eligible, running_tasks}
use o_rabbit.Lease.Assign.{Lease, assign}
use o_rabbit.Lease.Renew.{renew, update_progress}
use o_rabbit.Lease.Expire.{expire, expired_attempt}
use o_rabbit.Lease.Judge.{result_digest, Report}
use o_rabbit.Lease.Complete.{Reply, accepted, already, complete}
use o_rabbit.Lease.WellFormed.{WellFormed}
use o_rabbit.Lease.Steps.{Reach, Step, Reach-WellFormed, Reach-Extends}
use o_rabbit.Lease.Stale.{is_lost, stale_attempt_fenced}
use o_rabbit.Lease.Sweep.{IsExpired, IsRequeued, expire_complete}
use o_rabbit.Lease.Accepted.{Accepted, complete-accepted}
use o_rabbit.Lease.Given.{Leased}
use o_rabbit.Lease.Serving.{assign_serves, assign-idle}
use o_rabbit.Lease.Extends.{Extends}
use o_rabbit.Lease.Fencing.{one_active}
use o_rabbit.Lease.Preserve.{expire-WellFormed}
use o_rabbit.Lease.PreserveResults.{complete-WellFormed}
use o_rabbit.Lease.Reject.{record_rejection, record_rejection-again}
use o_rabbit.Lease.Once.{complete_once, complete_again}
use o_rabbit.Tests.Sample.{
  sample, sample_sha, sample-WellFormed, attempt_mem, credential, report, policy, held, holding,
  waiting_task, run, job,
}

-- The sample after its worker's result, and then after a sweep.
abbrev done : Db
done = elim (complete sample_sha credential report 150 151 sample) [ ok o ↦ o.1 | err e ↦ sample ]

abbrev later : Db
later = (expire sample_sha 300 policy done).1

finishing :
    complete sample_sha credential report 150 151 sample ≡ ok (accepted TaskStatus.succeeded, done)
unfolding complete find_where count_where
finishing = refl

sweeping : Reach sample_sha done later
sweeping = Reach.next Reach.here (Step.expires 300 policy _ refl)

complete_once_example :
    complete sample_sha credential report 310 311 later ≢ ok (accepted TaskStatus.succeeded, done)
complete_once_example =
    complete_once sample_sha credential report 150 151 TaskStatus.succeeded sample done later
      sample-WellFormed finishing sweeping credential report 310 311 TaskStatus.succeeded done refl

complete_again_example :
    complete sample_sha credential report 310 311 later ≡ ok (already TaskStatus.succeeded, later)
unfolding result_digest
complete_again_example =
    complete_again sample_sha credential report 150 151 TaskStatus.succeeded sample done later
      sample-WellFormed finishing sweeping report 310 311 (λ e. cc)

complete-accepted_example :
    Accepted sample_sha credential report 150 151 TaskStatus.succeeded sample done
complete-accepted_example =
    complete-accepted sample_sha credential report 150 151 sample sample-WellFormed
      TaskStatus.succeeded done finishing

-- The sample after its lease has lapsed and was swept.
abbrev swept : Db
swept = (expire sample_sha 300 policy sample).1

swept-WellFormed : WellFormed swept
swept-WellFormed = expire-WellFormed sample_sha 300 policy sample sample-WellFormed

expire_complete_example :
    ((a' : Attempt) × Memᴰ a' swept.attempts × IsExpired 300 holding a')
    × ((t' : Task) × Memᴰ t' swept.tasks
        × IsRequeued (normalized policy) 300 holding.attempt_number held t')
expire_complete_example =
    expire_complete sample_sha 300 policy sample holding held run sample-WellFormed (Memᴰ.head refl)
      refl (Memᴰ.head refl) refl (unfold find_where in refl) refl

stale_attempt_fenced_example :
    ((now : ℕ) (duration : ℤ) → renew credential now duration swept ≡ err attempt_fenced)
    × ((now : ℕ) (rows bytes_read bytes_written : ℤ)
        → update_progress credential now rows bytes_read bytes_written swept ≡ err attempt_fenced)
    × (is_lost AttemptStatus.expired ≡ true
        → (r : Report) (master_now now : ℕ) (out : Reply × Db)
        → complete sample_sha credential r master_now now swept ≢ ok out)
unfolding expire find_where select_where count_where update_where
stale_attempt_fenced_example =
    stale_attempt_fenced sample_sha swept swept (expired_attempt 300 holding) credential
      swept-WellFormed (Memᴰ.head refl) refl refl Reach.here

Reach-WellFormed_example : WellFormed later
Reach-WellFormed_example =
    Reach-WellFormed sample_sha done later
      (complete-WellFormed sample_sha credential report 150 151 sample sample-WellFormed finishing)
      sweeping

Reach-Extends_example : Extends done later
Reach-Extends_example =
    Reach-Extends sample_sha done later
      (complete-WellFormed sample_sha credential report 150 151 sample sample-WellFormed finishing)
      sweeping

one_active_example : holding ≡ holding
one_active_example =
    one_active sample holding holding held sample-WellFormed (Memᴰ.head refl) (Memᴰ.head refl)
      (Memᴰ.head refl) refl refl refl refl

abbrev waiting : Candidate
waiting = record { task = waiting_task; run = run; job = job; running = 1 }

assign_serves_example :
    (l : Lease) × (db' : Db) × (assign sample_sha 8 7 0 120 policy (ok 31) (ok 10) sample
      ≡ ok (some l, db'))
    × Leased (normalized policy) 8 7 0 120 l sample db'
unfolding join_row eligible running_tasks find_where count_where normalized
assign_serves_example =
    assign_serves sample_sha 8 7 0 120 31 10 policy sample sample-WellFormed waiting_task waiting
      (λ a m. ground (arith, attempt_mem a m)) (Memᴰ.tail (Memᴰ.head refl)) refl refl

-- The sample after its waiting task is leased.
abbrev given : Option Lease × Db
given = elim (assign sample_sha 8 7 0 120 policy (ok 31) (ok 10) sample) [
  | ok o ↦ o
  | err e ↦ (none, sample)
]

abbrev given_lease : Lease
given_lease = record {
  task_id = 21;
  run_id = 5;
  attempt_id = 31;
  attempt_number = 1;
  fencing_token = 10;
  deadline = 170;
}

assign-idle_example :
    (sample ≡ sample)
    × ((t : Task) (c : Candidate)
        → Memᴰ t sample.tasks
        → join_row sample t ≡ some c
        → eligible (normalized policy) 120 4 (running_tasks sample.tasks) c ≡ false)
assign-idle_example =
    assign-idle sample_sha 8 7 4 120 policy (ok 31) (ok 10) sample sample sample-WellFormed
      (unfold assign find_where count_where in refl)

retry_backoff_lem_example : retry_backoff (normalized policy) 3 ≡ 40
unfolding normalized
retry_backoff_lem_example = retry_backoff_lem (normalized policy) 2 (omega arith) (omega arith)

-- The sample after a stale report was rejected.
abbrev rejected : Db
rejected = elim (record_rejection sample_sha 20 30 0 "STALE_RESULT_REJECTED" "FENCED" 130 sample) [
  | ok o ↦ o.1
  | err e ↦ sample
]

record_rejection-again_example :
    record_rejection sample_sha 20 30 7 "STALE_RESULT_REJECTED" "FENCED" 140 rejected
    ≡ ok (tt, rejected)
record_rejection-again_example =
    record_rejection-again sample_sha 20 30 0 7 "STALE_RESULT_REJECTED" "FENCED" 130 140 sample
      rejected (unfold record_rejection find_where in refl)
