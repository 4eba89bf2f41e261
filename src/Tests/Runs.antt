-- ===== src/Tests/Runs.antt =====
-- The theorems on runs at small databases (internal/db/store_runs.go, run_admission.go,
-- commit_reconciliation.go): a run whose task succeeds is finalized, claimed, committed and
-- registered; another one is canceled; a planned one is admitted.
use o_rabbit.Prelude.{
  pos, ◌+◌, ◌≡◌, ◌≤◌, max, refl, Bool, true, false, some, [], ◌∷◌, Memᴰ, arith, inl, inr, ◌⊎◌, ◌==◌,
  ltb, if◌then◌else◌,
}
use o_rabbit.Table.{find_where, count_where, any_where, select_where, update_where}
use o_rabbit.Table.Key.{PrimaryKey}
use o_rabbit.Store.{Run, Registration, Db}
use o_rabbit.Store.Status.{RunStatus, TaskStatus, CommitPhase, run_is_committing}
use o_rabbit.Store.Tx.{Result, ok, err}
use o_rabbit.Lease.Complete.{accepted, already, complete}
use o_rabbit.Lease.Steps.{Step}
use o_rabbit.Runs.Admit.{admit_run, admit_pending_runs, active_runs}
use o_rabbit.Runs.Cancel.{Cancellation, cancel_run, is_past_cancel}
use o_rabbit.Runs.Finalize.{try_finalize_run}
use o_rabbit.Runs.Register.{Codec, ensure_registration}
use o_rabbit.Runs.Commit.{save_commit_intent, set_commit_phase, complete_run_commit, is_verified}
use o_rabbit.Runs.Claim.{CommitPolicy, claim_committing_run, record_commit_failure}
use o_rabbit.Runs.Life.{RunPath, HasGrown}
use o_rabbit.Runs.Consistent.{RunsOk}
use o_rabbit.Runs.Steps.{Setting, RunStep, RunReach, RunReach-RunPath, RunReach-RunsOk, run_history}
use o_rabbit.Runs.Capacity.{admit_pending_runs-within, admit_run-within}
use o_rabbit.Runs.CancelLaws.{IsStopped, cancel_run-IsStopped, stopped_run_refuses}
use o_rabbit.Runs.Exclusive.{Rivals, claim_exclusive}
use o_rabbit.Runs.Decide.{Decision}
use o_rabbit.Runs.Outcomes.{try_finalize_run-Decision, record_commit_failure-outcome}
use o_rabbit.Runs.Completion.{IsQueued, IsCompleted, complete_run_commit-eq-ok}
use o_rabbit.Tests.Sample.{sample, sample_sha, run, held, waiting_task, credential, report}

abbrev value {ℓ} : {A : Type ℓ} → Result (A × Db) → Db
value (ok o) = o.1
value (err e) = sample

abbrev codec : Codec
codec = record {
  config =
      λ _. some (record { enabled = true; engine = "rest-go"; table = "lake.rows"; uri = "u" });
  intent = λ _. some (record { manifest_key = "m.json"; manifest = "{}" });
  manifest = λ _. some (record { schema_version = 2; run_id = 5; artifacts = "a" ∷ [] });
  to_lower = λ s. s;
}

abbrev setting : Setting
setting = record {
  sha = sample_sha;
  name = sample_sha;
  codec = codec;
  decrypt = λ _ s. ok s;
  wording = λ _ _ s. s;
  retention = pos 0;
}

abbrev start_run : Run
start_run = record run { registration_config = "{}" }

-- One run with one task, whose commit is to be registered.
abbrev start_db : Db
start_db = record sample { runs = start_run ∷ []; tasks = held ∷ [] }

abbrev worked : Db
worked = value (complete sample_sha credential report 150 151 start_db)

abbrev finalized : Db
finalized = value (try_finalize_run setting.wording 5 160 worked)

abbrev intended : Db
intended = value (save_commit_intent 5 1 "intent" finalized)

abbrev claimed : Db
claimed = (claim_committing_run 5 77 170 30 intended).1

abbrev verified : Db
verified = set_commit_phase 5 CommitPhase.verified claimed

abbrev completed : Db
completed = value (complete_run_commit sample_sha sample_sha codec setting.decrypt 5 190 verified)

working :
    complete sample_sha credential report 150 151 start_db
    ≡ ok (accepted TaskStatus.succeeded, worked)
unfolding complete find_where count_where
working = refl

finalizing :
    try_finalize_run setting.wording 5 160 worked ≡ ok ((true, RunStatus.committing), finalized)
unfolding try_finalize_run complete find_where count_where update_where
finalizing = refl

intending : save_commit_intent 5 1 "intent" finalized ≡ ok (tt, intended)
unfolding save_commit_intent try_finalize_run complete find_where count_where update_where
intending = refl

claiming : claim_committing_run 5 77 170 30 intended ≡ (true, claimed)
unfolding claim_committing_run save_commit_intent try_finalize_run complete find_where count_where
    update_where
claiming = refl

completing :
    complete_run_commit sample_sha sample_sha codec setting.decrypt 5 190 verified
    ≡ ok (tt, completed)
unfolding complete_run_commit set_commit_phase claim_committing_run save_commit_intent
    try_finalize_run complete find_where count_where update_where any_where ensure_registration
completing = refl

run_mem : (r : Run) → Memᴰ r start_db.runs → r ≡ start_run
run_mem r (Memᴰ.head e) = e
run_mem r (Memᴰ.tail m) = elim m [ ]

start_db-RunsOk : RunsOk start_db.runs
unfolding count_where
start_db-RunsOk = record {
  key = λ k. ground arith;
  committed = λ r m. rw (run_mem r m) (record { commit = λ e. cc; phase = λ e. cc });
  one_open = λ a b ma mb h. rw (run_mem a ma, run_mem b mb) refl;
}

-- The whole history, from the worker's result to the completed commit.
abbrev history : RunReach setting start_db completed
history =
    RunReach.next
      (RunReach.next
        (RunReach.next
          (RunReach.next
            (RunReach.next
              (RunReach.next RunReach.here (
                RunStep.leases (
                  Step.completes credential report 150 151 (accepted TaskStatus.succeeded)
                    working)))
              (RunStep.finalizes 5 160 (true, RunStatus.committing) finalizing))
            (RunStep.saves_intent 5 1 "intent" intending))
          (RunStep.claims 5 77 170 30 true claiming))
        (RunStep.sets_phase 5 CommitPhase.verified refl))
      (RunStep.completes 5 190 completing)

RunReach-RunPath_example : RunPath start_db.runs completed.runs
RunReach-RunPath_example = RunReach-RunPath setting start_db completed start_db-RunsOk history

RunReach-RunsOk_example : RunsOk completed.runs
RunReach-RunsOk_example = RunReach-RunsOk setting start_db completed start_db-RunsOk history

run_history_example :
    ((r' : Run) × Memᴰ r' completed.runs × HasGrown start_run r')
    × ((r' : Run) → Memᴰ r' completed.runs → r'.id ≡ 5 → HasGrown start_run r')
run_history_example =
    run_history setting start_db completed start_run start_db-RunsOk history (Memᴰ.head refl)

abbrev finalization : Bool × RunStatus
finalization = (true, RunStatus.committing)

worked-key : PrimaryKey (λ (x : Run). x.id) worked.runs
worked-key =
    (RunReach-RunsOk setting start_db worked start_db-RunsOk (
      RunReach.next RunReach.here (
        RunStep.leases
          (Step.completes credential report 150 151 (accepted TaskStatus.succeeded) working)))).key

try_finalize_run-Decision_example :
    (r : Run) × (find_where (λ (x : Run). x.id == 5) worked.runs ≡ some r)
    × ((is_past_cancel r.status ≡ true) × (finalization ≡ (false, r.status)) × (finalized ≡ worked)
        ⊎ (is_past_cancel r.status ≡ false) × Decision r 5 160 worked finalized finalization)
try_finalize_run-Decision_example =
    try_finalize_run-Decision setting.wording 5 160 worked finalized finalization worked-key
      finalizing

-- A PLANNING run with a task that has SUCCEEDED is answered as COMMITTING, but stays as it is.
abbrev planned_early : Db
planned_early = record worked { runs = record start_run { status = RunStatus.planning } ∷ [] }

answers_only :
    try_finalize_run setting.wording 5 160 planned_early
    ≡ ok ((true, RunStatus.committing), planned_early)
unfolding try_finalize_run complete find_where count_where update_where
answers_only = refl

complete_run_commit-eq-ok_example :
    (r : Run) × Memᴰ r verified.runs
    × (is_verified 5 r ≡ true)
    × ((r' : Run) × Memᴰ r' completed.runs × IsCompleted 190 r r')
    × ((x : Registration)
        → Memᴰ x completed.registrations
        → Memᴰ x verified.registrations
          ⊎ IsQueued 5 r.dataset_key r.commit_id verified.registrations x)
complete_run_commit-eq-ok_example =
    complete_run_commit-eq-ok sample_sha sample_sha codec setting.decrypt 5 190 verified completed
      completing

-- A second publisher asks for the claim while the first one holds it.
claim_exclusive_example : claim_committing_run 5 78 185 30 claimed ≡ (false, claimed)
unfolding count_where save_commit_intent try_finalize_run complete find_where update_where
claim_exclusive_example =
    claim_exclusive 5 77 170 30 78 185 30 intended claimed claimed (λ k. ground arith) (omega arith)
      claiming Rivals.here (omega arith)

abbrev defaults : CommitPolicy
defaults = record { max_attempts = pos 0; backoff_base = pos 0; backoff_max = pos 0 }

abbrev retried : Db
retried =
    value (record_commit_failure sample_sha 5 "STORAGE" "timeout" true false 180 defaults claimed)

retrying :
    record_commit_failure sample_sha 5 "STORAGE" "timeout" true false 180 defaults claimed
    ≡ ok (tt, retried)
unfolding record_commit_failure claim_committing_run save_commit_intent try_finalize_run complete
    find_where count_where update_where
retrying = refl

record_commit_failure-outcome_example :
    (r : Run) × (find_where (λ (x : Run). x.id == 5) claimed.runs ≡ some r)
    × ((run_is_committing r.status ≡ true)
          × ((r' : Run) × Memᴰ r' retried.runs
              × (r'.id ≡ r.id)
              × (r'.commit_reconciliation_attempt_count ≡ r.commit_reconciliation_attempt_count + 1)
              × (r'.status ≡ (
                  if ltb (r.commit_reconciliation_attempt_count + 1) 5
                  then RunStatus.committing
                  else RunStatus.failed)))
        ⊎ (run_is_committing r.status ≡ false) × (retried ≡ claimed))
record_commit_failure-outcome_example =
    record_commit_failure-outcome sample_sha 5 "STORAGE" "timeout" true false 180 defaults claimed
      retried retrying

-- A planned run with a task that waits.
abbrev waiting : Db
waiting = record sample {
  runs = record run { status = RunStatus.planning } ∷ [];
  tasks = waiting_task ∷ [];
}

admit_pending_runs-within_example :
    (active_runs (admit_pending_runs sample_sha (pos 2) 100 waiting waiting).1.runs
      ≡ active_runs waiting.runs + (admit_pending_runs sample_sha (pos 2) 100 waiting waiting).0)
    × (active_runs (admit_pending_runs sample_sha (pos 2) 100 waiting waiting).1.runs
        ≤ max (active_runs waiting.runs) 2)
admit_pending_runs-within_example =
    admit_pending_runs-within sample_sha (pos 2) 100 waiting waiting
      (unfold count_where in λ k. ground arith)

abbrev started : Db
started = value (admit_run (pos 2) 5 waiting)

starting : admit_run (pos 2) 5 waiting ≡ ok (true, started)
unfolding admit_run count_where update_where
starting = refl

admit_run-within_example :
    (active_runs started.runs ≡ active_runs waiting.runs + 1)
    × (active_runs started.runs ≤ max (active_runs waiting.runs) 2)
admit_run-within_example =
    admit_run-within (pos 2) 5 waiting started true (unfold count_where in λ k. ground arith) refl
      starting

-- The sample's run is canceled after its worker has reported.
abbrev reported : Db
reported = value (complete sample_sha credential report 150 151 sample)

abbrev canceling : Cancellation
canceling = record { changed = true; status = RunStatus.canceled; pending_tasks_killed = 1 }

abbrev canceled : Db
canceled = value (cancel_run sample_sha sample_sha (pos 0) 5 " " 160 reported)

canceling_run :
    cancel_run sample_sha sample_sha (pos 0) 5 " " 160 reported ≡ ok (canceling, canceled)
unfolding cancel_run complete find_where count_where any_where select_where update_where
canceling_run = refl

cancel_run-IsStopped_example :
    (r : Run) × (find_where (λ (x : Run). x.id == 5) reported.runs ≡ some r)
    × ((true ≡ true) × (is_past_cancel r.status ≡ false) × IsStopped 5 canceled
        ⊎ (true ≡ false) × (is_past_cancel r.status ≡ true) × (canceled ≡ reported))
cancel_run-IsStopped_example =
    cancel_run-IsStopped sample_sha sample_sha (pos 0) 5 " " 160 reported canceled canceling
      canceling_run

canceled-IsStopped : IsStopped 5 canceled
canceled-IsStopped =
    let (r, _, cases) =
      cancel_run-IsStopped sample_sha sample_sha (pos 0) 5 " " 160 reported canceled canceling
        canceling_run in
    elim cases [ inl stopped ↦ stopped.2 | inr late ↦ cc late.0 ]

abbrev again : Db
again = value (complete sample_sha credential report 170 171 canceled)

reported_again :
    complete sample_sha credential report 170 171 canceled
    ≡ ok (already TaskStatus.succeeded, again)
unfolding cancel_run complete find_where count_where any_where select_where update_where
reported_again = refl

stopped_run_refuses_example : again ≡ canceled
unfolding cancel_run complete find_where count_where any_where select_where update_where
stopped_run_refuses_example =
    stopped_run_refuses sample_sha credential report 170 171 5 canceled again
      (already TaskStatus.succeeded) canceled-IsStopped refl reported_again
