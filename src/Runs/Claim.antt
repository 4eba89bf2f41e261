-- ===== src/Runs/Claim.antt =====
-- Who publishes a COMMITTING run, and what becomes of a failed publication
-- (internal/db/commit_reconciliation.go, and ListCommittingRunIDsAt of internal/db/store_runs.go).
use o_rabbit.Prelude.{
  ℕ, ◌+◌, ℤ, zero, suc, ◌-◌, positive_or, Bool, true, false, ◌&&◌, ◌||◌, Option, none, some, String,
  List, [], ◌∷◌, ltb, leb, ◌==◌, map, if◌then◌else◌,
}
use o_rabbit.Table.{find_where, count_where, select_where, update_where}
use o_rabbit.Store.{Run, Db}
use o_rabbit.Store.Status.{
  RunStatus, CommitPhase, ReconciliationStatus, run_is_committing, is_reconcilable,
}
use o_rabbit.Store.Tx.{
  Result, ok, err, no_rows, or_error, commit_precondition, commit_claim_lost, ◌>>=◌,
}
use o_rabbit.Store.Events.{Sha, text, num, message, insert_or_ignore}
use o_rabbit.Lease.Policy.{second, double64, le64, add_duration}
use o_rabbit.Runs.Admit.{run_event, sort_runs}

-- t IS NULL OR t<=?
abbrev pub is_null_or_due : Option ℕ → ℕ → Bool
is_null_or_due none now = true
is_null_or_due (some t) now = leb t now

-- t>?, false on NULL
abbrev pub is_after : Option ℕ → ℕ → Bool
is_after none now = false
is_after (some t) now = ltb now t

-- A COMMITTING run that is due for a commit attempt.
abbrev pub is_commit_due : ℕ → Run → Bool
is_commit_due now r =
    run_is_committing r.status
    && is_reconcilable r.commit_reconciliation_status
    && is_null_or_due r.commit_reconciliation_next_eligible_at now

abbrev pub claimable : (id now : ℕ) → Run → Bool
claimable id now r =
    r.id == id
    && is_commit_due now r
    && (r.commit_claim_token == 0 || is_null_or_due r.commit_claim_expires_at now)

abbrev pub claimed_run : (token deadline : ℕ) → Run → Run
claimed_run token deadline r = record r {
  commit_claim_token = token;
  commit_claim_expires_at = some deadline;
}

unfoldable pub claim_committing_run : (run_id token now lease : ℕ) → Db → Bool × Db
claim_committing_run run_id token now lease db = (
  count_where (claimable run_id now) db.runs == 1,
  record db {
    runs = update_where (claimable run_id now) (claimed_run token (now + lease)) db.runs;
  },
)

-- WHERE id=? AND status='COMMITTING' AND commit_claim_token=? AND commit_claim_expires_at>?
abbrev pub holds_claim : (id token now : ℕ) → Run → Bool
holds_claim id token now r =
    r.id == id
    && run_is_committing r.status
    && r.commit_claim_token == token
    && is_after r.commit_claim_expires_at now

unfoldable pub renew_commit_claim : (run_id token now lease : ℕ) → Db → Result (Unit {0} × Db)
renew_commit_claim run_id token now lease db =
    if count_where (holds_claim run_id token now) db.runs == 1
    then ok (
      tt,
      record db {
        runs =
            update_where (holds_claim run_id token now)
              (λ r. record r { commit_claim_expires_at = some (now + lease) }) db.runs;
      },
    )
    else err commit_claim_lost

unfoldable pub release_commit_claim : (run_id token : ℕ) → Db → Db
release_commit_claim run_id token db = record db {
  runs =
      update_where (λ r. r.id == run_id && r.commit_claim_token == token)
        (λ r. record r { commit_claim_token = 0; commit_claim_expires_at = none }) db.runs;
}

-- ListCommittingRunIDsAt
unfoldable pub list_committing_run_ids : (now : ℕ) → Db → List ℕ
unfolding sort_runs
list_committing_run_ids now db =
    map (λ (r : Run). r.id) (sort_runs (select_where (is_commit_due now) db.runs))

-- CommitReconciliationPolicy, with the defaults of RecordCommitReconciliationFailure
pub record CommitPolicy : Type 0 where
  pub max_attempts : ℤ
  pub backoff_base : ℤ
  pub backoff_max : ℤ

-- The loop from i = 1 to attempt - 1, on int64 durations.
unfoldable pub commit_backoff : (rounds backoff max : ℕ) → ℕ
commit_backoff zero backoff max = backoff
commit_backoff (suc rounds) backoff max =
    let doubled = double64 backoff in
    let rest = commit_backoff rounds doubled max in if le64 max doubled then max else rest

-- What a failure decides: the statuses, and when the next attempt is due.
pub record Outcome : Type 0 where
  pub run_status : RunStatus
  pub reconciliation : ReconciliationStatus
  pub next : Option ℕ

unfoldable pub failure_outcome :
    CommitPolicy → (attempt : ℕ) → (retryable operator_action : Bool) → (now : ℕ) → Outcome
unfolding commit_backoff
failure_outcome policy attempt retryable operator_action now =
    if operator_action
    then record {
      run_status = RunStatus.failed;
      reconciliation = ReconciliationStatus.action_required;
      next = none;
    }
    else if retryable && ltb attempt (positive_or policy.max_attempts 5)
    then record {
      run_status = RunStatus.committing;
      reconciliation = ReconciliationStatus.retry_required;
      next = some (
          add_duration now (
            commit_backoff (attempt - 1) (positive_or policy.backoff_base second)
              (positive_or policy.backoff_max 60000000000)));
    }
    else record {
      run_status = RunStatus.failed;
      reconciliation = ReconciliationStatus.terminal;
      next = none;
    }

abbrev pub failed_commit :
    Outcome
    → (attempt : ℕ) → (class why : String) → (operator_action : Bool) → (now : ℕ) → Run
    → Run
failed_commit o attempt class why operator_action now r = elim o.run_status [
  | RunStatus.failed ↦ with_status (some now) "commit" CommitPhase.failed
  | _ ↦ with_status none "" CommitPhase.retry_required
]
  where
    with_status : Option ℕ → String → CommitPhase → Run
    with_status finished phase commit_phase = record r {
      status = o.run_status;
      finished_at = finished;
      error_summary = some why;
      failure_class = class;
      failure_phase = phase;
      commit_reconciliation_status = o.reconciliation;
      commit_reconciliation_attempt_count = attempt;
      commit_reconciliation_next_eligible_at = o.next;
      operator_action_required = operator_action;
      commit_phase = commit_phase;
    }

abbrev pub committing_id : ℕ → Run → Bool
committing_id id r = r.id == id && run_is_committing r.status

-- RecordCommitReconciliationFailure
unfoldable pub record_commit_failure :
    Sha
    → (run_id : ℕ) → (class why : String) → (retryable operator_action : Bool) → (now : ℕ)
    → CommitPolicy
    → Db
    → Result (Unit {0} × Db)
unfolding failure_outcome
record_commit_failure name run_id class why retryable operator_action now policy db = do
  r ← or_error (find_where (λ (r : Run). r.id == run_id) db.runs) no_rows
  let attempt = r.commit_reconciliation_attempt_count + 1
  let o = failure_outcome policy attempt retryable operator_action now
  if run_is_committing r.status
      then (if count_where (committing_id run_id) db.runs == 1
          then ok (
            tt,
            record db {
              runs =
                  update_where (committing_id run_id)
                    (failed_commit o attempt class why operator_action now) db.runs;
              events =
                  insert_or_ignore
                    (run_event
                      (name (text "commit-reconciliation-" ∷ num run_id ∷ num attempt ∷ [])) run_id
                      now "COMMIT_RECONCILIATION_FAILED" (message why))
                    db.events;
            },
          )
          else err commit_precondition)
      else ok (tt, db)
