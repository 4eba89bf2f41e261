-- ===== src/Runs/Outcomes.antt =====
-- What TryFinalizeRun and RecordCommitReconciliationFailure decide (internal/db/store_runs.go,
-- commit_reconciliation.go).
use o_rabbit.Prelude.{
  ℕ, ◌+◌, positive_or, ◌≡◌, refl, Bool, true, false, not, ◌&&◌, ◌⊎◌, inl, inr, some, String, Memᴰ,
  ◌==◌, ltb, Bool-cases, ==_iff, if◌then◌else◌,
}
use o_rabbit.Table.{find_where, count_where}
use o_rabbit.Table.Laws.{find_where-some, update_where-mem}
use o_rabbit.Table.Key.{PrimaryKey}
use o_rabbit.Store.{Run, Db}
use o_rabbit.Store.Status.{RunStatus, run_is_committing}
use o_rabbit.Store.Tx.{Result, ok, Returns, Returns-ok, Returns-row, Returns-if}
use o_rabbit.Store.Events.{Sha}
use o_rabbit.Runs.Cancel.{is_past_cancel}
use o_rabbit.Runs.Finalize.{Wording, try_finalize_run}
use o_rabbit.Runs.Claim.{
  CommitPolicy, failure_outcome, failed_commit, committing_id, record_commit_failure,
}
use o_rabbit.Runs.Decide.{Decision, decide_run-Decision}

-- With unique run ids, TryFinalizeRun leaves an ended or COMMITTING run alone. Otherwise, where the run
-- has tasks and all of them SUCCEEDED, a RUNNING run is COMMITTING in phase PREPARING afterwards and
-- all other runs and all tasks are as they were, while a PLANNING run is answered in the same way but
-- nothing changes; where a task FAILED or is QUARANTINED, the run is FAILED and none of its tasks is
-- PENDING; and where some task is still open, nothing changes and the status of the run is answered.
pub try_finalize_run-Decision :
    (wording : Wording) (run_id now : ℕ) (db db' : Db) (out : Bool × RunStatus)
    → PrimaryKey (λ (x : Run). x.id) db.runs
    → try_finalize_run wording run_id now db ≡ ok (out, db')
    → (r : Run) × (find_where (λ (x : Run). x.id == run_id) db.runs ≡ some r)
      × ((is_past_cancel r.status ≡ true) × (out ≡ (false, r.status)) × (db' ≡ db)
          ⊎ (is_past_cancel r.status ≡ false) × Decision r run_id now db db' out)
unfolding try_finalize_run
try_finalize_run-Decision wording run_id now db db' out key h =
    Returns-ok Good (try_finalize_run wording run_id now db)
      (Returns-row Good (find_where (λ (r : Run). r.id == run_id) db.runs) _ _ λ r found.
        let (m, e) = find_where-some (λ (x : Run). x.id == run_id) db.runs found in
        Returns-if Good (is_past_cancel r.status) _ _ (λ late. (r, found, inl (late, refl, refl)))
          (λ early.
            lift r found early _
              (decide_run-Decision wording run_id now db r key m ((==_iff _ _).0 e) early)))
      h
  where
    Good : (Bool × RunStatus) × Db → Type 0
    Good o =
        (r : Run) × (find_where (λ (x : Run). x.id == run_id) db.runs ≡ some r)
        × ((is_past_cancel r.status ≡ true) × (o.0 ≡ (false, r.status)) × (o.1 ≡ db)
            ⊎ (is_past_cancel r.status ≡ false) × Decision r run_id now db o.1 o.0)

    lift :
        (r : Run)
        → find_where (λ (x : Run). x.id == run_id) db.runs ≡ some r
        → is_past_cancel r.status ≡ false
        → (res : Result ((Bool × RunStatus) × Db))
        → Returns (λ (o : (Bool × RunStatus) × Db). Decision r run_id now db o.1 o.0) res
        → Returns Good res
    lift r found early (Result.err e) d = tt
    lift r found early (ok o) d = (r, found, inr (early, d))

failed_commit-columns :
    (policy : CommitPolicy) (attempt : ℕ) (class why : String) (retryable operator_action : Bool)
    (now : ℕ) (r : Run)
    → let r' =
        failed_commit
          (failure_outcome policy attempt retryable operator_action now)
          attempt
          class
          why
          operator_action
          now
          r in
      (r'.id ≡ r.id)
      × (r'.commit_reconciliation_attempt_count ≡ attempt)
      × (r'.status ≡ (
          if retryable && not operator_action && ltb attempt (positive_or policy.max_attempts 5)
          then RunStatus.committing
          else RunStatus.failed))
unfolding failure_outcome
failed_commit-columns policy attempt class why true true now r = (refl, refl, refl)
failed_commit-columns policy attempt class why false true now r = (refl, refl, refl)
failed_commit-columns policy attempt class why false false now r = (refl, refl, refl)
failed_commit-columns policy attempt class why true false now r =
    elim (Bool-cases (ltb attempt (positive_or policy.max_attempts 5))) [
      | inl e ↦ rw e (refl, refl, refl)
      | inr e ↦ rw e (refl, refl, refl)
    ]

-- A failed publication of a COMMITTING run is counted; the run stays COMMITTING exactly where the
-- failure is retryable, needs no operator, and the count is below the limit of the policy (5 by
-- default), and is FAILED otherwise. A run that is not COMMITTING is left alone.
pub record_commit_failure-outcome :
    (name : Sha) (run_id : ℕ) (class why : String) (retryable operator_action : Bool) (now : ℕ)
    (policy : CommitPolicy) (db db' : Db)
    → record_commit_failure name run_id class why retryable operator_action now policy db
      ≡ ok (tt, db')
    → (r : Run) × (find_where (λ (x : Run). x.id == run_id) db.runs ≡ some r)
      × ((run_is_committing r.status ≡ true)
            × ((r' : Run) × Memᴰ r' db'.runs
                × (r'.id ≡ r.id)
                × (r'.commit_reconciliation_attempt_count
                    ≡ r.commit_reconciliation_attempt_count + 1)
                × (r'.status ≡ (
                    if retryable
                      && not operator_action
                      && ltb
                          (r.commit_reconciliation_attempt_count + 1)
                          (positive_or policy.max_attempts 5)
                    then RunStatus.committing
                    else RunStatus.failed)))
          ⊎ (run_is_committing r.status ≡ false) × (db' ≡ db))
unfolding record_commit_failure
record_commit_failure-outcome name run_id class why retryable operator_action now policy db db' h =
    Returns-ok Good
      (record_commit_failure name run_id class why retryable operator_action now policy db)
      (Returns-row Good (find_where (λ (r : Run). r.id == run_id) db.runs) _ _ λ r found.
        Returns-if Good (run_is_committing r.status) _ _
          (λ active.
            Returns-if Good (count_where (committing_id run_id) db.runs == 1) _ _
              (λ _.
                let (m, e) = find_where-some (λ (x : Run). x.id == run_id) db.runs found in
                let chosen : committing_id run_id r ≡ true = rw e active in
                let attempt = r.commit_reconciliation_attempt_count + 1 in
                let (i, c, s) =
                  failed_commit-columns policy attempt class why retryable operator_action now r in
                (
                  r,
                  found,
                  inl (
                    active,
                    (
                      _,
                      rw chosen at (
                          update_where-mem (committing_id run_id)
                            (failed_commit
                              (failure_outcome policy attempt retryable operator_action now) attempt
                              class why operator_action now)
                            db.runs m),
                      i,
                      c,
                      s,
                    ),
                  ),
                ))
              (λ _. tt))
          (λ idle. (r, found, inr (idle, refl))))
      h
  where
    Good : Unit {0} × Db → Type 0
    Good o =
        (r : Run) × (find_where (λ (x : Run). x.id == run_id) db.runs ≡ some r)
        × ((run_is_committing r.status ≡ true)
              × ((r' : Run) × Memᴰ r' o.1.runs
                  × (r'.id ≡ r.id)
                  × (r'.commit_reconciliation_attempt_count
                      ≡ r.commit_reconciliation_attempt_count + 1)
                  × (r'.status ≡ (
                      if retryable
                        && not operator_action
                        && ltb (r.commit_reconciliation_attempt_count + 1)
                            (positive_or policy.max_attempts 5)
                      then RunStatus.committing
                      else RunStatus.failed)))
            ⊎ (run_is_committing r.status ≡ false) × (o.1 ≡ db))
