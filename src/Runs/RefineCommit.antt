-- ===== src/Runs/RefineCommit.antt =====
-- The commit of a run and its claims make moves of the life cycle (internal/db/store_runs.go,
-- run_failure.go, commit_reconciliation.go).
use o_rabbit.Prelude.{
  ℕ, ◌≡◌, ◌≢◌, refl, Bool, true, not, ◌&&◌, ◌⊎◌, Option, none, some, String, arith, ◌==◌, ◌+◌,
}
use package.text.Mathlib.Text.{◌==◌ as str_eq}
use o_rabbit.Table.{find_where, count_where}
use o_rabbit.Table.Laws.{find_where-some}
use o_rabbit.Table.Key.{PrimaryKey}
use o_rabbit.Store.{Run, Registration, Db}
use o_rabbit.Store.Status.{RunStatus, CommitPhase, run_is_committing}
use o_rabbit.Store.Tx.{
  Result, Returns, Returns-ok, Returns-if, Returns-guard, Returns-row, Returns-bind,
}
use o_rabbit.Store.Events.{Sha}
use o_rabbit.Runs.Cancel.{is_past_cancel}
use o_rabbit.Runs.Finalize.{
  total_tasks, failed_tasks, succeeded_tasks, Wording, try_finalize_run, record_run_failure,
}
use o_rabbit.Runs.Register.{
  Codec, queue_registration, ensure_registration, register_if, wanted, RegistrationConfig,
  check_intent,
}
use o_rabbit.Runs.Commit.{
  save_commit_intent, set_commit_phase, complete_run_commit, still_verified, awaits_intent,
  is_verified,
}
use o_rabbit.Runs.Claim.{
  claim_committing_run, renew_commit_claim, release_commit_claim, record_commit_failure,
  failed_commit, failure_outcome, Outcome, CommitPolicy, committing_id, holds_claim,
}
use o_rabbit.Runs.Life.{IsMove, RunPath, here, one_move}
use o_rabbit.Runs.Refine.{Moves, plain-IsMove, same-IsMove, by_id-RunPath}

pub try_finalize_run-Moves :
    (wording : Wording) (run_id now : ℕ) (db : Db)
    → PrimaryKey (λ (x : Run). x.id) db.runs
    → Returns (Moves db) (try_finalize_run wording run_id now db)
unfolding try_finalize_run
try_finalize_run-Moves wording run_id now db key =
    Returns-row _ (find_where (λ (r : Run). r.id == run_id) db.runs) _ _ λ r found.
      Returns-if _ (is_past_cancel r.status) _ _ (λ _. here)
        (λ early. Returns-guard _ (not (total_tasks run_id db == 0)) _ _ λ _.
          Returns-if _ (not (failed_tasks run_id db == 0)) _ _
            (λ _.
              by_id-RunPath run_id _ r db.runs key found early
                (λ x h. plain-IsMove x _ refl refl (ground arith) refl refl (λ q. cc)))
            (λ _.
              Returns-if _ (succeeded_tasks run_id db == total_tasks run_id db) _ _
                (λ _.
                  one_move _ _ db.runs
                    (λ x h. plain-IsMove x _ refl refl (ground arith) refl refl (λ q. cc)))
                (λ _. here)))

pub record_run_failure-Moves :
    (run_id : ℕ) (class phase : String) (db : Db)
    → RunPath db.runs (record_run_failure run_id class phase db).runs
unfolding record_run_failure
record_run_failure-Moves run_id class phase db =
    one_move _ _ db.runs (λ x h. same-IsMove x _ refl refl refl refl refl refl)

pub save_commit_intent-Moves :
    (run_id commit_id : ℕ) (intent : String) (db : Db)
    → Returns (Moves db) (save_commit_intent run_id commit_id intent db)
unfolding save_commit_intent
save_commit_intent-Moves run_id commit_id intent db =
    Returns-if _ (count_where (awaits_intent run_id) db.runs == 1) _ _
      (λ _. one_move _ _ db.runs (λ x h. record {
        same_id = refl;
        same_dataset = refl;
        edge = ground arith;
        same_commit = λ n. absurd (n (ground arith));
        same_intent = λ n. absurd (n (ground arith));
        committed = λ k. record { commit = λ q. ground arith; phase = λ q. ground arith };
      }))
      (λ _. Returns-row _ (find_where (λ (r : Run). r.id == run_id) db.runs) _ _ λ r found.
        Returns-guard _ (run_is_committing r.status) _ _ λ _.
          Returns-guard _ (r.commit_id == commit_id && str_eq r.commit_intent intent) _ _ λ _. here)

pub set_commit_phase-Moves :
    (run_id : ℕ) (phase : CommitPhase) (db : Db)
    → RunPath db.runs (set_commit_phase run_id phase db).runs
unfolding set_commit_phase
set_commit_phase-Moves run_id phase db =
    one_move _ _ db.runs
      (λ x h. plain-IsMove x _ refl refl (ground arith) refl refl (λ q. ground arith))

-- Queueing a registration does not touch the runs.
pub ensure_registration-runs :
    (sha name : Sha) (codec : Codec) (run_id dataset_id commit_id : ℕ)
    (config_json intent_json : String) (now : ℕ) (db : Db)
    → Returns
        (λ (out : Db). out.runs ≡ db.runs)
        (ensure_registration sha name codec run_id dataset_id commit_id config_json intent_json now
          db)
unfolding ensure_registration
ensure_registration-runs sha name codec run_id dataset_id commit_id config_json intent_json now db =
    by_config (wanted sha name codec config_json)
  where
    queued : (x : Registration) → (queue_registration name now x db).runs ≡ db.runs
    queued x = ground arith

    by_config :
        (c : Option RegistrationConfig)
        → Returns
            (λ (out : Db). out.runs ≡ db.runs)
            (register_if sha name codec c run_id dataset_id commit_id intent_json now db)
    by_config none = refl
    by_config (some c) =
        Returns-bind _ (check_intent sha name codec run_id commit_id intent_json) _
          λ found _. queued _

pub complete_run_commit-Moves :
    (sha name : Sha) (codec : Codec) (decrypt : ℕ → String → Result String) (run_id now : ℕ)
    (db : Db)
    → Returns (Moves db) (complete_run_commit sha name codec decrypt run_id now db)
unfolding complete_run_commit
complete_run_commit-Moves sha name codec decrypt run_id now db =
    Returns-row _ (find_where (is_verified run_id) db.runs) _ _ λ r found.
      let (_, verified) = find_where-some _ db.runs found in
      let has_commit : r.commit_id ≢ 0 = ground arith in
      Returns-bind _ (decrypt run_id r.registration_config) _ λ config _.
        Returns-bind _
          (ensure_registration sha name codec run_id r.dataset_key r.commit_id config
            r.commit_intent now db)
          _
          λ queued done.
            let same =
              Returns-ok (λ (out : Db). out.runs ≡ db.runs) _
                (ensure_registration-runs sha name codec run_id r.dataset_key r.commit_id config
                  r.commit_intent now db)
                done in
            Returns-guard _ (count_where (still_verified run_id r.commit_id) queued.runs == 1) _ _
              λ _. rw same (
                one_move _ _ db.runs (λ x h. record {
                  same_id = refl;
                  same_dataset = refl;
                  edge = ground arith;
                  same_commit = λ n. refl;
                  same_intent = λ n. refl;
                  committed = λ k. record { commit = λ q. ground arith; phase = λ q. refl };
                }))

pub claim_committing_run-Moves :
    (run_id token now lease : ℕ) (db : Db)
    → Moves db (claim_committing_run run_id token now lease db)
unfolding claim_committing_run
claim_committing_run-Moves run_id token now lease db =
    one_move _ _ db.runs (λ x h. same-IsMove x _ refl refl refl refl refl refl)

pub renew_commit_claim-Moves :
    (run_id token now lease : ℕ) (db : Db)
    → Returns (Moves db) (renew_commit_claim run_id token now lease db)
unfolding renew_commit_claim
renew_commit_claim-Moves run_id token now lease db =
    Returns-if _ (count_where (holds_claim run_id token now) db.runs == 1) _ _
      (λ _. one_move _ _ db.runs (λ x h. same-IsMove x _ refl refl refl refl refl refl)) (λ _. tt)

pub release_commit_claim-Moves :
    (run_id token : ℕ) (db : Db) → RunPath db.runs (release_commit_claim run_id token db).runs
unfolding release_commit_claim
release_commit_claim-Moves run_id token db =
    one_move _ _ db.runs (λ x h. same-IsMove x _ refl refl refl refl refl refl)

-- A failure ends the run or leaves it COMMITTING.
outcome_status :
    (policy : CommitPolicy) (attempt : ℕ) (retryable operator_action : Bool) (now : ℕ)
    → let o = failure_outcome policy attempt retryable operator_action now in
      (o.run_status ≡ RunStatus.failed) ⊎ (o.run_status ≡ RunStatus.committing)
unfolding failure_outcome
outcome_status policy attempt retryable operator_action now = ground arith

failed_commit-IsMove :
    (o : Outcome) (attempt : ℕ) (class why : String) (operator_action : Bool) (now : ℕ) (r : Run)
    → (o.run_status ≡ RunStatus.failed) ⊎ (o.run_status ≡ RunStatus.committing)
    → run_is_committing r.status ≡ true
    → IsMove r (failed_commit o attempt class why operator_action now r)
failed_commit-IsMove o attempt class why operator_action now r s h =
    plain-IsMove r _ (ground arith) (ground arith) (ground arith) (ground arith) (ground arith)
      (λ q. ground arith)

pub record_commit_failure-Moves :
    (name : Sha) (run_id : ℕ) (class why : String) (retryable operator_action : Bool) (now : ℕ)
    (policy : CommitPolicy) (db : Db)
    → Returns
        (Moves db)
        (record_commit_failure name run_id class why retryable operator_action now policy db)
unfolding record_commit_failure
record_commit_failure-Moves name run_id class why retryable operator_action now policy db =
    Returns-row _ (find_where (λ (r : Run). r.id == run_id) db.runs) _ _ λ r found.
      Returns-if _ (run_is_committing r.status) _ _
        (λ _.
          Returns-if _ (count_where (committing_id run_id) db.runs == 1) _ _
            (λ _. one_move _ _ db.runs (λ x h.
              failed_commit-IsMove _ _ class why operator_action now x
                (outcome_status policy (r.commit_reconciliation_attempt_count + 1) retryable
                  operator_action now)
                (ground arith)))
            (λ _. tt))
        (λ _. here)
