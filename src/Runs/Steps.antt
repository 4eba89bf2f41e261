-- ===== src/Runs/Steps.antt =====
-- Histories of the operations on runs (internal/db/run_admission.go, store_runs.go, run_failure.go,
-- commit_reconciliation.go) and on leases (internal/db/attempts.go), each in its own transaction.
-- A run is created PLANNING, as both callers of CreateRun do. UpdateRunStatus is no step: it writes any
-- status but SUCCEEDED to any run, and its callers are outside of the store
-- (internal/planner/planner.go, internal/grpc/maintenance.go).
use o_rabbit.Prelude.{ℕ, ℤ, ◌≡◌, sym, ◌∙◌, Bool, String, Memᴰ, List}
use o_rabbit.Table.Key.{PrimaryKey-Keyed}
use o_rabbit.Store.{Run, Db}
use o_rabbit.Store.Status.{RunStatus, CommitPhase}
use o_rabbit.Store.Tx.{Result, ok, Returns-ok}
use o_rabbit.Store.Events.{Sha}
use o_rabbit.Lease.Steps.{Step}
use o_rabbit.Runs.Admit.{create_run, admit_run, admit_pending_runs, fail_abandoned_planning_runs}
use o_rabbit.Runs.Cancel.{Cancellation, cancel_run}
use o_rabbit.Runs.Finalize.{Wording, try_finalize_run, record_run_failure}
use o_rabbit.Runs.Register.{Codec}
use o_rabbit.Runs.Commit.{save_commit_intent, set_commit_phase, complete_run_commit}
use o_rabbit.Runs.Claim.{
  CommitPolicy, claim_committing_run, renew_commit_claim, release_commit_claim,
  record_commit_failure,
}
use o_rabbit.Runs.Life.{HasGrown, RunPath, RunPath-trans, RunPath-HasGrown}
use o_rabbit.Runs.Consistent.{RunsOk, RunPath-RunsOk}
use o_rabbit.Runs.Refine.{
  Moves, create_run-Moves, admit_run-Moves, admit_pending_runs-Moves,
  fail_abandoned_planning_runs-Moves, cancel_run-Moves,
}
use o_rabbit.Runs.RefineCommit.{
  try_finalize_run-Moves, record_run_failure-Moves, save_commit_intent-Moves,
  set_commit_phase-Moves, complete_run_commit-Moves, claim_committing_run-Moves,
  renew_commit_claim-Moves, release_commit_claim-Moves, record_commit_failure-Moves,
}
use o_rabbit.Runs.Leases.{Step-RunPath}

-- What the operations take from outside: SHA-256, the joining of texts, JSON, the cipher of stored
-- configurations, the wording of a summary, and the configured retention of objects.
pub record Setting : Type 0 where
  pub sha : Sha
  pub name : Sha
  pub codec : Codec
  pub decrypt : ℕ → String → Result String
  pub wording : Wording
  pub retention : ℤ

-- One committed operation.
pub data RunStep (s : Setting) (db db' : Db) : Type 0 where
  leases : Step s.sha db db' → RunStep s db db'
  creates :
      (r : Run) → r.status ≡ RunStatus.planning → create_run r db ≡ ok (tt, db') → RunStep s db db'
  admits :
      (max_active : ℤ) (run_id : ℕ) (b : Bool)
      → admit_run max_active run_id db ≡ ok (b, db')
      → RunStep s db db'
  admits_pending :
      (max_active : ℤ) (now n : ℕ) (seen : Db)
      → admit_pending_runs s.name max_active now seen db ≡ (n, db')
      → RunStep s db db'
  fails_abandoned :
      (now : ℕ) (failed : List Run)
      → fail_abandoned_planning_runs s.name now db ≡ (failed, db')
      → RunStep s db db'
  cancels :
      (run_id : ℕ) (given : String) (now : ℕ) (c : Cancellation)
      → cancel_run s.sha s.name s.retention run_id given now db ≡ ok (c, db')
      → RunStep s db db'
  finalizes :
      (run_id now : ℕ) (out : Bool × RunStatus)
      → try_finalize_run s.wording run_id now db ≡ ok (out, db')
      → RunStep s db db'
  records_failure :
      (run_id : ℕ) (class phase : String)
      → record_run_failure run_id class phase db ≡ db'
      → RunStep s db db'
  saves_intent :
      (run_id commit_id : ℕ) (intent : String)
      → save_commit_intent run_id commit_id intent db ≡ ok (tt, db')
      → RunStep s db db'
  sets_phase :
      (run_id : ℕ) (phase : CommitPhase) → set_commit_phase run_id phase db ≡ db' → RunStep s db db'
  completes :
      (run_id now : ℕ)
      → complete_run_commit s.sha s.name s.codec s.decrypt run_id now db ≡ ok (tt, db')
      → RunStep s db db'
  claims :
      (run_id token now lease : ℕ) (b : Bool)
      → claim_committing_run run_id token now lease db ≡ (b, db')
      → RunStep s db db'
  renews :
      (run_id token now lease : ℕ)
      → renew_commit_claim run_id token now lease db ≡ ok (tt, db')
      → RunStep s db db'
  releases : (run_id token : ℕ) → release_commit_claim run_id token db ≡ db' → RunStep s db db'
  fails_commit :
      (run_id : ℕ) (class why : String) (retryable operator_action : Bool) (now : ℕ)
      (policy : CommitPolicy)
      → record_commit_failure s.name run_id class why retryable operator_action now policy db
        ≡ ok (tt, db')
      → RunStep s db db'

pub data RunReach (s : Setting) (db : Db) : Db → Type 0 where
  here : RunReach s db db
  next : {db' db'' : Db} → RunReach s db db' → RunStep s db' db'' → RunReach s db db''

pub RunStep-RunPath :
    (s : Setting) (db db' : Db) → RunsOk db.runs → RunStep s db db' → RunPath db.runs db'.runs
RunStep-RunPath s db db' k (leases h) = Step-RunPath s.sha db db' h
RunStep-RunPath s db db' k (creates r p h) = Returns-ok (Moves db) _ (create_run-Moves r db p) h
RunStep-RunPath s db db' k (admits m r b h) = Returns-ok (Moves db) _ (admit_run-Moves m r db) h
RunStep-RunPath s db db' k (admits_pending m now n seen h) =
    rw h at (admit_pending_runs-Moves s.name m now seen db)
RunStep-RunPath s db db' k (fails_abandoned now failed h) =
    rw h at (fail_abandoned_planning_runs-Moves s.name now db)
RunStep-RunPath s db db' k (cancels r given now c h) =
    Returns-ok (Moves db) _ (cancel_run-Moves s.sha s.name s.retention r given now db k.key) h
RunStep-RunPath s db db' k (finalizes r now out h) =
    Returns-ok (Moves db) _ (try_finalize_run-Moves s.wording r now db k.key) h
RunStep-RunPath s db db' k (records_failure r class phase h) =
    rw (← h) (record_run_failure-Moves r class phase db)
RunStep-RunPath s db db' k (saves_intent r c intent h) =
    Returns-ok (Moves db) _ (save_commit_intent-Moves r c intent db) h
RunStep-RunPath s db db' k (sets_phase r phase h) = rw (← h) (set_commit_phase-Moves r phase db)
RunStep-RunPath s db db' k (completes r now h) =
    Returns-ok (Moves db) _ (complete_run_commit-Moves s.sha s.name s.codec s.decrypt r now db) h
RunStep-RunPath s db db' k (claims r token now lease b h) =
    rw h at (claim_committing_run-Moves r token now lease db)
RunStep-RunPath s db db' k (renews r token now lease h) =
    Returns-ok (Moves db) _ (renew_commit_claim-Moves r token now lease db) h
RunStep-RunPath s db db' k (releases r token h) = rw (← h) (release_commit_claim-Moves r token db)
RunStep-RunPath s db db' k (fails_commit r class why retryable operator_action now policy h) =
    Returns-ok (Moves db) _
      (record_commit_failure-Moves s.name r class why retryable operator_action now policy db) h

-- Whatever of these operations on runs and leases commit, in whatever order, a well-formed table of
-- runs changes only by moves of the life cycle and by new PLANNING runs: the store implements the
-- abstract machine.
pub RunReach-RunPath :
    (s : Setting) (db db' : Db) → RunsOk db.runs → RunReach s db db' → RunPath db.runs db'.runs
RunReach-RunPath s db db' k here = RunPath.here
RunReach-RunPath s db db' k (next {db' = mid} r st) =
    let path = RunReach-RunPath s db mid k r in
    RunPath-trans path (RunStep-RunPath s mid db' (RunPath-RunsOk k path) st)

-- Whatever of these operations on runs and leases commit, run ids stay unique, a SUCCEEDED run
-- keeps a commit id and the phase COMPLETE, and no dataset has two open runs.
pub RunReach-RunsOk :
    (s : Setting) (db db' : Db) → RunsOk db.runs → RunReach s db db' → RunsOk db'.runs
RunReach-RunsOk s db db' k r = RunPath-RunsOk k (RunReach-RunPath s db db' k r)

-- Whatever of these operations on runs and leases commit, every run of a well-formed table is
-- still there under its id, its status has only gone along the life cycle, so that SUCCEEDED, FAILED and
-- CANCELED are final, and its commit id and intent are unchanged once it has a commit id.
pub run_history :
    (s : Setting) (db db' : Db) (r : Run)
    → RunsOk db.runs
    → RunReach s db db'
    → Memᴰ r db.runs
    → ((r' : Run) × Memᴰ r' db'.runs × HasGrown r r')
      × ((r' : Run) → Memᴰ r' db'.runs → r'.id ≡ r.id → HasGrown r r')
run_history s db db' r k reach m =
    let (r', m', g) = RunPath-HasGrown r (RunReach-RunPath s db db' k reach) m in
    let key = (RunReach-RunsOk s db db' k reach).key in
    (
      (r', m', g),
      λ x mx e.
          let same : r' ≡ x =
            PrimaryKey-Keyed (λ y. y.id) db'.runs key r' x m' mx (g.same_id ∙ sym e) in
          rw same at g,
    )
