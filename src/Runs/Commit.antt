-- ===== src/Runs/Commit.antt =====
-- The commit of a run (internal/db/store_runs.go): SaveCommitIntent, SetCommitPhase and
-- CompleteRunCommit. Opening the stored registration configuration is a parameter.
use package.text.Mathlib.Text.{◌==◌ as str_eq}
use o_rabbit.Prelude.{ℕ, Bool, false, not, ◌&&◌, none, some, String, [], ◌∷◌, ◌==◌, if◌then◌else◌}
use o_rabbit.Table.{find_where, count_where, update_where}
use o_rabbit.Store.{Run, Db}
use o_rabbit.Store.Status.{
  RunStatus, CommitPhase, ReconciliationStatus, run_is_committing, phase_is_verified,
}
use o_rabbit.Store.Tx.{
  Result, ok, guard, no_rows, not_committing, commit_conflict, commit_precondition, or_error, ◌>>=◌,
  ◌>>◌,
}
use o_rabbit.Store.Events.{Sha, text, num, commit, insert_or_ignore}
use o_rabbit.Runs.Admit.{run_event}
use o_rabbit.Runs.Register.{Codec, ensure_registration}

-- status='COMMITTING' AND commit_id=''
abbrev pub awaits_intent : ℕ → Run → Bool
awaits_intent id r = r.id == id && run_is_committing r.status && r.commit_id == 0

abbrev pub with_intent : (commit_id : ℕ) → String → Run → Run
with_intent commit_id intent r = record r {
  commit_id = commit_id;
  commit_intent = intent;
  commit_phase = CommitPhase.intent;
}

unfoldable pub save_commit_intent : (run_id commit_id : ℕ) → String → Db → Result (Unit {0} × Db)
save_commit_intent run_id commit_id intent db =
    if count_where (awaits_intent run_id) db.runs == 1
    then ok (
      tt,
      record db {
        runs = update_where (awaits_intent run_id) (with_intent commit_id intent) db.runs;
      },
    )
    else do
      r ← or_error (find_where (λ (r : Run). r.id == run_id) db.runs) no_rows
      guard (run_is_committing r.status) not_committing
      guard (r.commit_id == commit_id && str_eq r.commit_intent intent) commit_conflict
      ok (tt, db)

abbrev pub committing : ℕ → Run → Bool
committing id r = r.id == id && run_is_committing r.status

abbrev pub with_phase : CommitPhase → Run → Run
with_phase phase r = record r { commit_phase = phase }

unfoldable pub set_commit_phase : (run_id : ℕ) → CommitPhase → Db → Db
set_commit_phase run_id phase db = record db {
  runs = update_where (committing run_id) (with_phase phase) db.runs;
}

-- status='COMMITTING' AND commit_id<>'' AND commit_phase='VERIFIED'
abbrev pub is_verified : ℕ → Run → Bool
is_verified id r =
    r.id == id
    && run_is_committing r.status
    && not (r.commit_id == 0)
    && phase_is_verified r.commit_phase

-- WHERE id=? AND status='COMMITTING' AND commit_id=? AND commit_phase='VERIFIED'
abbrev pub still_verified : (id commit_id : ℕ) → Run → Bool
still_verified id commit_id r =
    r.id == id
    && run_is_committing r.status
    && r.commit_id == commit_id
    && phase_is_verified r.commit_phase

abbrev pub completed_run : (now : ℕ) → Run → Run
completed_run now r = record r {
  status = RunStatus.succeeded;
  finished_at = some now;
  error_summary = none;
  failure_class = "";
  commit_phase = CommitPhase.complete;
  commit_reconciliation_status = ReconciliationStatus.complete;
  commit_reconciliation_next_eligible_at = none;
  operator_action_required = false;
}

-- The writes to the run and the event of a completed commit.
unfoldable pub finish_commit : Sha → (run_id commit_id now : ℕ) → Db → Db
finish_commit name run_id commit_id now db = record db {
  runs = update_where (still_verified run_id commit_id) (completed_run now) db.runs;
  events =
      insert_or_ignore
        (run_event (name (text "commit-" ∷ num commit_id ∷ [])) run_id now "" (commit commit_id))
        db.events;
}

-- `decrypt` opens the stored registration configuration of a run (decryptRunRegistrationConfig).
unfoldable pub complete_run_commit :
    Sha
    → Sha
    → Codec
    → (decrypt : ℕ → String → Result String) → (run_id now : ℕ) → Db
    → Result (Unit {0} × Db)
unfolding finish_commit
complete_run_commit sha name codec decrypt run_id now db = do
  r ← or_error (find_where (is_verified run_id) db.runs) commit_precondition
  config ← decrypt run_id r.registration_config
  queued ←
      ensure_registration sha name codec run_id r.dataset_key r.commit_id config r.commit_intent now
        db
  guard (count_where (still_verified run_id r.commit_id) queued.runs == 1) commit_precondition
  ok (tt, finish_commit name run_id r.commit_id now queued)
