-- ===== src/Runs/Completion.antt =====
-- What a completed commit wrote (internal/db/store_runs.go, CompleteRunCommit;
-- internal/db/registrations.go, ensureRegistrationTx).
use o_rabbit.Prelude.{
  ℕ, ◌<◌, ◌≤◌, ◌≡◌, refl, sym, ◌∙◌, ap, true, ◌⊎◌, inl, inr, Option, none, some, List, [], ◌∷◌,
  String, Memᴰ, arith, ◌==◌, Bool-cases,
}
use o_rabbit.Table.{find_where, count_where, any_where}
use o_rabbit.Table.Laws.{find_where-some, update_where-mem}
use o_rabbit.Table.Keyed.{mem-append_one}
use o_rabbit.Store.{Run, Registration, Db}
use o_rabbit.Store.Status.{RunStatus, CommitPhase, ReconciliationStatus}
use o_rabbit.Store.Tx.{Result, ok, Returns, Returns-ok, Returns-row, Returns-bind, Returns-guard}
use o_rabbit.Store.Events.{Sha}
use o_rabbit.Runs.Register.{
  Codec, RegistrationConfig, CommitIntent, Manifest, last_sequence, is_in_sequence,
  registration_conflicts, queue_registration, new_registration, check_intent, wanted, register_if,
  ensure_registration,
}
use o_rabbit.Runs.Commit.{is_verified, still_verified, completed_run, complete_run_commit}
use o_rabbit.Runs.RefineCommit.{ensure_registration-runs}

-- The sequence numbers of a dataset and target are at most the last one.
last_sequence-ge :
    (dataset_id target_key : ℕ) (xs : List Registration) (y : Registration)
    → Memᴰ y xs
    → is_in_sequence dataset_id target_key y ≡ true
    → y.dataset_sequence ≤ last_sequence dataset_id target_key xs
unfolding last_sequence
last_sequence-ge d t [] y m h = elim m [ ]
last_sequence-ge d t (x ∷ xs) y (Memᴰ.head e) h =
    let k : is_in_sequence d t x ≡ true = ap (is_in_sequence d t) (sym e) ∙ h in
    ground (arith, ap (λ r. r.dataset_sequence) e, k)
last_sequence-ge d t (x ∷ xs) y (Memᴰ.tail m) h = ground (arith, last_sequence-ge d t xs y m h)

-- A row that was queued for a commit, behind all rows of its dataset and target.
pub record IsQueued (run_id dataset_id commit_id : ℕ) (before : List Registration)
    (x : Registration) : Type 0 where
  pub of_run : (x.run_id ≡ run_id) × (x.dataset_id ≡ dataset_id) × (x.commit_id ≡ commit_id)
  pub behind :
      (y : Registration)
      → Memᴰ y before
      → y.dataset_id ≡ x.dataset_id
      → y.target_key ≡ x.target_key
      → y.dataset_sequence < x.dataset_sequence

module _ (sha name : Sha) (codec : Codec) (run_id dataset_id commit_id now : ℕ) (db : Db) where
  abbrev OldOrQueued : Db → Type 0
  OldOrQueued out =
      (x : Registration)
      → Memᴰ x out.registrations
      → Memᴰ x db.registrations ⊎ IsQueued run_id dataset_id commit_id db.registrations x

  new_registration-IsQueued :
      (c : RegistrationConfig) (intent : CommitIntent) (manifest : Manifest)
      → IsQueued run_id dataset_id commit_id db.registrations
          (new_registration sha name codec c intent manifest run_id dataset_id commit_id now db)
  unfolding new_registration is_in_sequence
  new_registration-IsQueued c intent manifest = record {
    of_run = (refl, refl, refl);
    behind = λ y m ed et.
        let x =
          new_registration sha name codec c intent manifest run_id dataset_id commit_id now db in
        let target = x.target_key in
        omega
          (arith, last_sequence-ge dataset_id target db.registrations y m (both y target ed et));
  }
    where
      both :
          (y : Registration) (target : ℕ)
          → y.dataset_id ≡ dataset_id
          → y.target_key ≡ target
          → is_in_sequence dataset_id target y ≡ true
      both y target ed et = ground arith

  queue_registration-OldOrQueued :
      (x : Registration)
      → IsQueued run_id dataset_id commit_id db.registrations x
      → OldOrQueued (queue_registration name now x db)
  unfolding queue_registration
  queue_registration-OldOrQueued x q =
      elim (Bool-cases (any_where (registration_conflicts x) db.registrations)) [
        | inl e ↦ λ y m. inl (rw e at m)
        | inr e ↦ λ y m. elim (mem-append_one db.registrations x (rw e at m)) [
          | inl old ↦ inl old
          | inr new ↦ inr (rw new q)
        ]
      ]

  ensure_registration-OldOrQueued :
      (config_json intent_json : String)
      → Returns OldOrQueued (
          ensure_registration sha name codec run_id dataset_id commit_id config_json intent_json now
            db)
  unfolding ensure_registration
  ensure_registration-OldOrQueued config_json intent_json =
      by_config (wanted sha name codec config_json)
    where
      by_config :
          (c : Option RegistrationConfig)
          → Returns OldOrQueued
              (register_if sha name codec c run_id dataset_id commit_id intent_json now db)
      by_config none = λ x m. inl m
      by_config (some c) =
          Returns-bind OldOrQueued (check_intent sha name codec run_id commit_id intent_json) _
            λ found _.
              queue_registration-OldOrQueued
                (new_registration sha name codec c found.0 found.1 run_id dataset_id commit_id now
                  db)
                (new_registration-IsQueued c found.0 found.1)

-- A run that was completed: SUCCEEDED, with the commit that it had, and nothing left to reconcile.
pub record IsCompleted (now : ℕ) (r r' : Run) : Type 0 where
  pub same_run : (r'.id ≡ r.id) × (r'.dataset_key ≡ r.dataset_key)
  pub succeeded : r'.status ≡ RunStatus.succeeded
  pub finished : r'.finished_at ≡ some now
  pub phase : r'.commit_phase ≡ CommitPhase.complete
  pub same_commit : (r'.commit_id ≡ r.commit_id) × (r'.commit_intent ≡ r.commit_intent)
  pub reconciled : r'.commit_reconciliation_status ≡ ReconciliationStatus.complete
  pub no_failure : r'.error_summary ≡ none

completed_run-IsCompleted : (now : ℕ) (r : Run) → IsCompleted now r (completed_run now r)
completed_run-IsCompleted now r = record {
  same_run = (refl, refl);
  succeeded = refl;
  finished = refl;
  phase = refl;
  same_commit = (refl, refl);
  reconciled = refl;
  no_failure = refl;
}

-- A commit is completed only for a run that is COMMITTING with a commit id and in phase VERIFIED. The
-- run is SUCCEEDED afterwards, in phase COMPLETE, with the same commit and nothing left to reconcile,
-- and every catalog registration that is new is for this commit and stands behind all earlier
-- registrations of its dataset and target.
pub complete_run_commit-eq-ok :
    (sha name : Sha) (codec : Codec) (decrypt : ℕ → String → Result String) (run_id now : ℕ)
    (db db' : Db)
    → complete_run_commit sha name codec decrypt run_id now db ≡ ok (tt, db')
    → (r : Run) × Memᴰ r db.runs
      × (is_verified run_id r ≡ true)
      × ((r' : Run) × Memᴰ r' db'.runs × IsCompleted now r r')
      × ((x : Registration)
          → Memᴰ x db'.registrations
          → Memᴰ x db.registrations ⊎ IsQueued run_id r.dataset_key r.commit_id db.registrations x)
unfolding complete_run_commit
complete_run_commit-eq-ok sha name codec decrypt run_id now db db' h =
    Returns-ok Good (complete_run_commit sha name codec decrypt run_id now db)
      (Returns-row Good (find_where (is_verified run_id) db.runs) _ _ λ r found.
        let (m, verified) = find_where-some (is_verified run_id) db.runs found in
        Returns-bind Good (decrypt run_id r.registration_config) _ λ config _.
          let ensured =
            ensure_registration sha name codec run_id r.dataset_key r.commit_id config
              r.commit_intent now db in
          Returns-bind Good ensured _ λ queued done.
            let same =
              Returns-ok (λ (out : Db). out.runs ≡ db.runs) ensured
                (ensure_registration-runs sha name codec run_id r.dataset_key r.commit_id config
                  r.commit_intent now db)
                done in
            let registered =
              Returns-ok (OldOrQueued sha name codec run_id r.dataset_key r.commit_id now db)
                ensured
                (ensure_registration-OldOrQueued sha name codec run_id r.dataset_key r.commit_id now
                  db config r.commit_intent)
                done in
            Returns-guard Good (count_where (still_verified run_id r.commit_id) queued.runs == 1) _
              _
              λ _.
                let chosen : still_verified run_id r.commit_id r ≡ true = ground arith in
                (
                  r,
                  m,
                  verified,
                  (
                    _,
                    rw same (
                        rw chosen at (
                          update_where-mem (still_verified run_id r.commit_id) (completed_run now)
                            db.runs m)),
                    completed_run-IsCompleted now r,
                  ),
                  registered,
                ))
      h
  where
    Good : Unit {0} × Db → Type 0
    Good o =
        (r : Run) × Memᴰ r db.runs
        × (is_verified run_id r ≡ true)
        × ((r' : Run) × Memᴰ r' o.1.runs × IsCompleted now r r')
        × ((x : Registration)
            → Memᴰ x o.1.registrations
            → Memᴰ x db.registrations
              ⊎ IsQueued run_id r.dataset_key r.commit_id db.registrations x)
