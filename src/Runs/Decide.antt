-- ===== src/Runs/Decide.antt =====
-- The decision of TryFinalizeRun on a run that is PLANNING or RUNNING (internal/db/store_runs.go).
use o_rabbit.Prelude.{
  ℕ, ◌≤◌, ◌≡◌, ◌≢◌, refl, sym, ◌∙◌, ap, Bool, true, false, not, ◌&&◌, ◌⊎◌, inl, inr, none, List, [],
  ◌∷◌, Memᴰ, arith, ◌==◌, Bool-cases, ==_iff, if◌then◌else◌,
}
use o_rabbit.Table.{count_where}
use o_rabbit.Table.Laws.{mem-update_where, update_where-mem, update_where_none}
use o_rabbit.Table.Key.{PrimaryKey, PrimaryKey-Keyed, count_where_mono}
use o_rabbit.Store.{Run, Task, Db}
use o_rabbit.Store.Status.{
  RunStatus, TaskStatus, CommitPhase, ReconciliationStatus, task_is_pending, task_is_succeeded,
}
use o_rabbit.Store.Tx.{Returns, Returns-if, Returns-guard}
use o_rabbit.Runs.Cancel.{is_past_cancel, pending_in_run}
use o_rabbit.Runs.Finalize.{
  Wording, of_run, total_tasks, succeeded_tasks, failed_tasks, decide_run, fail_run, begin_commit,
  running_id, committing_run, failed_run, task_failure, dropped_task,
}

-- Where a narrower condition counts as many rows, it holds wherever the wider one does.
count_where_all {ℓ} :
    {A : Type ℓ} (p q : A → Bool) (xs : List A) {a : A}
    → count_where (λ x. p x && q x) xs ≡ count_where p xs
    → Memᴰ a xs
    → p a ≡ true
    → q a ≡ true
unfolding count_where
count_where_all p q [] h m t = elim m [ ]
count_where_all p q (x ∷ xs) h (Memᴰ.head e) t = rw e (first (rw e at t))
  where
    bound : count_where (λ x. p x && q x) xs ≤ count_where p xs
    bound = count_where_mono _ p xs (λ a k. ground arith)

    first : p x ≡ true → q x ≡ true
    first k = ground (arith, bound, h)
count_where_all p q (x ∷ xs) h (Memᴰ.tail m) t = count_where_all p q xs rest m t
  where
    bound : count_where (λ x. p x && q x) xs ≤ count_where p xs
    bound = count_where_mono _ p xs (λ a k. ground arith)

    rest : count_where (λ x. p x && q x) xs ≡ count_where p xs
    rest = ground (arith, bound, h)

-- The columns of a run whose commit begins: nothing of an earlier failure is left.
pub record IsCommitting (r' : Run) : Type 0 where
  pub status : r'.status ≡ RunStatus.committing
  pub phase : r'.commit_phase ≡ CommitPhase.preparing
  pub reconciliation : r'.commit_reconciliation_status ≡ ReconciliationStatus.pending
  pub no_failures : r'.commit_reconciliation_attempt_count ≡ 0
  pub no_summary : r'.error_summary ≡ none
  pub no_operator : r'.operator_action_required ≡ false

-- The decision on a run `r` that is not ended and not COMMITTING.
pub data Decision (r : Run) (run_id now : ℕ) (db db' : Db) : Bool × RunStatus → Type 0 where
  -- The run is RUNNING and every task has SUCCEEDED: it is COMMITTING, and all else is as it was.
  commits :
      r.status ≡ RunStatus.running
      → ((t : Task) → Memᴰ t db.tasks → t.run_id ≡ run_id → t.status ≡ TaskStatus.succeeded)
      → total_tasks run_id db ≢ 0
      → ((r' : Run) × Memᴰ r' db'.runs × (r'.id ≡ run_id))
      → ((r' : Run) → Memᴰ r' db'.runs → r'.id ≡ run_id → IsCommitting r')
      → ((x : Run) → Memᴰ x db.runs → x.id ≢ run_id → Memᴰ x db'.runs)
      → db'.tasks ≡ db.tasks
      → Decision r run_id now db db' (true, RunStatus.committing)
  -- The run is PLANNING and every task has SUCCEEDED: the answer is the same, but nothing changes.
  claims_only :
      r.status ≡ RunStatus.planning
      → ((t : Task) → Memᴰ t db.tasks → t.run_id ≡ run_id → t.status ≡ TaskStatus.succeeded)
      → total_tasks run_id db ≢ 0
      → db' ≡ db
      → Decision r run_id now db db' (true, RunStatus.committing)
  -- A task has failed for good: the run is FAILED, and none of its tasks is PENDING.
  fails :
      failed_tasks run_id db ≢ 0
      → ((r' : Run) × Memᴰ r' db'.runs × (r'.id ≡ run_id))
      → ((r' : Run) → Memᴰ r' db'.runs → r'.id ≡ run_id → r'.status ≡ RunStatus.failed)
      → ((t : Task) → Memᴰ t db'.tasks → t.run_id ≡ run_id → task_is_pending t.status ≡ false)
      → Decision r run_id now db db' (true, RunStatus.failed)
  -- Some task is still open.
  waits :
      failed_tasks run_id db ≡ 0
      → succeeded_tasks run_id db ≢ total_tasks run_id db
      → db' ≡ db
      → Decision r run_id now db db' (false, r.status)

-- A run that CancelRun would still cancel is PLANNING or RUNNING.
early_status :
    (s : RunStatus) → is_past_cancel s ≡ false → (s ≡ RunStatus.planning) ⊎ (s ≡ RunStatus.running)
early_status RunStatus.planning h = inl refl
early_status RunStatus.running h = inr refl
early_status RunStatus.succeeded h = cc h
early_status RunStatus.failed h = cc h
early_status RunStatus.canceled h = cc h
early_status RunStatus.committing h = cc h

module _ (wording : Wording) (run_id now : ℕ) (db : Db) (r : Run)
    (key : PrimaryKey (λ (x : Run). x.id) db.runs) (m : Memᴰ r db.runs) (own : r.id ≡ run_id) where
  all_succeeded :
      succeeded_tasks run_id db ≡ total_tasks run_id db
      → (t : Task) → Memᴰ t db.tasks
      → t.run_id ≡ run_id
      → t.status ≡ TaskStatus.succeeded
  unfolding succeeded_tasks total_tasks
  all_succeeded e t mt of_it = status t (
      count_where_all (of_run run_id) (λ (x : Task). task_is_succeeded x.status) db.tasks e mt
        ((==_iff _ _).1 of_it))
    where
      status : (t : Task) → task_is_succeeded t.status ≡ true → t.status ≡ TaskStatus.succeeded
      status t h = ground arith

  -- The only run with the id is `r`.
  only_run : (x : Run) → Memᴰ x db.runs → x.id ≡ run_id → x ≡ r
  only_run x mx e = PrimaryKey-Keyed _ db.runs key x r mx m (e ∙ sym own)

  begin_commit-IsCommitting :
      r.status ≡ RunStatus.running
      → (r' : Run) → Memᴰ r' (begin_commit run_id db).runs
      → r'.id ≡ run_id
      → IsCommitting r'
  begin_commit-IsCommitting running r' m' e =
      let (x, mx, ex) = mem-update_where (running_id run_id) committing_run db.runs m' in
      let kept = after_id (running_id run_id x) x in
      let q : x ≡ r = only_run x mx (sym kept ∙ ap (λ (y : Run). y.id) (sym ex) ∙ e) in
      let chosen : running_id run_id x ≡ true = rw q (ground (arith, own, running)) in
      rw ex (
        rw chosen (record {
          status = refl;
          phase = refl;
          reconciliation = refl;
          no_failures = refl;
          no_summary = refl;
          no_operator = refl;
        }))
    where
      after_id : (b : Bool) (x : Run) → (if b then committing_run x else x).id ≡ x.id
      after_id true x = refl
      after_id false x = refl

  begin_commit-others :
      (x : Run) → Memᴰ x db.runs → x.id ≢ run_id → Memᴰ x (begin_commit run_id db).runs
  begin_commit-others x mx n =
      let passed : running_id run_id x ≡ false = ground (arith, n) in
      rw passed at (update_where-mem (running_id run_id) committing_run db.runs mx)

  begin_commit-own :
      r.status ≡ RunStatus.running → Memᴰ (committing_run r) (begin_commit run_id db).runs
  begin_commit-own running =
      let chosen : running_id run_id r ≡ true = ground (arith, own, running) in
      rw chosen at (update_where-mem (running_id run_id) committing_run db.runs m)

  -- The UPDATE asks for a RUNNING run.
  begin_commit-planning : r.status ≡ RunStatus.planning → begin_commit run_id db ≡ db
  begin_commit-planning planning =
      ap (λ rows. record db { runs = rows })
        (update_where_none (running_id run_id) committing_run db.runs none_runs)
    where
      idle : (x : Run) → x.id ≡ run_id → running_id run_id x ≡ true → x ≡ r → ⊥
      idle x e h q = let s : x.status ≡ RunStatus.planning = rw q planning in ground (arith, s)

      none_runs : (x : Run) → Memᴰ x db.runs → running_id run_id x ≡ false
      none_runs x mx = elim (Bool-cases (running_id run_id x)) [
        | inr n ↦ n
        | inl h ↦ let e : x.id ≡ run_id = ground arith in absurd (idle x e h (only_run x mx e))
      ]

  fail_run-own : (r' : Run) × Memᴰ r' (fail_run wording run_id now db).runs × (r'.id ≡ run_id)
  unfolding fail_run
  fail_run-own =
      let chosen : (r.id == run_id) ≡ true = (==_iff _ _).1 own in
      let first = task_failure run_id db in
      let write =
        failed_run (wording (failed_tasks run_id db) (total_tasks run_id db) first.0) first.1 now in
      (write r, rw chosen at (update_where-mem (λ (y : Run). y.id == run_id) write db.runs m), own)

  fail_run-failed :
      (r' : Run)
      → Memᴰ r' (fail_run wording run_id now db).runs
      → r'.id ≡ run_id
      → r'.status ≡ RunStatus.failed
  unfolding fail_run
  fail_run-failed r' m' e =
      let (x, mx, ex) = mem-update_where (λ (y : Run). y.id == run_id) _ db.runs m' in
      ground (arith, ap (λ (y : Run). y.id) ex, ap (λ (y : Run). y.status) ex)

  fail_run-dropped :
      (t : Task)
      → Memᴰ t (fail_run wording run_id now db).tasks
      → t.run_id ≡ run_id
      → task_is_pending t.status ≡ false
  unfolding fail_run
  fail_run-dropped t mt e =
      let (x, mx, ex) = mem-update_where (pending_in_run run_id) (dropped_task now) db.tasks mt in
      ground (arith, ap (λ (y : Task). y.run_id) ex, ap (λ (y : Task). y.status) ex)

  begin_commit-Decision :
      is_past_cancel r.status ≡ false
      → succeeded_tasks run_id db ≡ total_tasks run_id db
      → total_tasks run_id db ≢ 0
      → Decision r run_id now db (begin_commit run_id db) (true, RunStatus.committing)
  begin_commit-Decision early all some_task = elim (early_status r.status early) [
    | inl planning ↦
        claims_only planning (all_succeeded all) some_task (begin_commit-planning planning)
    | inr running ↦
        commits running (all_succeeded all) some_task (_, begin_commit-own running, own)
          (begin_commit-IsCommitting running) begin_commit-others refl
  ]

  pub decide_run-Decision :
      is_past_cancel r.status ≡ false
      → Returns
          (λ (out : (Bool × RunStatus) × Db). Decision r run_id now db out.1 out.0)
          (decide_run wording run_id now r.status db)
  unfolding decide_run
  decide_run-Decision early = Returns-guard Good (not (total_tasks run_id db == 0)) _ _ λ some_task.
      Returns-if Good (not (failed_tasks run_id db == 0)) _ _
        (λ bad. fails (ground arith) fail_run-own fail_run-failed fail_run-dropped)
        (λ none_bad.
          Returns-if Good (succeeded_tasks run_id db == total_tasks run_id db) _ _
            (λ all. begin_commit-Decision early ((==_iff _ _).0 all) (ground arith))
            (λ open_. waits (ground arith) (ground arith) refl))
    where
      Good : (Bool × RunStatus) × Db → Type 0
      Good out = Decision r run_id now db out.1 out.0
