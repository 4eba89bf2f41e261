-- ===== src/Runs/CancelLaws.antt =====
-- What a cancellation achieves (internal/db/store_runs.go, CancelRun).
use o_rabbit.Prelude.{
  ℕ, ℤ, ◌≡◌, refl, sym, ap, ◌∙◌, Bool, true, false, List, [], ◌∷◌, String, Memᴰ, arith, ◌==◌, inl,
  inr, some, ◌⊎◌,
}
use o_rabbit.Table.{find_where, any_where, update_where}
use o_rabbit.Table.Laws.{mem-update_where}
use o_rabbit.Table.Keyed.{after}
use o_rabbit.Store.{Run, Task, Attempt, Db}
use o_rabbit.Store.Status.{RunStatus, attempt_is_active}
use o_rabbit.Store.Tx.{Returns-if, Returns-row, Returns-ok, ok}
use o_rabbit.Store.Events.{Sha}
use o_rabbit.Store.Texts.{trimmed_or}
use o_rabbit.Lease.Renew.{Credential, in_run, canceled_attempt}
use o_rabbit.Lease.Judge.{Report}
use o_rabbit.Lease.Complete.{Reply, complete}
use o_rabbit.Lease.CompleteParts.{complete-eq-ok}
use o_rabbit.Lease.Fencing.{judge-accept, find_attempt-eq-ok}
use o_rabbit.Lease.Extends.{IsEnded}
use o_rabbit.Runs.Cancel.{
  is_past_cancel, canceled_db, cancel_run, Cancellation, create_canceled_object_candidates,
  insert_candidates, active_in_run, pending_in_run, running_in_run, canceled_pending,
  canceled_running,
}
use o_rabbit.Runs.Refine.{create_candidates-keeps}

-- Nothing of a run is left to do: the run is CANCELED, its tasks have ended, and none of its attempts
-- is ACTIVE.
pub record IsStopped (run_id : ℕ) (db : Db) : Type 0 where
  pub runs : (r : Run) → Memᴰ r db.runs → r.id ≡ run_id → r.status ≡ RunStatus.canceled
  pub tasks : (t : Task) → Memᴰ t db.tasks → t.run_id ≡ run_id → IsEnded t
  pub attempts :
      (a : Attempt)
      → Memᴰ a db.attempts
      → in_run run_id a.task_id db ≡ true
      → attempt_is_active a.status ≡ false

any_where-after {ℓ} :
    {A : Type ℓ} (q p : A → Bool) (f : A → A) (xs : List A)
    → ((a : A) → q (f a) ≡ q a)
    → any_where q (update_where p f xs) ≡ any_where q xs
unfolding any_where update_where
any_where-after q p f [] same = refl
any_where-after q p f (x ∷ xs) same = ground (arith, same x, any_where-after q p f xs same)

module _ (sha : Sha) (run_id : ℕ) (why : String) (now : ℕ) (db : Db) where
  -- The tasks keep their runs.
  in_run-canceled :
      (task_id : ℕ)
      → in_run run_id task_id (canceled_db sha run_id why now db) ≡ in_run run_id task_id db
  unfolding canceled_db
  in_run-canceled task_id =
      any_where-after _ (running_in_run run_id) (canceled_running why now)
        (update_where (pending_in_run run_id) (canceled_pending why now) db.tasks) (λ t. refl)
      ∙ any_where-after _ (pending_in_run run_id) (canceled_pending why now) db.tasks (λ t. refl)

  canceled_db-IsStopped : IsStopped run_id (canceled_db sha run_id why now db)
  unfolding canceled_db
  canceled_db-IsStopped = record {
    runs = λ r m e.
        let (x, mx, ex) = mem-update_where _ _ db.runs m in rw ex (canceled x (rw ex at e));
    tasks = λ t m e.
        let (y, my, ey) = mem-update_where (running_in_run run_id) (canceled_running why now) _ m in
        let (x, mx, ex) =
          mem-update_where (pending_in_run run_id) (canceled_pending why now) db.tasks my in
        rw ey (rw ex (ended x (rw ex at (rw ey at e))));
    attempts = λ a m h.
        let (x, mx, ex) =
          mem-update_where (active_in_run run_id db) (canceled_attempt why now) db.attempts m in
        rw ex (idle x (rw ex at (rw (in_run-canceled a.task_id) at h)));
  }
    where
      canceled :
          (x : Run)
          → (after (λ r. r.id == run_id) (o_rabbit.Runs.Cancel.canceled_run why now) x).id ≡ run_id
          → (after (λ r. r.id == run_id) (o_rabbit.Runs.Cancel.canceled_run why now) x).status
            ≡ RunStatus.canceled
      canceled x e = ground arith

      ended :
          (x : Task)
          → (after
              (running_in_run run_id)
              (canceled_running why now)
              (after (pending_in_run run_id) (canceled_pending why now) x)).run_id
            ≡ run_id
          → IsEnded (
              after
                (running_in_run run_id)
                (canceled_running why now)
                (after (pending_in_run run_id) (canceled_pending why now) x))
      ended x e = ground arith

      idle :
          (x : Attempt)
          → in_run run_id (after (active_in_run run_id db) (canceled_attempt why now) x).task_id db
            ≡ true
          → attempt_is_active (after (active_in_run run_id db) (canceled_attempt why now) x).status
            ≡ false
      idle x h = ground arith

IsStopped-of_rows :
    (run_id : ℕ) (db db' : Db)
    → db'.runs ≡ db.runs
    → db'.tasks ≡ db.tasks
    → db'.attempts ≡ db.attempts
    → IsStopped run_id db
    → IsStopped run_id db'
IsStopped-of_rows run_id db db' er et ea s = record {
  runs = λ r m. s.runs r (rw er at m);
  tasks = λ t m. s.tasks t (rw et at m);
  attempts = λ a m h. s.attempts a (rw ea at m) (ap (any_where _) (sym et) ∙ h);
}

-- A cancellation that changed its run found it PLANNING or RUNNING, and stopped all of it: the run is
-- CANCELED, each of its tasks has ended, and none of its attempts is ACTIVE. One that did not found it
-- COMMITTING or ended, and left the database as it was.
pub cancel_run-IsStopped :
    (sha name : Sha) (retention : ℤ) (run_id : ℕ) (given : String) (now : ℕ) (db db' : Db)
    (c : Cancellation)
    → cancel_run sha name retention run_id given now db ≡ ok (c, db')
    → (r : Run) × (find_where (λ (x : Run). x.id == run_id) db.runs ≡ some r)
      × ((c.changed ≡ true) × (is_past_cancel r.status ≡ false) × IsStopped run_id db'
          ⊎ (c.changed ≡ false) × (is_past_cancel r.status ≡ true) × (db' ≡ db))
unfolding cancel_run
cancel_run-IsStopped sha name retention run_id given now db db' c h =
    Returns-ok Outcome (cancel_run sha name retention run_id given now db)
      (Returns-row Outcome (find_where (λ (r : Run). r.id == run_id) db.runs) _ _ λ r found.
        Returns-if Outcome (is_past_cancel r.status) _ _
          (λ late. (r, found, inr (refl, late, refl)))
          (λ early. (r, found, inl (refl, early, stopped))))
      h
  where
    Outcome : Cancellation × Db → Type 0
    Outcome out =
        (r : Run) × (find_where (λ (x : Run). x.id == run_id) db.runs ≡ some r)
        × ((out.0.changed ≡ true) × (is_past_cancel r.status ≡ false) × IsStopped run_id out.1
            ⊎ (out.0.changed ≡ false) × (is_past_cancel r.status ≡ true) × (out.1 ≡ db))

    canceled : Db
    canceled = canceled_db sha run_id (trimmed_or given "canceled by client") now db

    stopped :
        IsStopped run_id (create_canceled_object_candidates sha name retention run_id now canceled)
    stopped =
        IsStopped-of_rows run_id canceled
          (create_canceled_object_candidates sha name retention run_id now canceled)
          (create_candidates-keeps (λ d. d.runs) (λ d cs es. refl) sha name retention run_id now
            canceled)
          (create_candidates-keeps (λ d. d.tasks) (λ d cs es. refl) sha name retention run_id now
            canceled)
          (create_candidates-keeps (λ d. d.attempts) (λ d cs es. refl) sha name retention run_id now
            canceled)
          (canceled_db-IsStopped sha run_id (trimmed_or given "canceled by client") now db)

-- Once a run is stopped, a completion for one of its tasks records nothing: at most it answers that
-- the result was recorded before.
pub stopped_run_refuses :
    (sha : Sha) (cred : Credential) (report : Report) (master_now now run_id : ℕ) (db db' : Db)
    (reply : Reply)
    → IsStopped run_id db
    → in_run run_id cred.task_id db ≡ true
    → complete sha cred report master_now now db ≡ ok (reply, db')
    → db' ≡ db
stopped_run_refuses sha cred report master_now now run_id db db' reply s mine h =
    let (f, found, cases) = complete-eq-ok sha cred report master_now now db h in
    elim cases [
      | inl known ↦ sym (ap (λ o. o.1) known.1)
      | inr new ↦
          let held = judge-accept cred _ master_now db f found new.0 in
          let (ma, _, et, _, _, _, _) = find_attempt-eq-ok cred db found in
          let idle = s.attempts f.attempt ma (ap (λ k. in_run run_id k db) et ∙ mine) in
          cc (sym idle ∙ ap attempt_is_active held.active)
    ]
