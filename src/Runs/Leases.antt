-- ===== src/Runs/Leases.antt =====
-- What the lease operations (internal/db/attempts.go) do to runs: a run whose task is out of retries
-- fails, and nothing else changes.
use o_rabbit.Prelude.{
  ℕ, ◌≡◌, refl, sym, ap, Option, none, some, List, [], ◌∷◌, String, arith, ◌==◌, leb, if_both, inl,
  inr, ◌+◌,
}
use mathlib.Core.Path.{subst}
use o_rabbit.Table.{count_where, update_where}
use o_rabbit.Store.{Run, Task, Attempt, Db}
use o_rabbit.Store.Tx.{Result, ok, err, Returns, Returns-ok, Returns-if, Returns-bind}
use o_rabbit.Store.Events.{Sha}
use o_rabbit.Lease.Policy.{LeasePolicy, NormalPolicy, normalized}
use o_rabbit.Lease.Select.{Candidate, select_next}
use o_rabbit.Lease.Assign.{
  assign, lease_task, lease_candidate, lease_of, assignable, new_attempt, insert_attempt,
  current_epoch,
}
use o_rabbit.Lease.Renew.{renew, update_progress, renewable, may_progress, cancel_active_attempts}
use o_rabbit.Lease.Expire.{
  Item, active_attempt, running_run, exhausted_run, expire_item, expire_items, expiry_items, expire,
}
use o_rabbit.Lease.CompleteParts.{complete-eq-ok}
use o_rabbit.Lease.Complete.{recorded_db}
use o_rabbit.Lease.Abandon.{abandon_writes}
use o_rabbit.Lease.PreserveResults.{abandon-eq-ok}
use o_rabbit.Lease.Reject.{record_rejection-eq-ok, with_rejection}
use o_rabbit.Lease.Steps.{
  Step, assigns, renews, progresses, cancels, expires, completes, abandons, rejects,
}
use o_rabbit.Runs.Life.{RunPath, here, one_move, RunPath-trans}
use o_rabbit.Runs.Refine.{Moves, plain-IsMove}

RunPath-eq : (db db' : Db) → db'.runs ≡ db.runs → RunPath db.runs db'.runs
RunPath-eq db db' e = rw e here

lease_candidate-Moves :
    (sha : Sha) (boot_id worker_id now deadline attempt_id token : ℕ) (o : Option Candidate)
    (db : Db)
    → Returns (Moves db) (lease_candidate sha boot_id worker_id now deadline attempt_id token o db)
unfolding lease_task
lease_candidate-Moves sha boot_id worker_id now deadline attempt_id token none db = here
lease_candidate-Moves sha boot_id worker_id now deadline attempt_id token (some c) db =
    let l = lease_of c attempt_id token deadline in
    Returns-if _ (count_where (assignable l.task_id) db.tasks == 1) _ _
      (λ _.
        Returns-bind _
          (insert_attempt (new_attempt l boot_id worker_id now (current_epoch db.leader))
            db.attempts)
          _ (λ attempts _. here))
      (λ _. here)

assign-Moves :
    (sha : Sha) (boot_id worker_id pool now : ℕ) (policy : LeasePolicy) (id_fn token_fn : Result ℕ)
    (db : Db)
    → Returns (Moves db) (assign sha boot_id worker_id pool now policy id_fn token_fn db)
unfolding assign
assign-Moves sha boot_id worker_id pool now policy (err e) token_fn db = tt
assign-Moves sha boot_id worker_id pool now policy (ok attempt_id) (err e) db = tt
assign-Moves sha boot_id worker_id pool now policy (ok attempt_id) (ok token) db =
    lease_candidate-Moves sha boot_id worker_id now (now + (normalized policy).duration) attempt_id
      token (select_next (normalized policy) now pool db) db

-- A run that fails as its task is out of retries.
exhausted-RunPath :
    (run_id now : ℕ) (runs : List Run)
    → RunPath runs (update_where (running_run run_id) (exhausted_run now) runs)
exhausted-RunPath run_id now runs =
    one_move _ _ runs (λ r h. plain-IsMove r _ refl refl (ground arith) refl refl (λ q. cc))

expire_item-RunPath :
    (sha : Sha) (p : NormalPolicy) (now : ℕ) (x : Item) (db : Db)
    → RunPath db.runs (expire_item sha p now x db).runs
unfolding expire_item
expire_item-RunPath sha p now x db =
    if_both (λ (d : Db). RunPath db.runs d.runs)
      (count_where (active_attempt x.attempt.id) db.attempts == 1) _ _
      (λ _.
        if_both (λ (d : Db). RunPath db.runs d.runs) (leb p.max_attempts x.attempt.attempt_number) _
          _ (λ _. exhausted-RunPath x.run_id now db.runs) (λ _. here))
      (λ _. here)

expire_items-RunPath :
    (sha : Sha) (p : NormalPolicy) (now : ℕ) (items : List Item) (n : ℕ) (db : Db)
    → RunPath db.runs (expire_items sha p now items n db).1.runs
unfolding expire_items
expire_items-RunPath sha p now [] n db = here
expire_items-RunPath sha p now (x ∷ rest) n db =
    RunPath-trans (expire_item-RunPath sha p now x db) (expire_items-RunPath sha p now rest _ _)

abandon_writes-RunPath :
    (sha : Sha) (p : NormalPolicy) (reason : String) (now : ℕ) (t : Task) (a : Attempt) (db : Db)
    → RunPath db.runs (abandon_writes sha p reason now t a db).runs
unfolding abandon_writes
abandon_writes-RunPath sha p reason now t a db =
    if_both (λ (d : Db). RunPath db.runs d.runs) (leb p.max_attempts a.attempt_number) _ _
      (λ _. exhausted-RunPath t.run_id now db.runs) (λ _. here)

-- Every lease operation makes moves of the life cycle of runs.
pub Step-RunPath : (sha : Sha) (db db' : Db) → Step sha db db' → RunPath db.runs db'.runs
unfolding renew update_progress cancel_active_attempts expire recorded_db with_rejection
Step-RunPath sha db db' (assigns b w pool n policy i t l h) =
    Returns-ok (Moves db) _ (assign-Moves sha b w pool n policy i t db) h
Step-RunPath sha db db' (renews c n d deadline h) = RunPath-eq db db' (
    Returns-ok (λ o. o.1.runs ≡ db.runs) (renew c n d db)
      (Returns-if _ (count_where (renewable c n db) db.attempts == 1) _ _ (λ _. refl) (λ _. tt)) h)
Step-RunPath sha db db' (progresses c n r br bw h) = RunPath-eq db db' (
    Returns-ok (λ o. o.1.runs ≡ db.runs) (update_progress c n r br bw db)
      (Returns-if _ (count_where (may_progress c n db) db.tasks == 1) _ _ (λ _. refl) (λ _. tt)) h)
Step-RunPath sha db db' (cancels run_id reason n h) = RunPath-eq db db' (ap (λ d. d.runs) (sym h))
Step-RunPath sha db db' (expires n policy count h) =
    subst (λ o. RunPath db.runs o.1.runs) h
      (expire_items-RunPath sha (normalized policy) n (expiry_items n db) 0 db)
Step-RunPath sha db db' (completes c r m n reply h) =
    let (f, found, cases) = complete-eq-ok sha c r m n db h in
    elim cases [
      | inl known ↦ RunPath-eq db db' (sym (ap (λ o. o.1.runs) known.1))
      | inr new ↦ RunPath-eq db db' (sym (ap (λ o. o.1.runs) new.1.result))
    ]
Step-RunPath sha db db' (abandons t a w reason n policy h) =
    let (task, attempt, found, e) = abandon-eq-ok sha t a w reason n policy db h in
    subst (λ o. RunPath db.runs o.1.runs) e
      (abandon_writes-RunPath sha (normalized policy) reason n task attempt db)
Step-RunPath sha db db' (rejects t a w event_type classification n h) =
    let (row, task, _, _, e) = record_rejection-eq-ok sha t a w event_type classification n db h in
    RunPath-eq db db' (ap (λ d. d.runs) (sym e))
