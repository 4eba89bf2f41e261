-- ===== src/Lease/Steps.antt =====
-- Histories of lease operations (internal/db/attempts.go): any operations, by any callers, in any
-- order, each in its own transaction.
use o_rabbit.Prelude.{ℕ, ℤ, ◌≡◌, String, Option}
use o_rabbit.Store.{Db}
use o_rabbit.Store.Tx.{Result, ok}
use o_rabbit.Store.Events.{Sha}
use o_rabbit.Lease.Policy.{LeasePolicy}
use o_rabbit.Lease.Assign.{Lease, assign}
use o_rabbit.Lease.Renew.{Credential, renew, update_progress, cancel_active_attempts}
use o_rabbit.Lease.Expire.{expire}
use o_rabbit.Lease.Judge.{Report}
use o_rabbit.Lease.Complete.{Reply, complete}
use o_rabbit.Lease.Abandon.{abandon}
use o_rabbit.Lease.Reject.{
  record_rejection, record_rejection-eq-ok, with_rejection-WellFormed, with_rejection-Extends,
}
use o_rabbit.Lease.WellFormed.{WellFormed}
use o_rabbit.Lease.Preserve.{
  renew-WellFormed, update_progress-WellFormed, cancel_active_attempts-WellFormed,
  expire-WellFormed,
}
use o_rabbit.Lease.PreserveResults.{complete-WellFormed, abandon-WellFormed}
use o_rabbit.Lease.AssignLaws.{assign-WellFormed}
use o_rabbit.Lease.Extends.{Extends, Extends-refl, Extends-trans}
use o_rabbit.Lease.ExtendsSteps.{
  renew-Extends, update_progress-Extends, cancel_active_attempts-Extends, expire-Extends,
  complete-Extends, abandon-Extends, assign-Extends,
}

-- One committed operation. An operation that returns an error is rolled back, and takes no step.
pub data Step (sha : Sha) (db db' : Db) : Type 0 where
  assigns :
      (boot_id worker_id pool now : ℕ) (policy : LeasePolicy) (id_fn token_fn : Result ℕ)
      (l : Option Lease)
      → assign sha boot_id worker_id pool now policy id_fn token_fn db ≡ ok (l, db')
      → Step sha db db'
  renews :
      (c : Credential) (now : ℕ) (duration : ℤ) (deadline : ℕ)
      → renew c now duration db ≡ ok (deadline, db')
      → Step sha db db'
  progresses :
      (c : Credential) (now : ℕ) (rows bytes_read bytes_written : ℤ)
      → update_progress c now rows bytes_read bytes_written db ≡ ok (tt, db')
      → Step sha db db'
  cancels :
      (run_id : ℕ) (reason : String) (now : ℕ)
      → cancel_active_attempts run_id reason now db ≡ db'
      → Step sha db db'
  expires :
      (now : ℕ) (policy : LeasePolicy) (n : ℕ)
      → expire sha now policy db ≡ (n, db')
      → Step sha db db'
  completes :
      (c : Credential) (r : Report) (master_now now : ℕ) (reply : Reply)
      → complete sha c r master_now now db ≡ ok (reply, db')
      → Step sha db db'
  abandons :
      (task_id attempt_id worker_id : ℕ) (reason : String) (now : ℕ) (policy : LeasePolicy)
      → abandon sha task_id attempt_id worker_id reason now policy db ≡ ok (tt, db')
      → Step sha db db'
  rejects :
      (task_id attempt_id worker_id : ℕ) (event_type classification : String) (now : ℕ)
      → record_rejection sha task_id attempt_id worker_id event_type classification now db
        ≡ ok (tt, db')
      → Step sha db db'

pub data Reach (sha : Sha) (db : Db) : Db → Type 0 where
  here : Reach sha db db
  next : {db' db'' : Db} → Reach sha db db' → Step sha db' db'' → Reach sha db db''

pub Step-WellFormed : (sha : Sha) (db db' : Db) → Step sha db db' → WellFormed db → WellFormed db'
Step-WellFormed sha db db' (assigns b w p n policy i t l h) k =
    assign-WellFormed sha b w p n policy i t db k h
Step-WellFormed sha db db' (renews c n d deadline h) k = renew-WellFormed c n d db k h
Step-WellFormed sha db db' (progresses c n r br bw h) k =
    update_progress-WellFormed c n r br bw db k h
Step-WellFormed sha db db' (cancels run_id reason n h) k =
    rw (← h) (cancel_active_attempts-WellFormed run_id reason n db k)
Step-WellFormed sha db db' (expires n policy count h) k =
    rw h at (expire-WellFormed sha n policy db k)
Step-WellFormed sha db db' (completes c r m n reply h) k = complete-WellFormed sha c r m n db k h
Step-WellFormed sha db db' (abandons t a w reason n policy h) k =
    abandon-WellFormed sha t a w reason n policy db k h
Step-WellFormed sha db db' (rejects t a w event_type classification n h) k =
    let (row, task, _, _, e) = record_rejection-eq-ok sha t a w event_type classification n db h in
    rw (← e) (with_rejection-WellFormed sha w event_type classification n task row db k)

pub Step-Extends : (sha : Sha) (db db' : Db) → Step sha db db' → WellFormed db → Extends db db'
Step-Extends sha db db' (assigns b w p n policy i t l h) k =
    assign-Extends sha b w p n policy i t db h
Step-Extends sha db db' (renews c n d deadline h) k = renew-Extends c n d db k h
Step-Extends sha db db' (progresses c n r br bw h) k = update_progress-Extends c n r br bw db k h
Step-Extends sha db db' (cancels run_id reason n h) k =
    rw (← h) (cancel_active_attempts-Extends run_id reason n db k)
Step-Extends sha db db' (expires n policy count h) k = rw h at (expire-Extends sha n policy db k)
Step-Extends sha db db' (completes c r m n reply h) k = complete-Extends sha c r m n db k h
Step-Extends sha db db' (abandons t a w reason n policy h) k =
    abandon-Extends sha t a w reason n policy db k h
Step-Extends sha db db' (rejects t a w event_type classification n h) k =
    let (row, task, _, _, e) = record_rejection-eq-ok sha t a w event_type classification n db h in
    rw (← e) (with_rejection-Extends sha w event_type classification n task row db)

-- Whatever lease operations run, in whatever order, the tables stay well formed: keys are unique, an
-- ACTIVE attempt is the current one of its RUNNING task, and no number exceeds its task's count.
pub Reach-WellFormed : (sha : Sha) (db db' : Db) → WellFormed db → Reach sha db db' → WellFormed db'
Reach-WellFormed sha db db' w here = w
Reach-WellFormed sha db db' w (next {db' = mid} r s) =
    Step-WellFormed sha mid db' s (Reach-WellFormed sha db mid w r)

-- Whatever lease operations run, in whatever order, the row of an attempt that is no longer ACTIVE
-- and the row of a task that has ended are never changed.
pub Reach-Extends : (sha : Sha) (db db' : Db) → WellFormed db → Reach sha db db' → Extends db db'
Reach-Extends sha db db' w here = Extends-refl db
Reach-Extends sha db db' w (next {db' = mid} r s) =
    Extends-trans (Reach-Extends sha db mid w r)
      (Step-Extends sha mid db' s (Reach-WellFormed sha db mid w r))
