-- ===== src/Lease/Fencing.antt =====
-- Fencing (internal/db/attempts.go): who may write to a task, and that an attempt which lost its lease
-- never may again.
use o_rabbit.Prelude.{
  ℕ, ◌<◌, ◌≡◌, refl, sym, ◌∙◌, Bool, true, false, some, Memᴰ, arith, ◌==◌, inl, inr, Bool-cases,
  ltb, ◌&&◌,
}
use o_rabbit.Table.{find_where}
use o_rabbit.Table.Laws.{find_where-some}
use o_rabbit.Table.Key.{find_where-key}
use o_rabbit.Store.{Run, Task, Attempt, Db}
use o_rabbit.Store.Status.{
  RunStatus, TaskStatus, AttemptStatus, attempt_is_active, task_is_running, run_is_running,
}
use o_rabbit.Store.Tx.{
  Error, guard, ◌>>◌, ok, attempt_fenced, >>=-eq-ok, guard-eq-ok, or_error-eq-ok,
}
use o_rabbit.Lease.Renew.{Credential}
use o_rabbit.Lease.Judge.{
  Found, Verdict, accept, verdict_for, find_attempt, judge, lease_checks, current_or_empty,
  same_owner,
}
use o_rabbit.Lease.WellFormed.{WellFormed, attempts-Keyed}

-- In well formed tables two ACTIVE attempts of one task are one.
pub one_active :
    (db : Db) (a b : Attempt) (t : Task)
    → WellFormed db
    → Memᴰ a db.attempts
    → Memᴰ b db.attempts
    → Memᴰ t db.tasks
    → a.task_id ≡ t.id
    → b.task_id ≡ t.id
    → a.status ≡ AttemptStatus.active
    → b.status ≡ AttemptStatus.active
    → a ≡ b
one_active db a b t w ma mb mt ea eb sa sb =
    let fa = w.fits a t ma mt in
    let fb = w.fits b t mb mt in
    attempts-Keyed w a b ma mb (ground (arith, fa.current ea sa, fb.current eb sb))

-- The rows that a completion reads are rows of the tables, for the attempt that was named.
pub find_attempt-eq-ok :
    (c : Credential) (db : Db) {f : Found}
    → find_attempt c db ≡ ok f
    → Memᴰ f.attempt db.attempts
      × (f.attempt.id ≡ c.attempt_id)
      × (f.attempt.task_id ≡ c.task_id)
      × Memᴰ f.task db.tasks
      × (f.task.id ≡ c.task_id)
      × Memᴰ f.run db.runs
      × (f.run.id ≡ f.task.run_id)
unfolding find_attempt
find_attempt-eq-ok c db {f} h =
    let (a, ha, h₁) = >>=-eq-ok _ _ h in
    let (t, ht, h₂) = >>=-eq-ok _ _ h₁ in
    let (r, hr, h₃) = >>=-eq-ok _ _ h₂ in
    let (ma, pa) = find_where-some _ db.attempts (or_error-eq-ok _ _ ha) in
    let (mt, pt) = find_where-some _ db.tasks (or_error-eq-ok _ _ ht) in
    let (mr, pr) = find_where-some _ db.runs (or_error-eq-ok _ _ hr) in
    let e : record { attempt = a; task = t; run = r } ≡ f = cc in
    rw (← e) (ma, ground arith, ground arith, mt, ground arith, mr, ground arith)

guards-eq-ok :
    (x y z : Bool) (e : Error) (v : Verdict) {w : Verdict}
    → (guard x e >> (guard y e >> (guard z e >> ok v))) ≡ ok w
    → (x ≡ true) × (y ≡ true) × (z ≡ true)
guards-eq-ok true true true e v h = (refl, refl, refl)
guards-eq-ok true true false e v h = cc
guards-eq-ok true false z e v h = cc
guards-eq-ok false y z e v h = cc

-- The conditions of a lease: the attempt is ACTIVE and not past its deadline, it is held by the
-- caller, and it is the current attempt of a RUNNING task of a RUNNING run.
pub record Holds (c : Credential) (now : ℕ) (a : Attempt) (t : Task) (r : Run) : Type 0 where
  pub attempt : (a.id ≡ c.attempt_id) × (a.task_id ≡ c.task_id)
  pub worker : (a.worker_id ≡ c.worker_id) × (a.worker_boot_id ≡ c.boot_id)
  pub token : a.fencing_token ≡ c.token
  pub active : a.status ≡ AttemptStatus.active
  pub in_time : now < a.lease_deadline
  pub task : (t.id ≡ c.task_id) × (t.status ≡ TaskStatus.running)
  pub run : (r.id ≡ t.run_id) × (r.status ≡ RunStatus.running)

lease_checks-eq-ok :
    (c : Credential) (now : ℕ) (f : Found)
    → lease_checks c now f ≡ ok accept
    → (now < f.attempt.lease_deadline)
      × (f.attempt.status ≡ AttemptStatus.active)
      × (f.task.status ≡ TaskStatus.running)
      × (f.run.status ≡ RunStatus.running)
lease_checks-eq-ok c now f h =
    let (_, in_time, are_open) =
      guards-eq-ok (current_or_empty f.task.current_attempt_id == c.attempt_id)
        (ltb now f.attempt.lease_deadline)
        (attempt_is_active f.attempt.status
          && task_is_running f.task.status
          && run_is_running f.run.status)
        attempt_fenced accept h in
    (ground arith, ground arith, ground arith, ground arith)

verdict_for-accept :
    (s : AttemptStatus) (c : Credential) (digest now : ℕ) (f : Found)
    → verdict_for s c digest now f ≡ ok accept
    → lease_checks c now f ≡ ok accept
unfolding verdict_for
verdict_for-accept AttemptStatus.canceled c digest now f h = cc
verdict_for-accept AttemptStatus.expired c digest now f h = cc
verdict_for-accept AttemptStatus.superseded c digest now f h = cc
verdict_for-accept AttemptStatus.succeeded c digest now f h =
    elim (Bool-cases (f.attempt.result_digest == digest)) [
      | inl e ↦ cc (rw e at h)
      | inr e ↦ cc (rw e at h)
    ]
verdict_for-accept AttemptStatus.failed c digest now f h =
    elim (Bool-cases (f.attempt.result_digest == digest)) [
      | inl e ↦ cc (rw e at h)
      | inr e ↦ cc (rw e at h)
    ]
verdict_for-accept AttemptStatus.active c digest now f h = h

pub judge-accept :
    (c : Credential) (digest now : ℕ) (db : Db) (f : Found)
    → find_attempt c db ≡ ok f
    → judge c digest now f ≡ ok accept
    → Holds c now f.attempt f.task f.run
unfolding judge
judge-accept c digest now db f found h =
    let (_, ia, ta, _, it, _, ir) = find_attempt-eq-ok c db found in
    let (owned, h₁) =
      guard-eq-ok (same_owner c f.attempt) attempt_fenced
        (verdict_for f.attempt.status c digest now f) h in
    let (in_time, active, running, run_open) =
      lease_checks-eq-ok c now f (verdict_for-accept f.attempt.status c digest now f h₁) in
    record {
      attempt = (ia, ta);
      worker = (ground arith, ground arith);
      token = ground arith;
      active = active;
      in_time = in_time;
      task = (it, running);
      run = (ir, run_open);
    }

-- An attempt that the tables hold under an id is the one that a completion with the id finds.
pub found_attempt :
    (c : Credential) (db : Db) (a : Attempt) {f : Found}
    → WellFormed db
    → Memᴰ a db.attempts
    → a.id ≡ c.attempt_id
    → find_attempt c db ≡ ok f
    → f.attempt ≡ a
found_attempt c db a {f} w m e found =
    let (mf, ef, _, _, _, _, _) = find_attempt-eq-ok c db found in
    attempts-Keyed w f.attempt a mf m (ef ∙ sym e)

-- The rows of an attempt, its task and its run are what a completion with its ids finds.
pub find_attempt-of_mem :
    (c : Credential) (db : Db) (a : Attempt) (t : Task) (r : Run)
    → WellFormed db
    → Memᴰ a db.attempts
    → (a.id ≡ c.attempt_id) × (a.task_id ≡ c.task_id)
    → Memᴰ t db.tasks
    → t.id ≡ a.task_id
    → find_where (λ (x : Run). x.id == t.run_id) db.runs ≡ some r
    → find_attempt c db ≡ ok (record { attempt = a; task = t; run = r })
unfolding find_attempt
find_attempt-of_mem c db a t r w ma ea mt et er =
    let fa : find_where (λ (x : Attempt). x.id == c.attempt_id && x.task_id == c.task_id)
          db.attempts
        ≡ some a =
      find_where-key (λ x. x.id) _ db.attempts a w.attempts_key (λ b h. ground arith) ma
        (ground arith) in
    let ft : find_where (λ (x : Task). x.id == a.task_id) db.tasks ≡ some t =
      find_where-key (λ x. x.id) _ db.tasks t w.tasks_key (λ b h. ground arith) mt (ground arith) in
    rw fa (rw ft (rw er refl))
