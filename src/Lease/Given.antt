-- ===== src/Lease/Given.antt =====
-- What an assignment writes with a lease (internal/db/attempts.go, AssignNextPendingTaskInPool).
use o_rabbit.Prelude.{
  ℕ, ◌+◌, ◌≤◌, ◌≡◌, ◌≢◌, refl, sym, ap, true, false, Option, some, List, [], ◌∷◌, ◌++◌, Memᴰ, arith,
}
use o_rabbit.Table.{count_where, any_where, update_where}
use o_rabbit.Table.Laws.{any_where_none}
use o_rabbit.Table.Keyed.{Each, mem-append_last}
use o_rabbit.Table.Key.{count_where-key}
use o_rabbit.Store.{Attempt, Db}
use o_rabbit.Store.Tx.{ok, >>=-eq-ok, ok-injective}
use o_rabbit.Store.Events.{Sha}
use o_rabbit.Lease.Policy.{LeasePolicy, NormalPolicy, normalized}
use o_rabbit.Lease.Select.{Candidate, eligible, running_tasks, select_next}
use o_rabbit.Lease.Candidates.{IsFirst, next_candidate-IsFirst}
use o_rabbit.Lease.Assign.{
  Lease, attempt_conflicts, insert_attempt, current_epoch, assignable, assigned, lease_of,
  new_attempt, leased_db, lease_task, assign,
}
use o_rabbit.Lease.WellFormed.{WellFormed}
use o_rabbit.Lease.Extends.{selected-mem}
use o_rabbit.Lease.PreserveAssign.{select_next-task, insert_attempt-eq-ok}

-- An attempt id and a token that no attempt has.
abbrev pub IsFresh : (attempt_id token : ℕ) → Db → Type 0
IsFresh attempt_id token db =
    Each (λ (a : Attempt). (a.id ≢ attempt_id) × (a.fencing_token ≢ token)) db.attempts

-- A lease that was given out: the row that the query picked, and the rows that were written.
pub record Leased (p : NormalPolicy) (boot_id worker_id pool now : ℕ) (l : Lease) (db db' : Db)
    : Type 0 where
  pub picked : Candidate
  pub mem : Memᴰ picked.task db.tasks
  pub fits_query : eligible p now pool (running_tasks db.tasks) picked ≡ true
  pub first : IsFirst (eligible p now pool (running_tasks db.tasks)) db db.tasks picked
  pub lease : l ≡ lease_of picked l.attempt_id l.fencing_token (now + p.duration)
  pub in_limit : l.attempt_number ≤ p.max_attempts
  pub attempt_after :
      Memᴰ (new_attempt l boot_id worker_id now (current_epoch db.leader)) db'.attempts
  pub task_after : Memᴰ (assigned worker_id now l.attempt_id l.attempt_number picked.task) db'.tasks

module _ (sha : Sha) (boot_id worker_id pool now attempt_id token : ℕ) (policy : LeasePolicy)
    (db : Db) (w : WellFormed db) where
  abbrev p : NormalPolicy
  p = normalized policy

  -- The UPDATE touches the row that was picked, and no other.
  pub picked_assignable :
      (d : Candidate)
      → select_next p now pool db ≡ some d
      → (assignable d.task.id d.task ≡ true) × (count_where (assignable d.task.id) db.tasks ≡ 1)
  unfolding eligible
  picked_assignable d h =
      let (m, passed) = select_next-task p now pool db h in
      let e : assignable d.task.id d.task ≡ true = ground (arith, w.held d.task m) in
      (e, count_where-key (λ t. t.id) _ db.tasks d.task w.tasks_key (λ t q. ground arith) m e)

  -- The INSERT conflicts with no row.
  insert_fresh :
      (d : Candidate)
      → IsFresh attempt_id token db
      → select_next p now pool db ≡ some d
      → (new : Attempt)
      → new
        ≡ new_attempt
            (lease_of d attempt_id token (now + p.duration))
            boot_id
            worker_id
            now
            (current_epoch db.leader)
      → insert_attempt new db.attempts ≡ ok (db.attempts ++ new ∷ [])
  unfolding insert_attempt attempt_conflicts eligible
  insert_fresh d fresh h new e =
      let (m, passed) = select_next-task p now pool db h in
      let free : any_where (attempt_conflicts new) db.attempts ≡ false =
        any_where_none _ db.attempts (λ b mb.
          let fit = w.fits b d.task mb m in
          ground (arith, fresh b mb, fit.current, fit.numbered, e)) in
      rw free refl

  -- So the transaction commits the lease.
  pub assign-picked :
      (d : Candidate)
      → IsFresh attempt_id token db
      → select_next p now pool db ≡ some d
      → assign sha boot_id worker_id pool now policy (ok attempt_id) (ok token) db
        ≡ leased_db sha worker_id now (lease_of d attempt_id token (now + p.duration)) db (
            db.attempts
            ++ new_attempt
                (lease_of d attempt_id token (now + p.duration))
                boot_id
                worker_id
                now
                (current_epoch db.leader)
              ∷ [])
  unfolding assign lease_task
  assign-picked d fresh h =
      rw h (rw ((picked_assignable d h).1) (rw (insert_fresh d fresh h _ refl) refl))

  -- A lease that is given out is for the row that the query picked.
  pub Leased-of_rows :
      (d : Candidate) (attempts : List Attempt) (l : Lease)
      → select_next p now pool db ≡ some d
      → l ≡ lease_of d l.attempt_id l.fencing_token (now + p.duration)
      → attempts ≡ db.attempts ++ new_attempt l boot_id worker_id now (current_epoch db.leader) ∷ []
      → (db' : Db) → db'.attempts ≡ attempts
      → db'.tasks
        ≡ update_where
            (assignable l.task_id)
            (assigned worker_id now l.attempt_id l.attempt_number)
            db.tasks
      → Leased p boot_id worker_id pool now l db db'
  unfolding eligible select_next
  Leased-of_rows d attempts l h el ea db' ha ht =
      let (m, passed) = select_next-task p now pool db h in
      let et : l.task_id ≡ d.task.id = ap (λ x. x.task_id) el in
      let en : l.attempt_number ≡ d.task.attempt_count + 1 = ap (λ x. x.attempt_number) el in
      record {
        picked = d;
        mem = m;
        fits_query = passed;
        first = next_candidate-IsFirst _ db db.tasks h;
        lease = el;
        in_limit = ground (arith, en);
        attempt_after = rw (ha, ea) (mem-append_last db.attempts _);
        task_after = rw ht (selected-mem _ _ db.tasks m (rw et ((picked_assignable d h).0)));
      }

  -- So too where the rows are written for another name of the lease.
  pub Leased-of_lease :
      (d : Candidate) (written l : Lease) (db' : Db)
      → select_next p now pool db ≡ some d
      → written ≡ l
      → written ≡ lease_of d written.attempt_id written.fencing_token (now + p.duration)
      → db.attempts ++ new_attempt written boot_id worker_id now (current_epoch db.leader) ∷ []
        ≡ db'.attempts
      → update_where
          (assignable written.task_id)
          (assigned worker_id now written.attempt_id written.attempt_number)
          db.tasks
        ≡ db'.tasks
      → Leased p boot_id worker_id pool now l db db'
  Leased-of_lease d written l db' h e el ea et =
      rw (← e) (Leased-of_rows d db'.attempts written h el (sym ea) db' refl (sym et))

-- What a committed lease inserted and wrote.
pub lease_task-eq-ok :
    (sha : Sha) (boot_id worker_id now : ℕ) (l : Lease) (db : Db) {out : Option Lease × Db}
    → count_where (assignable l.task_id) db.tasks ≡ 1
    → lease_task sha boot_id worker_id now l db ≡ ok out
    → (db.attempts ++ new_attempt l boot_id worker_id now (current_epoch db.leader) ∷ []
        ≡ out.1.attempts)
      × (some l ≡ out.0)
      × (update_where
            (assignable l.task_id)
            (assigned worker_id now l.attempt_id l.attempt_number)
            db.tasks
          ≡ out.1.tasks)
unfolding lease_task
lease_task-eq-ok sha boot_id worker_id now l db one h =
    let new = new_attempt l boot_id worker_id now (current_epoch db.leader) in
    let (attempts, inserted, k) =
      >>=-eq-ok (insert_attempt new db.attempts) (leased_db sha worker_id now l db) (rw one at h) in
    let (_, grown) = insert_attempt-eq-ok new db.attempts inserted in
    let e = ok-injective k in (rw (← e) grown, ap (λ o. o.0) e, ap (λ o. o.1.tasks) e)
