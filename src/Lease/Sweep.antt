-- ===== src/Lease/Sweep.antt =====
-- The sweep of lapsed leases (internal/db/attempts.go, ExpireTaskAttempts): no lapsed lease is missed.
use o_rabbit.Prelude.{
  ℕ, ◌≡◌, refl, sym, ap, true, Option, none, some, List, [], ◌∷◌, Memᴰ, arith, ◌==◌, leb,
  if◌then◌else◌, Bool-cases, inl, inr,
}
use o_rabbit.Table.{find_where}
use o_rabbit.Table.Laws.{select_where-mem, mem-select_where}
use o_rabbit.Table.Key.{find_where-key}
use o_rabbit.Store.{Run, Task, Attempt, Db}
use o_rabbit.Store.Status.{RunStatus, TaskStatus, AttemptStatus}
use o_rabbit.Store.Events.{Sha}
use o_rabbit.Lease.Policy.{LeasePolicy, NormalPolicy, normalized, retry_backoff, add_duration}
use o_rabbit.Lease.Expire.{
  Item, expiry_join, add_item, collect_items, lapsed, expired_attempt, expiry_items, expire,
}
use o_rabbit.Lease.WellFormed.{WellFormed, attempts-Keyed}
use o_rabbit.Lease.SweepRounds.{Swept, swept_task, expire_items-Due}

-- The query has an item for a lapsed attempt that is the current one of a task of a RUNNING run, and
-- the items are for rows of the table.
collect_items-mem :
    (db : Db) (rows : List Attempt) (a : Attempt) (run_id : ℕ)
    → Memᴰ a rows
    → expiry_join db a ≡ some run_id
    → Memᴰ (record { attempt = a; run_id = run_id }) (collect_items db rows)
unfolding collect_items
collect_items-mem db [] a run_id m j = elim m [ ]
collect_items-mem db (b ∷ rest) a run_id (Memᴰ.head h) j =
    let k : expiry_join db b ≡ some run_id = rw (← h) j in
    rw k (Memᴰ.head (ap (λ y. record { attempt = y; run_id = run_id }) h))
collect_items-mem db (b ∷ rest) a run_id (Memᴰ.tail m) j =
    later (expiry_join db b) (collect_items-mem db rest a run_id m j)
  where
    later :
        {x : Item} {items : List Item} (o : Option ℕ) → Memᴰ x items → Memᴰ x (add_item b o items)
    later none n = n
    later (some r) n = Memᴰ.tail n

mem-collect_items :
    (db : Db) (rows : List Attempt) (x : Item)
    → Memᴰ x (collect_items db rows)
    → Memᴰ x.attempt rows
unfolding collect_items
mem-collect_items db [] x m = elim m [ ]
mem-collect_items db (b ∷ rest) x m =
    by_row (expiry_join db b) (λ n. mem-collect_items db rest x n) m
  where
    by_row :
        {items : List Item} (o : Option ℕ)
        → (Memᴰ x items → Memᴰ x.attempt rest)
        → Memᴰ x (add_item b o items)
        → Memᴰ x.attempt (b ∷ rest)
    by_row none ih n = Memᴰ.tail (ih n)
    by_row (some r) ih (Memᴰ.head h) = Memᴰ.head (ap (λ y. y.attempt) h)
    by_row (some r) ih (Memᴰ.tail n) = Memᴰ.tail (ih n)

-- The rows that the sweep leaves of a lapsed attempt and of its task.
expire-Swept :
    (sha : Sha) (now : ℕ) (policy : LeasePolicy) (db : Db) (a : Attempt) (t : Task) (r : Run)
    → WellFormed db
    → Memᴰ a db.attempts
    → lapsed now a ≡ true
    → Memᴰ t db.tasks
    → t.id ≡ a.task_id
    → find_where (λ (x : Run). x.id == t.run_id) db.runs ≡ some r
    → r.status ≡ RunStatus.running
    → Swept (normalized policy) now a t (expire sha now policy db).1
unfolding expire expiry_items
expire-Swept sha now policy db a t r w ma l mt et er sr =
    let fit = w.fits a t ma mt in
    let (running, current) = fit.current (sym et) (ground arith) in
    let joined : expiry_join db a ≡ some t.run_id =
      joined_run
        (find_where-key (λ x. x.id) (λ (x : Task). x.id == a.task_id) db.tasks t w.tasks_key
          (λ b h. ground arith) mt (ground arith))
        er running current in
    expire_items-Due sha (normalized policy) now (expiry_items now db) 0 db a t w
      (record {
        due_attempt = ma;
        due_task = mt;
        active = ground arith;
        of_task = et;
        current = current;
      })
      (λ x m e.
        attempts-Keyed w x.attempt a (mem-select_where _ db.attempts (mem-collect_items db _ x m)).0
          ma e)
      (record { attempt = a; run_id = t.run_id })
      (collect_items-mem db _ a t.run_id (select_where-mem _ db.attempts ma l) joined) refl
  where
    joined_run :
        find_where (λ (x : Task). x.id == a.task_id) db.tasks ≡ some t
        → find_where (λ (x : Run). x.id == t.run_id) db.runs ≡ some r
        → t.status ≡ TaskStatus.running
        → t.current_attempt_id ≡ some a.id
        → expiry_join db a ≡ some t.run_id
    joined_run ft fr running current = ground arith

-- The columns of an attempt whose lease ran out.
pub record IsExpired (now : ℕ) (a a' : Attempt) : Type 0 where
  pub same_attempt :
      (a'.id ≡ a.id) × (a'.task_id ≡ a.task_id) × (a'.attempt_number ≡ a.attempt_number)
  pub expired : a'.status ≡ AttemptStatus.expired
  pub finished : a'.finished_at ≡ some now
  pub class : a'.failure_class ≡ "LEASE_EXPIRED"

-- The columns of its task: free for another worker from the end of the backoff on, or out of tries.
pub record IsRequeued (p : NormalPolicy) (now tries : ℕ) (t t' : Task) : Type 0 where
  pub same_task : (t'.id ≡ t.id) × (t'.run_id ≡ t.run_id)
  pub free : (t'.current_attempt_id ≡ none) × (t'.worker_id ≡ none)
  pub status :
      t'.status ≡ (if leb p.max_attempts tries then TaskStatus.quarantined else TaskStatus.pending)
  pub next_eligible_at :
      t'.next_eligible_at
      ≡ (if leb p.max_attempts tries then none else some (add_duration now (retry_backoff p tries)))

expired_attempt-IsExpired : (now : ℕ) (a : Attempt) → IsExpired now a (expired_attempt now a)
expired_attempt-IsExpired now a = record {
  same_attempt = (refl, refl, refl);
  expired = refl;
  finished = refl;
  class = refl;
}

swept_task-IsRequeued :
    (p : NormalPolicy) (now : ℕ) (a : Attempt) (t : Task)
    → IsRequeued p now a.attempt_number t (swept_task p now a t)
swept_task-IsRequeued p now a t = elim (Bool-cases (leb p.max_attempts a.attempt_number)) [
  | inl e ↦ rw e (record {
    same_task = (refl, refl);
    free = (refl, refl);
    status = rw e refl;
    next_eligible_at = rw e refl;
  })
  | inr e ↦ rw e (record {
    same_task = (refl, refl);
    free = (refl, refl);
    status = rw e refl;
    next_eligible_at = rw e refl;
  })
]

-- A sweep of a well-formed database misses no lapsed lease: every ACTIVE attempt whose deadline is not
-- after `now`, of a task whose run is found and RUNNING, is EXPIRED afterwards, and its task has no
-- attempt and no worker. The task is PENDING again, eligible after the backoff of the policy, or, if
-- the attempt's number has reached the limit, QUARANTINED.
pub expire_complete :
    (sha : Sha) (now : ℕ) (policy : LeasePolicy) (db : Db) (a : Attempt) (t : Task) (r : Run)
    → WellFormed db
    → Memᴰ a db.attempts
    → lapsed now a ≡ true
    → Memᴰ t db.tasks
    → t.id ≡ a.task_id
    → find_where (λ (x : Run). x.id == t.run_id) db.runs ≡ some r
    → r.status ≡ RunStatus.running
    → ((a' : Attempt) × Memᴰ a' (expire sha now policy db).1.attempts × IsExpired now a a')
      × ((t' : Task) × Memᴰ t' (expire sha now policy db).1.tasks
          × IsRequeued (normalized policy) now a.attempt_number t t')
expire_complete sha now policy db a t r w ma l mt et er sr =
    let s = expire-Swept sha now policy db a t r w ma l mt et er sr in
    (
      (_, s.attempt, expired_attempt-IsExpired now a),
      (_, s.task, swept_task-IsRequeued (normalized policy) now a t),
    )
