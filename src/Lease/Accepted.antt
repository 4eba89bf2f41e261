-- ===== src/Lease/Accepted.antt =====
-- Accepted results (internal/db/attempts.go, completeTaskAttemptAt): what a result that the store
-- accepts needed, and what it leaves in the tables.
use o_rabbit.Prelude.{ℕ, ◌≡◌, ◌≢◌, refl, sym, ap, true, some, Memᴰ, arith, ◌==◌, inl, inr}
use o_rabbit.Table.{count_where}
use o_rabbit.Table.Laws.{count_where_witness}
use o_rabbit.Store.{Run, Task, Attempt, Db}
use o_rabbit.Store.Status.{TaskStatus, AttemptStatus}
use o_rabbit.Store.Tx.{ok}
use o_rabbit.Store.Events.{Sha}
use o_rabbit.Lease.Renew.{Credential}
use o_rabbit.Lease.Expire.{active_attempt}
use o_rabbit.Lease.Judge.{Report, Found, result_digest, find_attempt, judge, accept}
use o_rabbit.Lease.Complete.{
  accepted, running_task, final_attempt_status, final_task_status, finished_attempt, finished_task,
  recorded_db, complete,
}
use o_rabbit.Lease.CompleteParts.{Recorded, complete-eq-ok}
use o_rabbit.Lease.WellFormed.{WellFormed, tasks-Keyed, attempts-Keyed}
use o_rabbit.Lease.Extends.{selected-mem, unselected-mem}
use o_rabbit.Lease.Fencing.{Holds, find_attempt-eq-ok, judge-accept}

-- A recorded result: the rows that it found, the lease that it held, and the rows that it left.
pub record Accepted (sha : Sha) (c : Credential) (r : Report) (master_now now : ℕ) (s : TaskStatus)
    (db db' : Db) : Type 0 where
  pub attempt : Attempt
  pub task : Task
  pub run : Run
  pub status : AttemptStatus
  pub attempt_mem : Memᴰ attempt db.attempts
  pub task_mem : Memᴰ task db.tasks
  pub run_mem : Memᴰ run db.runs
  pub holds : Holds c master_now attempt task run
  pub current : task.current_attempt_id ≡ some c.attempt_id
  pub final : (final_attempt_status r.status ≡ ok status) × (s ≡ final_task_status r.status)
  pub attempt_after :
      Memᴰ (finished_attempt r (result_digest sha r) now status attempt) db'.attempts
  pub task_after : Memᴰ (finished_task r now task) db'.tasks
  pub other_attempts :
      (b : Attempt) → Memᴰ b db.attempts → b.id ≢ c.attempt_id → Memᴰ b db'.attempts
  pub other_tasks : (t : Task) → Memᴰ t db.tasks → t.id ≢ c.task_id → Memᴰ t db'.tasks
  pub same_runs : db'.runs ≡ db.runs

module _ (sha : Sha) (c : Credential) (r : Report) (master_now now : ℕ) (db : Db)
    (w : WellFormed db) where
  -- The task that a recorded result updates is the one that was found.
  recorded_current :
      (t : Task)
      → Memᴰ t db.tasks
      → t.id ≡ c.task_id
      → (count_where (running_task c) db.tasks == 1) ≡ true
      → running_task c t ≡ true
  recorded_current t m e one =
      let (u, mu, pu) = count_where_witness (running_task c) db.tasks (ground arith) in
      let q : t ≡ u = tasks-Keyed w t u m mu (ground arith) in rw q pu

  recorded_attempt :
      (a : Attempt)
      → Memᴰ a db.attempts
      → a.id ≡ c.attempt_id
      → (count_where (active_attempt c.attempt_id) db.attempts == 1) ≡ true
      → active_attempt c.attempt_id a ≡ true
  recorded_attempt a m e one =
      let (b, mb, pb) =
        count_where_witness (active_attempt c.attempt_id) db.attempts (ground arith) in
      let q : a ≡ b = attempts-Keyed w a b m mb (ground arith) in rw q pb

  Recorded-Accepted :
      (f : Found) (s : TaskStatus) (db' : Db)
      → find_attempt c db ≡ ok f
      → judge c (result_digest sha r) master_now f ≡ ok accept
      → Recorded sha c r master_now now f db (accepted s, db')
      → Accepted sha c r master_now now s db db'
  unfolding recorded_db
  Recorded-Accepted f s db' found judged k =
      let (ma, ia, ta, mt, it, mr, ir) = find_attempt-eq-ok c db found in
      let pa = recorded_attempt f.attempt ma ia k.one_attempt in
      let pt = recorded_current f.task mt it k.one_task in
      let er : accepted (final_task_status r.status) ≡ accepted s = ap (λ o. o.0) k.result in
      let es : final_task_status r.status ≡ s = cc in
      let ed : recorded_db c r (result_digest sha r) now k.status k.artifacts db ≡ db' =
        ap (λ o. o.1) k.result in
      rw (← ed) (record {
        attempt = f.attempt;
        task = f.task;
        run = f.run;
        status = k.status;
        attempt_mem = ma;
        task_mem = mt;
        run_mem = mr;
        holds = judge-accept c (result_digest sha r) master_now db f found judged;
        current = ground arith;
        final = (k.final, sym es);
        attempt_after = selected-mem _ _ db.attempts ma pa;
        task_after = selected-mem _ _ db.tasks mt pt;
        other_attempts = λ b m n. unselected-mem _ _ db.attempts m (ground arith);
        other_tasks = λ t m n. unselected-mem _ _ db.tasks m (ground arith);
        same_runs = refl;
      })

  -- A result that the store accepts comes from an ACTIVE attempt before its deadline, presented by
  -- the worker, boot and token that it was leased to, of the RUNNING task whose current attempt it is,
  -- in a RUNNING run. It ends that attempt and that task with the reported status, values and digest,
  -- and leaves every other attempt and task, and all runs, as they were.
  pub complete-accepted :
      (s : TaskStatus) (db' : Db)
      → complete sha c r master_now now db ≡ ok (accepted s, db')
      → Accepted sha c r master_now now s db db'
  complete-accepted s db' h =
      let (f, found, cases) = complete-eq-ok sha c r master_now now db h in
      elim cases [ inl known ↦ cc | inr new ↦ Recorded-Accepted f s db' found new.0 new.1 ]
