-- ===== src/Lease/PreserveAssign.antt =====
-- An assignment (internal/db/attempts.go, AssignNextPendingTaskInPool) keeps the tables well formed,
-- and its INSERT meets every constraint of the schema.
use o_rabbit.Prelude.{
  ℕ, ◌+◌, ◌≡◌, refl, true, false, Option, none, some, List, [], ◌∷◌, ◌++◌, Memᴰ, arith, ◌==◌,
  Bool-cases, inl, inr,
}
use o_rabbit.Table.{find_where, count_where, any_where, update_where}
use o_rabbit.Table.Laws.{any_where-false, count_where_witness, mem-update_where}
use o_rabbit.Table.Keyed.{Each, mem-append_one, after}
use o_rabbit.Table.Key.{PrimaryKey-append}
use o_rabbit.Store.{Job, Run, Task, Attempt, Db}
use o_rabbit.Store.Status.{TaskStatus}
use o_rabbit.Store.Tx.{ok, >>=-eq-ok, ok-injective}
use o_rabbit.Store.Events.{Sha}
use o_rabbit.Lease.Policy.{NormalPolicy}
use o_rabbit.Lease.Select.{Candidate, join_row, eligible, running_tasks, select_next}
use o_rabbit.Lease.Candidates.{next_candidate-Chosen}
use o_rabbit.Lease.Assign.{
  Lease, attempt_conflicts, insert_attempt, current_epoch, assignable, assigned, lease_of,
  new_attempt, leased_db, lease_task, lease_candidate,
}
use o_rabbit.Lease.WellFormed.{
  tasks-Keyed, WellFormed, Fits, WellFormed-updates, no_row, update_where-no_row,
}

-- A row of the join is a row for its task, its run and its job.
pub join_row-parts :
    (db : Db) (t : Task) {c : Candidate}
    → join_row db t ≡ some c
    → (c.task ≡ t)
      × (find_where (λ (r : Run). r.id == t.run_id) db.runs ≡ some c.run)
      × (find_where (λ (j : Job). j.id == c.run.job_id) db.jobs ≡ some c.job)
unfolding join_row
join_row-parts db t h = ground arith

-- The task that an assignment picks is PENDING and below the retry limit.
pub select_next-task :
    (p : NormalPolicy) (now pool : ℕ) (db : Db) {c : Candidate}
    → select_next p now pool db ≡ some c
    → Memᴰ c.task db.tasks × (eligible p now pool (running_tasks db.tasks) c ≡ true)
unfolding select_next
select_next-task p now pool db {c} h =
    let k = next_candidate-Chosen (eligible p now pool (running_tasks db.tasks)) db db.tasks h in
    let e : c.task ≡ k.task = (join_row-parts db k.task k.joined).0 in (rw e k.mem, k.passed)

-- An INSERT that succeeds conflicts with no row, and appends its own.
pub insert_attempt-eq-ok :
    (a : Attempt) (rows : List Attempt) {out : List Attempt}
    → insert_attempt a rows ≡ ok out
    → Each (λ b. attempt_conflicts a b ≡ false) rows × (rows ++ a ∷ [] ≡ out)
unfolding insert_attempt
insert_attempt-eq-ok a rows {out} h = elim (Bool-cases (any_where (attempt_conflicts a) rows)) [
  | inl e ↦ cc (rw e at h)
  | inr e ↦
      let q : ok (rows ++ a ∷ []) ≡ ok out = rw e at h in
      (λ b m. any_where-false (attempt_conflicts a) rows e m, cc)
]

pub conflict_id : (a b : Attempt) → attempt_conflicts a b ≡ false → ¬ (b.id ≡ a.id)
unfolding attempt_conflicts
conflict_id a b f e = ground arith

-- What an assignment knows of the tasks with the id that it picked.
abbrev pub IsPicked : Lease → Db → Type 0
IsPicked l db =
    (t : Task)
    → Memᴰ t db.tasks
    → t.id ≡ l.task_id
    → (t.status ≡ TaskStatus.pending) × (l.attempt_number ≡ t.attempt_count + 1)

module _ (sha : Sha) (boot_id worker_id now : ℕ) (l : Lease) (db : Db) (w : WellFormed db)
    (picked : IsPicked l db) where
  -- The UPDATE of the tasks keeps the invariant by itself.
  assign_tasks-WellFormed : WellFormed (record db {
    tasks =
        update_where
          (assignable l.task_id)
          (assigned worker_id now l.attempt_id l.attempt_number)
          db.tasks;
  })
  unfolding assigned
  assign_tasks-WellFormed =
      WellFormed-updates no_row (λ a. a) _ _ db _
        (record {
          attempt_id = λ a. refl;
          task_id = λ t. refl;
          holds = λ t h. ground arith;
          fit = λ a t m n h. ground (arith, picked t n);
        })
        w (update_where-no_row _ _) refl

  -- Once the UPDATE has touched a row, it touches every row with the id.
  assignable_all :
      (count_where (assignable l.task_id) db.tasks == 1) ≡ true
      → (t : Task) → Memᴰ t db.tasks
      → t.id ≡ l.task_id
      → assignable l.task_id t ≡ true
  assignable_all one t m e =
      let (u, mu, pu) = count_where_witness (assignable l.task_id) db.tasks (ground arith) in
      let q : t ≡ u = tasks-Keyed w t u m mu (ground arith) in rw q pu

  new_row : Attempt
  new_row = new_attempt l boot_id worker_id now (current_epoch db.leader)

  new_row-Fits :
      (count_where (assignable l.task_id) db.tasks == 1) ≡ true
      → (t : Task) → Memᴰ t db.tasks
      → Fits new_row
          (after (assignable l.task_id) (assigned worker_id now l.attempt_id l.attempt_number) t)
  unfolding new_row assigned
  new_row-Fits one t m = ground (arith, assignable_all one t m)

  inserted-WellFormed :
      (attempts : List Attempt) {out : Option Lease × Db}
      → (count_where (assignable l.task_id) db.tasks == 1) ≡ true
      → insert_attempt new_row db.attempts ≡ ok attempts
      → leased_db sha worker_id now l db attempts ≡ ok out
      → WellFormed out.1
  inserted-WellFormed attempts {out} one inserted h =
      let v = assign_tasks-WellFormed in
      let (fresh, grown) = insert_attempt-eq-ok new_row db.attempts inserted in
      let e = ok-injective h in
      rw (← e) (
        rw (← grown) (record {
          tasks_key = v.tasks_key;
          attempts_key =
              PrimaryKey-append _ db.attempts new_row (λ a m. conflict_id new_row a (fresh a m))
                w.attempts_key;
          held = v.held;
          fits = λ a t ma mt. elim (mem-append_one db.attempts new_row ma) [
            | inl n ↦ v.fits a t n mt
            | inr q ↦
                let (u, mu, eu) = mem-update_where _ _ db.tasks mt in
                rw (q, eu) (new_row-Fits one u mu)
          ];
        }))

-- An assignment, whether it finds a task or not, keeps the tables well formed.
pub lease_candidate-WellFormed :
    (sha : Sha) (boot_id worker_id now deadline attempt_id token : ℕ) (c : Option Candidate)
    (db : Db) {out : Option Lease × Db}
    → WellFormed db
    → ((d : Candidate) → c ≡ some d → IsPicked (lease_of d attempt_id token deadline) db)
    → lease_candidate sha boot_id worker_id now deadline attempt_id token c db ≡ ok out
    → WellFormed out.1
unfolding lease_task new_row
lease_candidate-WellFormed sha boot_id worker_id now deadline attempt_id token none db w picked h =
    rw (← ok-injective h) w
lease_candidate-WellFormed sha boot_id worker_id now deadline attempt_id token (some d) db w picked
      h =
    let l = lease_of d attempt_id token deadline in
    elim (Bool-cases (count_where (assignable l.task_id) db.tasks == 1)) [
      | inl one ↦
          let (attempts, inserted, q) = >>=-eq-ok _ _ (rw one at h) in
          inserted-WellFormed sha boot_id worker_id now l db w (picked d refl) attempts one inserted
            q
      | inr other ↦
          let q = ok-injective (rw other at h) in
          rw (← q) (assign_tasks-WellFormed sha boot_id worker_id now l db w (picked d refl))
    ]
