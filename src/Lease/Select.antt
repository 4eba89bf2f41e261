-- ===== src/Lease/Select.antt =====
-- The query of AssignNextPendingTaskInPool (internal/db/attempts.go) that picks the next task.
use o_rabbit.Prelude.{
  ℕ, Bool, true, false, ◌&&◌, ◌||◌, Option, none, some, List, [], ◌∷◌, ltb, leb, ◌==◌,
  if◌then◌else◌,
}
use o_rabbit.Table.{find_where, count_where}
use o_rabbit.Store.{Job, Run, Task, Db}
use o_rabbit.Store.Status.{run_is_running, task_is_pending, task_is_running}
use o_rabbit.Lease.Policy.{NormalPolicy}

-- DefaultWorkerPool, as a worker_pool number.
abbrev pub default_worker_pool : ℕ
default_worker_pool = 1

-- A row of the joined query: the task with its run, its job and the run's count of running tasks.
pub record Candidate : Type 0 where
  pub task : Task
  pub run : Run
  pub job : Job
  pub running : ℕ

unfoldable pub running_in_run : ℕ → List Task → ℕ
running_in_run run_id tasks =
    count_where (λ t. task_is_running t.status && t.run_id == run_id) tasks

unfoldable pub running_tasks : List Task → ℕ
running_tasks tasks = count_where (λ t. task_is_running t.status) tasks

-- JOIN runs r ON r.id=t.run_id JOIN jobs j ON j.id=r.job_id LEFT JOIN running
unfoldable pub join_row : Db → Task → Option Candidate
unfolding running_in_run
join_row db t = elim (find_where (λ (r : Run). r.id == t.run_id) db.runs) [
  | none ↦ none
  | some r ↦ elim (find_where (λ (j : Job). j.id == r.job_id) db.jobs) [
    | none ↦ none
    | some j ↦ some (record { task = t; run = r; job = j; running = running_in_run r.id db.tasks })
  ]
]

-- x IS NULL OR x <= now
abbrev pub null_or_past : Option ℕ → ℕ → Bool
null_or_past none now = true
null_or_past (some t) now = leb t now

abbrev pub pool_of : Job → ℕ
pool_of j = if j.worker_pool == 0 then default_worker_pool else j.worker_pool

-- The WHERE clause of the query.
unfoldable pub eligible : NormalPolicy → (now worker_pool total : ℕ) → Candidate → Bool
eligible p now worker_pool total c =
    task_is_pending c.task.status
    && run_is_running c.run.status
    && null_or_past c.task.next_eligible_at now
    && ltb c.task.attempt_count p.max_attempts
    && (c.job.max_in_flight_tasks == 0 || ltb c.running c.job.max_in_flight_tasks)
    && (p.max_active_tasks == 0 || ltb total p.max_active_tasks)
    && (worker_pool == 0 || pool_of c.job == worker_pool)

-- ORDER BY COALESCE(rn.cnt,0), r.started_at, t.run_id, t.task_index: does `a` stand before `b`?
unfoldable pub precedes : Candidate → Candidate → Bool
precedes a b =
    if a.running == b.running
    then (if a.run.started_at == b.run.started_at
        then (if a.task.run_id == b.task.run_id
            then ltb a.task.task_index b.task.task_index
            else ltb a.task.run_id b.task.run_id)
        else ltb a.run.started_at b.run.started_at)
    else ltb a.running b.running

-- LIMIT 1: the first of the order among the rows seen.
abbrev pub earlier : Candidate → Option Candidate → Candidate
earlier c none = c
earlier c (some d) = if precedes d c then d else c

abbrev pub keep_eligible : Bool → Candidate → Option Candidate → Option Candidate
keep_eligible true c best = some (earlier c best)
keep_eligible false c best = best

abbrev pub consider : (Candidate → Bool) → Option Candidate → Option Candidate → Option Candidate
consider test none best = best
consider test (some c) best = keep_eligible (test c) c best

unfoldable pub next_candidate : (Candidate → Bool) → Db → List Task → Option Candidate
unfolding join_row precedes
next_candidate test db [] = none
next_candidate test db (t ∷ ts) = consider test (join_row db t) (next_candidate test db ts)

unfoldable pub select_next : NormalPolicy → (now worker_pool : ℕ) → Db → Option Candidate
unfolding eligible running_tasks next_candidate
select_next p now worker_pool db =
    next_candidate (eligible p now worker_pool (running_tasks db.tasks)) db db.tasks
