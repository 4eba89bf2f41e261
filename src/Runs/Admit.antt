-- ===== src/Runs/Admit.antt =====
-- How runs enter the database and start (internal/db/store_runs.go, CreateRun,
-- FailAbandonedPlanningRuns, FindActiveRunByDatasetKey; internal/db/run_admission.go, admitRunTx,
-- AdmitPendingRuns). A text that the code joins is a function `name` of its parts.
use o_rabbit.Prelude.{
  ℕ, ◌+◌, ◌-◌, ℤ, String, pos_part, is_positive, Bool, false, not, ◌&&◌, ◌||◌, Option, none, some,
  List, [], ◌∷◌, ◌++◌, ltb, leb, ◌==◌, if◌then◌else◌,
}
use o_rabbit.Table.{find_where, count_where, any_where, select_where, update_where}
use o_rabbit.Store.{Run, Task, Db}
use o_rabbit.Store.Status.{
  RunStatus, run_is_planning, run_is_executing, run_is_open, task_is_pending,
}
use o_rabbit.Store.Tx.{Result, ok, guard, ◌>>◌, constraint, active_dataset_run, invalid_argument}
use o_rabbit.Store.Events.{Sha, Event, Extra, message, text, num, insert_or_ignore}

-- An event of a run: no attempt is named.
abbrev pub run_event : (id run_id now : ℕ) → (event_type : String) → Extra → Event
run_event id run_id now event_type extra = record {
  id = id;
  run_id = run_id;
  task_id = none;
  ts = now;
  event_type = event_type;
  attempt_id = 0;
  attempt_number = 0;
  worker_id = 0;
  classification = "";
  extra = extra;
}

-- idx_runs_dataset_active: a dataset has one open run.
abbrev pub same_open_dataset : Run → Run → Bool
same_open_dataset a b =
    run_is_open a.status
    && run_is_open b.status
    && not (a.dataset_key == 0)
    && a.dataset_key == b.dataset_key

-- The registration configuration of `r` is what encryptRunRegistrationConfig returned.
unfoldable pub create_run : Run → Db → Result (Unit {0} × Db)
create_run r db = do
  guard (not (any_where (λ (x : Run). x.id == r.id) db.runs)) constraint
  guard (not (any_where (same_open_dataset r) db.runs)) active_dataset_run
  ok (tt, record db { runs = db.runs ++ r ∷ [] })

-- ORDER BY started_at, id: does `a` stand before `b`?
abbrev pub starts_before : Run → Run → Bool
starts_before a b = ltb a.started_at b.started_at || (a.started_at == b.started_at && ltb a.id b.id)

unfoldable pub insert_sorted : Run → List Run → List Run
insert_sorted r [] = r ∷ []
insert_sorted r (x ∷ xs) =
    let rest = insert_sorted r xs in if starts_before r x then r ∷ x ∷ xs else x ∷ rest

unfoldable pub sort_runs : List Run → List Run
sort_runs [] = []
sort_runs (x ∷ xs) = insert_sorted x (sort_runs xs)

-- ORDER BY started_at ASC LIMIT 1
unfoldable pub find_active_run : (dataset_key : ℕ) → Db → Option Run
unfolding sort_runs insert_sorted
find_active_run dataset_key db =
    find_where (λ r. r.dataset_key == dataset_key && run_is_open r.status) (sort_runs db.runs)

-- RUNNING and COMMITTING runs
unfoldable pub active_runs : List Run → ℕ
active_runs runs = count_where (λ (r : Run). run_is_executing r.status) runs

abbrev pub planned : ℕ → Run → Bool
planned id r = r.id == id && run_is_planning r.status

abbrev pub admitted : Run → Run
admitted r = record r { status = RunStatus.running; finished_at = none; error_summary = none }

-- admitRunTx; `max_active` is s.maxActiveRuns.
unfoldable pub admit_run : (max_active : ℤ) → (run_id : ℕ) → Db → Result (Bool × Db)
unfolding active_runs
admit_run max_active run_id db = do
  guard (not (run_id == 0)) invalid_argument
  if is_positive max_active && leb (pos_part max_active) (active_runs db.runs)
      then ok (false, db)
      else ok (
        count_where (planned run_id) db.runs == 1,
        record db { runs = update_where (planned run_id) admitted db.runs },
      )

abbrev pub has_pending_task : ℕ → Db → Bool
has_pending_task run_id db =
    any_where (λ (t : Task). t.run_id == run_id && task_is_pending t.status) db.tasks

-- A PLANNING run with a PENDING task.
abbrev pub is_waiting : Db → Run → Bool
is_waiting db r = run_is_planning r.status && has_pending_task r.id db

abbrev pub take_ids : ℕ → List Run → List ℕ
take_ids limit [] = []
take_ids limit (r ∷ rs) =
    let rest = take_ids (limit - 1) rs in if limit == 0 then [] else r.id ∷ rest

-- One round of the loop: a run that is still PLANNING is admitted, with an event.
unfoldable pub admit_id : Sha → (now id : ℕ) → Db → Db
admit_id name now id db = record db {
  runs = update_where (planned id) admitted db.runs;
  events =
      if count_where (planned id) db.runs == 1
      then insert_or_ignore
          (run_event (name (text "run-admitted-" ∷ num id ∷ [])) id now ""
            (message "run admitted by global active-run admission"))
          db.events
      else db.events;
}

unfoldable pub admit_ids : Sha → (now : ℕ) → List ℕ → ℕ × Db → ℕ × Db
unfolding admit_id
admit_ids name now [] (n, db) = (n, db)
admit_ids name now (id ∷ ids) (n, db) =
    admit_ids name now ids (n + count_where (planned id) db.runs, admit_id name now id db)

-- The check on the read pool, against the database that the pool showed.
abbrev pub capacity_waits : (max_active : ℤ) → Db → Bool
capacity_waits max_active seen =
    ltb (active_runs seen.runs) (pos_part max_active) && any_where (is_waiting seen) seen.runs

unfoldable pub admit_pending_runs : Sha → (max_active : ℤ) → (now : ℕ) → (seen db : Db) → ℕ × Db
unfolding active_runs sort_runs insert_sorted admit_ids
admit_pending_runs name max_active now seen db =
    if is_positive max_active && capacity_waits max_active seen
    then (let available = pos_part max_active - active_runs db.runs in
        if available == 0
        then (0, db)
        else admit_ids name now
            (take_ids available (sort_runs (select_where (is_waiting db) db.runs))) (0, db))
    else (0, db)

abbrev pub has_task : ℕ → Db → Bool
has_task run_id db = any_where (λ (t : Task). t.run_id == run_id) db.tasks

abbrev pub abandoned_run : (now : ℕ) → Run → Run
abandoned_run now r = record r {
  status = RunStatus.failed;
  finished_at = some now;
  error_summary = some "run planning was interrupted before tasks were created";
  failure_class = "UNKNOWN_AMBIGUOUS";
  failure_phase = "planning";
}

unfoldable pub fail_abandoned : Sha → (now : ℕ) → List Run → Db → Db
fail_abandoned name now [] db = db
fail_abandoned name now (r ∷ rs) db = fail_abandoned name now rs (record db {
  runs = update_where (planned r.id) (abandoned_run now) db.runs;
  events =
      insert_or_ignore
        (run_event (name (text "planning-abandoned-" ∷ num r.id ∷ [])) r.id now
          "RUN_PLANNING_ABANDONED" (message "run FAILED"))
        db.events;
})

-- FailAbandonedPlanningRuns; returns the runs that it failed.
unfoldable pub fail_abandoned_planning_runs : Sha → (now : ℕ) → Db → List Run × Db
unfolding fail_abandoned
fail_abandoned_planning_runs name now db =
    let abandoned =
      select_where (λ (r : Run). run_is_planning r.status && not (has_task r.id db)) db.runs in
    (abandoned, fail_abandoned name now abandoned db)
