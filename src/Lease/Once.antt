-- ===== src/Lease/Once.antt =====
-- A task's result is recorded once (internal/db/attempts.go, completeTaskAttemptAt): no two results
-- of one task are accepted, and a worker that repeats its report gets the same answer.
use o_rabbit.Prelude.{
  ℕ, ◌≡◌, ◌⊎◌, ◌≢◌, refl, sym, ap, ◌∙◌, true, some, Memᴰ, arith, ◌==◌, inl, inr, if◌then◌else◌,
  Bool-cases,
}
use o_rabbit.Table.{find_where}
use o_rabbit.Table.Laws.{find_where_any, any_where_of_mem}
use o_rabbit.Store.{Run, Task, Db}
use o_rabbit.Store.Status.{TaskStatus, AttemptStatus}
use o_rabbit.Store.Tx.{ok, err, result_conflict}
use o_rabbit.Store.Events.{Sha}
use o_rabbit.Lease.Renew.{Credential}
use o_rabbit.Lease.Judge.{
  Report, ReportedStatus, Found, result_digest, find_attempt, judge, verdict_for, same_owner,
  already_accepted, other,
}
use o_rabbit.Lease.Complete.{
  accepted, already, final_attempt_status, finished_attempt, finished_task, complete,
}
use o_rabbit.Lease.WellFormed.{WellFormed, tasks-Keyed}
use o_rabbit.Lease.PreserveResults.{complete-WellFormed}
use o_rabbit.Lease.Extends.{IsEnded, Extends, has_run}
use o_rabbit.Lease.ExtendsSteps.{complete-Extends}
use o_rabbit.Lease.Steps.{Reach, Reach-WellFormed, Reach-Extends}
use o_rabbit.Lease.Fencing.{find_attempt-of_mem}
use o_rabbit.Lease.Accepted.{Accepted, complete-accepted}

-- The task that a recorded result leaves has ended.
finished_task-IsEnded :
    (r : Report) (now : ℕ) (t : Task) {s : AttemptStatus}
    → final_attempt_status r.status ≡ ok s
    → IsEnded (finished_task r now t)
unfolding finished_task
finished_task-IsEnded r now t h = ground arith

-- SUCCEEDED or FAILED
abbrev IsReported : AttemptStatus → Type 0
IsReported s = (s ≡ AttemptStatus.succeeded) ⊎ (s ≡ AttemptStatus.failed)

final-IsReported :
    (s : ReportedStatus) {st : AttemptStatus}
    → s ≢ ReportedStatus.canceled
    → final_attempt_status s ≡ ok st
    → IsReported st
final-IsReported ReportedStatus.succeeded n h = inl cc
final-IsReported ReportedStatus.failed n h = inr cc
final-IsReported ReportedStatus.canceled n h = absurd (n refl)
final-IsReported (other s) n h = cc

-- The checks on an attempt whose result is known compare the digests.
judge-reported :
    (c : Credential) (digest now : ℕ) (f : Found)
    → same_owner c f.attempt ≡ true
    → IsReported f.attempt.status
    → judge c digest now f
      ≡ (if f.attempt.result_digest == digest then ok already_accepted else err result_conflict)
unfolding judge verdict_for
judge-reported c digest now f owned (inl e) = rw owned (rw e refl)
judge-reported c digest now f owned (inr e) = rw owned (rw e refl)

module _ (sha : Sha) (c : Credential) (r : Report) (master_now now : ℕ) (s : TaskStatus)
    (db db' db'' : Db) (w : WellFormed db)
    (first : complete sha c r master_now now db ≡ ok (accepted s, db'))
    (reach : Reach sha db' db'') where
  known : Accepted sha c r master_now now s db db'
  known = complete-accepted sha c r master_now now db w s db' first

  after-WellFormed : WellFormed db''
  after-WellFormed =
      Reach-WellFormed sha db' db'' (complete-WellFormed sha c r master_now now db w first) reach

  after-Extends : Extends db' db''
  after-Extends =
      Reach-Extends sha db' db'' (complete-WellFormed sha c r master_now now db w first) reach

  -- The task stays as the result left it.
  task_stays : Memᴰ (finished_task r now known.task) db''.tasks
  task_stays =
      after-Extends.ended _ known.task_after (finished_task-IsEnded r now known.task known.final.0)

  -- Once a result is accepted for a task, whatever lease operations follow, no second result is
  -- accepted for that task: not from another attempt, and not from the same one.
  pub complete_once :
      (c' : Credential) (r' : Report) (master_now' now' : ℕ) (s' : TaskStatus) (db''' : Db)
      → c'.task_id ≡ c.task_id
      → complete sha c' r' master_now' now' db'' ≢ ok (accepted s', db''')
  unfolding finished_task
  complete_once c' r' master_now' now' s' db''' same h =
      let second = complete-accepted sha c' r' master_now' now' db'' after-WellFormed s' db''' h in
      let q : second.task ≡ finished_task r now known.task =
        tasks-Keyed after-WellFormed second.task (finished_task r now known.task) second.task_mem
          task_stays (ground (arith, second.holds.task, known.holds.task, same)) in
      ground (arith, q, second.holds.task, finished_task-IsEnded r now known.task known.final.0)

  attempt_stays :
      Memᴰ (finished_attempt r (result_digest sha r) now known.status known.attempt) db''.attempts
  unfolding finished_attempt
  attempt_stays = after-Extends.finished _ known.attempt_after (ground (arith, known.final.0))

  -- The run of the task is still there.
  run_stays :
      (run : Run) × (find_where (λ (x : Run). x.id == known.task.run_id) db''.runs ≡ some run)
  run_stays =
      let e : has_run known.task.run_id db'' ≡ has_run known.task.run_id db =
        after-Extends.runs known.task.run_id
        ∙ (complete-Extends sha c r master_now now db w first).runs known.task.run_id in
      let there : has_run known.task.run_id db ≡ true =
        any_where_of_mem _ db.runs known.run_mem (ground (arith, known.holds.run)) in
      find_where_any _ db''.runs (e ∙ there)

  -- What a completion finds under the id from then on.
  refound :
      find_attempt c db''
      ≡ ok (record {
        attempt = finished_attempt r (result_digest sha r) now known.status known.attempt;
        task = finished_task r now known.task;
        run = run_stays.0;
      })
  unfolding finished_attempt finished_task
  refound =
      let a = finished_attempt r (result_digest sha r) now known.status known.attempt in
      let t = finished_task r now known.task in
      find_attempt-of_mem c db'' a t run_stays.0 after-WellFormed attempt_stays known.holds.attempt
        task_stays (ground (arith, known.holds.attempt, known.holds.task)) run_stays.1

  -- Once a SUCCEEDED or FAILED result is accepted, whatever lease operations follow, another report
  -- under the same credential changes nothing: if it has the digest of the accepted one it is
  -- answered with the status of the task, and otherwise it is a conflict.
  pub complete_again :
      (r' : Report) (master_now' now' : ℕ)
      → r.status ≢ ReportedStatus.canceled
      → complete sha c r' master_now' now' db'' ≡ (
          if result_digest sha r == result_digest sha r'
          then ok (already s, db'')
          else err result_conflict)
  unfolding complete finished_attempt finished_task
  complete_again r' master_now' now' keeps =
      let judged =
        judge-reported c (result_digest sha r') master_now'
          (record {
            attempt = finished_attempt r (result_digest sha r) now known.status known.attempt;
            task = finished_task r now known.task;
            run = run_stays.0;
          })
          (ground (arith, known.holds.worker, known.holds.token))
          (final-IsReported r.status keeps known.final.0) in
      rw refound (
        rw judged (elim (Bool-cases (result_digest sha r == result_digest sha r')) [
          | inl e ↦ rw e (ap (λ x. ok (already x, db'')) (sym known.final.1))
          | inr e ↦ rw e refl
        ]))
