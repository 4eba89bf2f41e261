-- ===== src/Lease/CompleteParts.antt =====
-- What a successful completion went through (internal/db/attempts.go, completeTaskAttemptAt).
use o_rabbit.Prelude.{ℕ, true, ◌≡◌, ◌⊎◌, inl, inr, List, ◌==◌}
use o_rabbit.Table.{count_where}
use o_rabbit.Store.{Db}
use o_rabbit.Store.Status.{AttemptStatus}
use o_rabbit.Store.Tx.{ok, >>=-eq-ok, guard-eq-ok}
use o_rabbit.Store.Artifacts.{ArtifactRow}
use o_rabbit.Store.Events.{Sha}
use o_rabbit.Lease.Renew.{Credential}
use o_rabbit.Lease.Expire.{active_attempt}
use o_rabbit.Lease.Judge.{
  Report, Found, Verdict, already_accepted, accept, result_digest, find_attempt, judge,
}
use o_rabbit.Lease.Complete.{
  Reply, already, accepted, running_task, final_attempt_status, final_task_status,
  persist_artifacts, recorded_db, record_result, act_on, complete,
}

-- The writes of an accepted result: the artifact rows, and the final status of the attempt.
pub record Recorded (sha : Sha) (c : Credential) (r : Report) (master_now now : ℕ) (f : Found)
    (db : Db) (out : Reply × Db) : Type 0 where
  pub artifacts : List ArtifactRow
  pub status : AttemptStatus
  pub persisted : persist_artifacts sha c r master_now now f db.artifacts ≡ ok artifacts
  pub final : final_attempt_status r.status ≡ ok status
  pub one_attempt : (count_where (active_attempt c.attempt_id) db.attempts == 1) ≡ true
  pub one_task : (count_where (running_task c) db.tasks == 1) ≡ true
  pub result :
      (
        accepted (final_task_status r.status),
        recorded_db c r (result_digest sha r) now status artifacts db,
      )
      ≡ out

module _ (sha : Sha) (c : Credential) (r : Report) (master_now now : ℕ) (db : Db) where
  pub record_result-Recorded :
      (f : Found) {out : Reply × Db}
      → record_result sha c r (result_digest sha r) master_now now f db ≡ ok out
      → Recorded sha c r master_now now f db out
  unfolding record_result
  record_result-Recorded f h =
      let (artifacts, persisted, h₁) = >>=-eq-ok _ _ h in
      let (status, final, h₂) = >>=-eq-ok _ _ h₁ in
      let (one_attempt, h₃) = guard-eq-ok _ _ _ h₂ in
      let (one_task, h₄) = guard-eq-ok _ _ _ h₃ in
      record {
        artifacts = artifacts;
        status = status;
        persisted = persisted;
        final = final;
        one_attempt = one_attempt;
        one_task = one_task;
        result = cc;
      }

  -- A successful completion found its attempt, and either knew the result already or recorded it.
  pub complete-eq-ok :
      {out : Reply × Db}
      → complete sha c r master_now now db ≡ ok out
      → (f : Found) × (find_attempt c db ≡ ok f)
        × ((judge c (result_digest sha r) master_now f ≡ ok already_accepted)
              × ((already f.task.status, db) ≡ out)
            ⊎ (judge c (result_digest sha r) master_now f ≡ ok accept)
              × Recorded sha c r master_now now f db out)
  unfolding complete
  complete-eq-ok {out} h =
      let (f, found, h₁) = >>=-eq-ok _ _ h in
      let (v, judged, h₂) = >>=-eq-ok _ _ h₁ in (f, found, by_verdict f v judged h₂)
    where
      by_verdict :
          (f : Found) (v : Verdict)
          → judge c (result_digest sha r) master_now f ≡ ok v
          → act_on v sha c r (result_digest sha r) master_now now f db ≡ ok out
          → (judge c (result_digest sha r) master_now f ≡ ok already_accepted)
              × ((already f.task.status, db) ≡ out)
            ⊎ (judge c (result_digest sha r) master_now f ≡ ok accept)
              × Recorded sha c r master_now now f db out
      by_verdict f already_accepted judged q = inl (judged, cc)
      by_verdict f accept judged q = inr (judged, record_result-Recorded f q)
