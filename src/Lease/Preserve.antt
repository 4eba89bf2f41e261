-- ===== src/Lease/Preserve.antt =====
-- The operations on leased attempts (internal/db/attempts.go) keep the tables well formed.
use o_rabbit.Prelude.{
  ℕ, ℤ, positive_or, ◌+◌, ◌≡◌, String, List, [], ◌∷◌, refl, arith, leb, Bool-cases, inl, inr, ◌==◌,
}
use o_rabbit.Table.{count_where}
use o_rabbit.Store.{Db}
use o_rabbit.Store.Tx.{ok, if-eq-ok}
use o_rabbit.Store.Events.{Sha}
use o_rabbit.Lease.Policy.{NormalPolicy, LeasePolicy, default_lease, normalized}
use o_rabbit.Lease.Renew.{
  Credential, renewable, renewed, renew, may_progress, progressed, update_progress,
  canceled_attempt, cancel_active_attempts,
}
use o_rabbit.Lease.Expire.{
  Item, active_attempt, expired_attempt, task_with_attempt, quarantined_task, retried_task,
  expire_item, expire_items, expiry_items, expire,
}
use o_rabbit.Lease.WellFormed.{WellFormed, RowWise, WellFormed-updates, no_row, update_where-no_row}

renew_rows :
    (c : Credential) (deadline now : ℕ) (db : Db)
    → RowWise db (renewable c now db) (renewed deadline now) no_row (λ t. t)
renew_rows c deadline now db = record {
  attempt_id = λ a. refl;
  task_id = λ t. refl;
  holds = λ t h. h;
  fit = λ a t m n h. ground arith;
}

-- A renewal keeps the tables well formed.
pub renew-WellFormed :
    (c : Credential) (now : ℕ) (duration : ℤ) (db : Db) {r : ℕ × Db}
    → WellFormed db
    → renew c now duration db ≡ ok r
    → WellFormed r.1
unfolding renew
renew-WellFormed c now duration db w h =
    let (_, e) = if-eq-ok _ _ _ h in
    rw (← e) (
      WellFormed-updates _ _ _ _ db _
        (renew_rows c (now + positive_or duration default_lease) now db) w refl
        (update_where-no_row _ _))

-- So does a progress report.
pub update_progress-WellFormed :
    (c : Credential) (now : ℕ) (rows bytes_read bytes_written : ℤ) (db : Db) {r : Unit × Db}
    → WellFormed db
    → update_progress c now rows bytes_read bytes_written db ≡ ok r
    → WellFormed r.1
unfolding update_progress
update_progress-WellFormed c now rows bytes_read bytes_written db w h =
    let (_, e) = if-eq-ok _ _ _ h in
    rw (← e) (
      WellFormed-updates no_row (λ a. a) (may_progress c now db)
        (progressed rows bytes_read bytes_written) db _
        (record {
          attempt_id = λ a. refl;
          task_id = λ t. refl;
          holds = λ t h. ground arith;
          fit = λ a t m n h. ground arith;
        })
        w (update_where-no_row _ _) refl)

-- So does a cancellation of a run's attempts.
pub cancel_active_attempts-WellFormed :
    (run_id : ℕ) (reason : String) (now : ℕ) (db : Db)
    → WellFormed db
    → WellFormed (cancel_active_attempts run_id reason now db)
unfolding cancel_active_attempts
cancel_active_attempts-WellFormed run_id reason now db w =
    WellFormed-updates _ (canceled_attempt reason now) no_row (λ t. t) db _
      (record {
        attempt_id = λ a. refl;
        task_id = λ t. refl;
        holds = λ t h. h;
        fit = λ a t m n h. ground arith;
      })
      w refl (update_where-no_row _ _)

module _ (now : ℕ) (x : Item) where
  retry_rows :
      (message : String) (next : ℕ) (db : Db)
      → RowWise db
          (active_attempt x.attempt.id)
          (expired_attempt now)
          (task_with_attempt x.attempt.task_id x.attempt.id)
          (retried_task message next)
  retry_rows message next db = record {
    attempt_id = λ a. refl;
    task_id = λ t. refl;
    holds = λ t h. ground arith;
    fit = λ a t m n h. ground arith;
  }

  quarantine_rows :
      (message : String) (db : Db)
      → RowWise db
          (active_attempt x.attempt.id)
          (expired_attempt now)
          (task_with_attempt x.attempt.task_id x.attempt.id)
          (quarantined_task message now)
  quarantine_rows message db = record {
    attempt_id = λ a. refl;
    task_id = λ t. refl;
    holds = λ t h. ground arith;
    fit = λ a t m n h. ground arith;
  }

  skip_rows :
      (db : Db) → RowWise db (active_attempt x.attempt.id) (expired_attempt now) no_row (λ t. t)
  skip_rows db = record {
    attempt_id = λ a. refl;
    task_id = λ t. refl;
    holds = λ t h. h;
    fit = λ a t m n h. ground arith;
  }

  pub expire_item-WellFormed :
      (sha : Sha) (p : NormalPolicy) (db : Db)
      → WellFormed db
      → WellFormed (expire_item sha p now x db)
  unfolding expire_item
  expire_item-WellFormed sha p db w =
      elim (Bool-cases (count_where (active_attempt x.attempt.id) db.attempts == 1)) [
        | inr e ↦
            rw e (WellFormed-updates _ _ _ _ db _ (skip_rows db) w refl (update_where-no_row _ _))
        | inl e ↦ rw e (elim (Bool-cases (leb p.max_attempts x.attempt.attempt_number)) [
          | inl l ↦ rw l (WellFormed-updates _ _ _ _ db _ (quarantine_rows _ db) w refl refl)
          | inr l ↦ rw l (WellFormed-updates _ _ _ _ db _ (retry_rows _ _ db) w refl refl)
        ])
      ]

expire_items-WellFormed :
    (sha : Sha) (p : NormalPolicy) (now : ℕ) (items : List Item) (n : ℕ) (db : Db)
    → WellFormed db
    → WellFormed (expire_items sha p now items n db).1
unfolding expire_items
expire_items-WellFormed sha p now [] n db w = w
expire_items-WellFormed sha p now (x ∷ rest) n db w =
    expire_items-WellFormed sha p now rest _ _ (expire_item-WellFormed now x sha p db w)

-- So does a sweep of the expired leases.
pub expire-WellFormed :
    (sha : Sha) (now : ℕ) (policy : LeasePolicy) (db : Db)
    → WellFormed db
    → WellFormed (expire sha now policy db).1
unfolding expire
expire-WellFormed sha now policy db w =
    expire_items-WellFormed sha (normalized policy) now (expiry_items now db) 0 db w
