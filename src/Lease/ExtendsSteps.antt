-- ===== src/Lease/ExtendsSteps.antt =====
-- Each lease operation (internal/db/attempts.go) leaves finished attempts and ended tasks alone.
use o_rabbit.Prelude.{
  ℕ, ℤ, ◌≡◌, refl, String, Bool-cases, Option, none, some, List, [], ◌∷◌, ◌+◌, inl, inr, arith, leb,
  ◌==◌,
}
use o_rabbit.Table.{count_where}
use o_rabbit.Table.Keyed.{mem-append_left}
use o_rabbit.Store.{Task, Attempt, Db}
use o_rabbit.Store.Tx.{Result, ok, >>=-eq-ok, if-eq-ok, ok-injective}
use o_rabbit.Store.Events.{Sha}
use o_rabbit.Lease.Policy.{LeasePolicy, NormalPolicy, normalized}
use o_rabbit.Lease.Select.{Candidate, select_next}
use o_rabbit.Lease.Assign.{
  Lease, assignable, lease_of, new_attempt, current_epoch, lease_task, lease_candidate, assign,
}
use o_rabbit.Lease.Renew.{
  Credential, renewable, renew, may_progress, update_progress, cancel_active_attempts,
}
use o_rabbit.Lease.Expire.{Item, active_attempt, expire_item, expire_items, expiry_items, expire}
use o_rabbit.Lease.Judge.{Report}
use o_rabbit.Lease.Complete.{Reply, recorded_db, complete}
use o_rabbit.Lease.CompleteParts.{complete-eq-ok}
use o_rabbit.Lease.Abandon.{abandon_writes, abandon}
use o_rabbit.Lease.PreserveResults.{abandon-eq-ok}
use o_rabbit.Lease.PreserveAssign.{insert_attempt-eq-ok}
use o_rabbit.Lease.AssignLaws.{assign-eq-ok}
use o_rabbit.Lease.WellFormed.{WellFormed, no_row, update_where-no_row}
use o_rabbit.Lease.Preserve.{expire_item-WellFormed}
use o_rabbit.Lease.Extends.{
  Extends, Extends-refl, Extends-trans, Extends-updates, unselected-mem, has_run-exhausted,
}

pub renew-Extends :
    (c : Credential) (now : ℕ) (duration : ℤ) (db : Db) {out : ℕ × Db}
    → WellFormed db
    → renew c now duration db ≡ ok out
    → Extends db out.1
unfolding renew
renew-Extends c now duration db w h =
    let (_, e) = if-eq-ok _ _ _ h in
    rw (← e) (
      Extends-updates (renewable c now db) _ no_row (λ t. t) db _
        (record { only_active = λ a f. ground arith; only_open = λ t k e. refl }) w refl
        (update_where-no_row _ _) (λ id. refl))

pub update_progress-Extends :
    (c : Credential) (now : ℕ) (rows bytes_read bytes_written : ℤ) (db : Db) {out : Unit {0} × Db}
    → WellFormed db
    → update_progress c now rows bytes_read bytes_written db ≡ ok out
    → Extends db out.1
unfolding update_progress
update_progress-Extends c now rows bytes_read bytes_written db w h =
    let (_, e) = if-eq-ok _ _ _ h in
    rw (← e) (
      Extends-updates no_row (λ a. a) (may_progress c now db) _ db _
        (record { only_active = λ a f. refl; only_open = λ t k e. ground arith }) w
        (update_where-no_row _ _) refl (λ id. refl))

pub cancel_active_attempts-Extends :
    (run_id : ℕ) (reason : String) (now : ℕ) (db : Db)
    → WellFormed db
    → Extends db (cancel_active_attempts run_id reason now db)
unfolding cancel_active_attempts
cancel_active_attempts-Extends run_id reason now db w =
    Extends-updates _ _ no_row (λ t. t) db _
      (record { only_active = λ a f. ground arith; only_open = λ t k e. refl }) w refl
      (update_where-no_row _ _) (λ id. refl)

pub expire_item-Extends :
    (sha : Sha) (p : NormalPolicy) (now : ℕ) (x : Item) (db : Db)
    → WellFormed db
    → Extends db (expire_item sha p now x db)
unfolding expire_item
expire_item-Extends sha p now x db w =
    elim (Bool-cases (count_where (active_attempt x.attempt.id) db.attempts == 1)) [
      | inr e ↦ rw e (
          Extends-updates _ _ no_row (λ t. t) db _
            (record { only_active = λ a f. ground arith; only_open = λ t k e. refl }) w refl
            (update_where-no_row _ _) (λ id. refl))
      | inl e ↦ rw e (elim (Bool-cases (leb p.max_attempts x.attempt.attempt_number)) [
        | inl l ↦ rw l (
            Extends-updates _ _ _ _ db _
              (record { only_active = λ a f. ground arith; only_open = λ t k e. ground arith }) w
              refl refl (has_run-exhausted x.run_id now db.runs))
        | inr l ↦ rw l (
            Extends-updates _ _ _ _ db _
              (record { only_active = λ a f. ground arith; only_open = λ t k e. ground arith }) w
              refl refl (λ id. refl))
      ])
    ]

pub expire_items-Extends :
    (sha : Sha) (p : NormalPolicy) (now : ℕ) (items : List Item) (n : ℕ) (db : Db)
    → WellFormed db
    → Extends db (expire_items sha p now items n db).1
unfolding expire_items
expire_items-Extends sha p now [] n db w = Extends-refl db
expire_items-Extends sha p now (x ∷ rest) n db w =
    Extends-trans (expire_item-Extends sha p now x db w)
      (expire_items-Extends sha p now rest _ _ (expire_item-WellFormed now x sha p db w))

pub expire-Extends :
    (sha : Sha) (now : ℕ) (policy : LeasePolicy) (db : Db)
    → WellFormed db
    → Extends db (expire sha now policy db).1
unfolding expire
expire-Extends sha now policy db w =
    expire_items-Extends sha (normalized policy) now (expiry_items now db) 0 db w

pub complete-Extends :
    (sha : Sha) (c : Credential) (r : Report) (master_now now : ℕ) (db : Db) {out : Reply × Db}
    → WellFormed db
    → complete sha c r master_now now db ≡ ok out
    → Extends db out.1
unfolding recorded_db
complete-Extends sha c r master_now now db w h =
    let (f, found, cases) = complete-eq-ok sha c r master_now now db h in
    elim cases [
      | inl known ↦ rw (← known.1) (Extends-refl db)
      | inr new ↦ rw (← new.1.result) (
          Extends-updates _ _ _ _ db _
            (record { only_active = λ a f. ground arith; only_open = λ t k e. ground arith }) w refl
            refl (λ id. refl))
    ]

writes-Extends :
    (sha : Sha) (p : NormalPolicy) (reason : String) (now : ℕ) (t : Task) (a : Attempt) (db : Db)
    → WellFormed db
    → Extends db (abandon_writes sha p reason now t a db)
unfolding abandon_writes
writes-Extends sha p reason now t a db w = elim (Bool-cases (leb p.max_attempts a.attempt_number)) [
  | inl l ↦ rw l (
      Extends-updates _ _ _ _ db _
        (record { only_active = λ b f. ground arith; only_open = λ u k e. ground arith }) w refl
        refl (has_run-exhausted t.run_id now db.runs))
  | inr l ↦ rw l (
      Extends-updates _ _ _ _ db _
        (record { only_active = λ b f. ground arith; only_open = λ u k e. ground arith }) w refl
        refl (λ id. refl))
]

pub abandon-Extends :
    (sha : Sha) (task_id attempt_id worker_id : ℕ) (reason : String) (now : ℕ)
    (policy : LeasePolicy) (db : Db) {out : Unit {0} × Db}
    → WellFormed db
    → abandon sha task_id attempt_id worker_id reason now policy db ≡ ok out
    → Extends db out.1
abandon-Extends sha task_id attempt_id worker_id reason now policy db w h =
    let (t, a, found, e) = abandon-eq-ok sha task_id attempt_id worker_id reason now policy db h in
    rw (← e) (writes-Extends sha (normalized policy) reason now t a db w)

lease_candidate-Extends :
    (sha : Sha) (boot_id worker_id now deadline attempt_id token : ℕ) (c : Option Candidate)
    (db : Db) {out : Option Lease × Db}
    → lease_candidate sha boot_id worker_id now deadline attempt_id token c db ≡ ok out
    → Extends db out.1
unfolding lease_task
lease_candidate-Extends sha boot_id worker_id now deadline attempt_id token none db h =
    rw (← ok-injective h) (Extends-refl db)
lease_candidate-Extends sha boot_id worker_id now deadline attempt_id token (some d) db h =
    let l = lease_of d attempt_id token deadline in
    elim (Bool-cases (count_where (assignable l.task_id) db.tasks == 1)) [
      | inr other ↦
          let q = ok-injective (rw other at h) in
          rw (← q) (record {
            finished = λ a m f. m;
            ended = λ t m e. unselected-mem _ _ db.tasks m (ground arith);
            runs = λ id. refl;
          })
      | inl one ↦
          let (attempts, inserted, q) = >>=-eq-ok _ _ (rw one at h) in
          let (_, grown) =
            insert_attempt-eq-ok (new_attempt l boot_id worker_id now (current_epoch db.leader))
              db.attempts inserted in
          let r = ok-injective q in
          rw (← r) (
            rw (← grown) (record {
              finished = λ a m f. mem-append_left db.attempts _ m;
              ended = λ t m e. unselected-mem _ _ db.tasks m (ground arith);
              runs = λ id. refl;
            }))
    ]

pub assign-Extends :
    (sha : Sha) (boot_id worker_id pool now : ℕ) (policy : LeasePolicy) (id_fn token_fn : Result ℕ)
    (db : Db) {out : Option Lease × Db}
    → assign sha boot_id worker_id pool now policy id_fn token_fn db ≡ ok out
    → Extends db out.1
assign-Extends sha boot_id worker_id pool now policy id_fn token_fn db h =
    let (attempt_id, token, q) =
      assign-eq-ok sha boot_id worker_id pool now policy id_fn token_fn db h in
    lease_candidate-Extends sha boot_id worker_id now (now + (normalized policy).duration)
      attempt_id token (select_next (normalized policy) now pool db) db q
