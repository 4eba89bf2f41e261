-- ===== src/Lease/Reject.antt =====
-- InsertAttemptRejectionEvent (internal/db/attempts.go): the event of a rejected report.
use o_rabbit.Prelude.{
  ℕ, ◌≡◌, refl, ap, ◌∙◌, true, ◌&&◌, String, List, [], ◌∷◌, ◌++◌, arith, ◌==◌, if◌then◌else◌,
  Bool-cases, inl, inr,
}
use o_rabbit.Table.{find_where, any_where}
use o_rabbit.Table.Laws.{any_where_of_mem}
use o_rabbit.Table.Keyed.{mem-append_last}
use o_rabbit.Store.{Task, Attempt, Db}
use o_rabbit.Store.Tx.{Result, ok, no_rows, or_error, ◌>>=◌, >>=-eq-ok, ok-injective}
use o_rabbit.Store.Events.{Sha, Event, nothing, insert_or_ignore, insert_attempt_event}
use o_rabbit.Lease.WellFormed.{WellFormed}
use o_rabbit.Lease.Extends.{Extends}

abbrev pub or_stored : (worker_id stored : ℕ) → ℕ
or_stored worker_id stored = if worker_id == 0 then stored else worker_id

-- The database with the event.
unfoldable pub with_rejection :
    Sha
    → (worker_id : ℕ) → (event_type classification : String) → (now : ℕ) → Task
    → Attempt
    → Db
    → Db
with_rejection sha worker_id event_type classification now t a db = record db {
  events =
      insert_attempt_event sha t.run_id t.id a.id a.attempt_number (or_stored worker_id a.worker_id)
        event_type classification now nothing db.events;
}

unfoldable pub record_rejection :
    Sha
    → (task_id attempt_id worker_id : ℕ) → (event_type classification : String) → (now : ℕ) → Db
    → Result (Unit {0} × Db)
unfolding with_rejection
record_rejection sha task_id attempt_id worker_id event_type classification now db = do
  a ←
      or_error
        (find_where (λ (a : Attempt). a.id == attempt_id && a.task_id == task_id) db.attempts)
        no_rows
  t ← or_error (find_where (λ (t : Task). t.id == a.task_id) db.tasks) no_rows
  ok (tt, with_rejection sha worker_id event_type classification now t a db)

-- What a recorded rejection found.
pub record_rejection-eq-ok :
    (sha : Sha) (task_id attempt_id worker_id : ℕ) (event_type classification : String) (now : ℕ)
    (db : Db) {out : Unit {0} × Db}
    → record_rejection sha task_id attempt_id worker_id event_type classification now db ≡ ok out
    → (a : Attempt) × (t : Task) × (or_error
          (find_where (λ (x : Attempt). x.id == attempt_id && x.task_id == task_id) db.attempts)
          no_rows
        ≡ ok a)
      × (or_error (find_where (λ (x : Task). x.id == a.task_id) db.tasks) no_rows ≡ ok t)
      × (with_rejection sha worker_id event_type classification now t a db ≡ out.1)
unfolding record_rejection
record_rejection-eq-ok sha task_id attempt_id worker_id event_type classification now db h =
    let (a, ha, h₁) = >>=-eq-ok _ _ h in
    let (t, ht, h₂) = >>=-eq-ok _ _ h₁ in (a, t, ha, ht, ap (λ o. o.1) (ok-injective h₂))

record_rejection-found :
    (sha : Sha) (task_id attempt_id worker_id : ℕ) (event_type classification : String) (now : ℕ)
    (db : Db) (a : Attempt) (t : Task)
    → or_error
        (find_where (λ (x : Attempt). x.id == attempt_id && x.task_id == task_id) db.attempts)
        no_rows
      ≡ ok a
    → or_error (find_where (λ (x : Task). x.id == a.task_id) db.tasks) no_rows ≡ ok t
    → record_rejection sha task_id attempt_id worker_id event_type classification now db
      ≡ ok (tt, with_rejection sha worker_id event_type classification now t a db)
unfolding record_rejection
record_rejection-found sha task_id attempt_id worker_id event_type classification now db a t ha ht =
    rw ha (rw ht refl)

-- The event is ignored where its id is taken.
insert_or_ignore-again :
    (e e' : Event) (events : List Event)
    → e'.id ≡ e.id
    → insert_or_ignore e' (insert_or_ignore e events) ≡ insert_or_ignore e events
unfolding insert_or_ignore
insert_or_ignore-again e e' events same =
    elim (Bool-cases (any_where (λ (x : Event). x.id == e.id) events)) [
      | inl taken ↦ rw same (rw taken (rw taken refl))
      | inr fresh ↦
          let now_taken : any_where (λ (x : Event). x.id == e.id) (events ++ e ∷ []) ≡ true =
            any_where_of_mem _ (events ++ e ∷ []) (mem-append_last events e) (ground arith) in
          rw same (rw fresh (rw now_taken refl))
    ]

module _ (sha : Sha) (event_type classification : String) (t : Task) (a : Attempt) where
  with_rejection-again :
      (worker_id worker_id' now now' : ℕ) (db : Db)
      → with_rejection sha worker_id' event_type classification now' t a
          (with_rejection sha worker_id event_type classification now t a db)
        ≡ with_rejection sha worker_id event_type classification now t a db
  unfolding with_rejection insert_attempt_event
  with_rejection-again worker_id worker_id' now now' db =
      ap (λ es. record db { events = es }) (insert_or_ignore-again _ _ db.events refl)

-- A rejection is recorded at most once for an attempt, an event type and a classification: recorded
-- again right away, at any time and for any worker, it succeeds and changes nothing.
pub record_rejection-again :
    (sha : Sha) (task_id attempt_id worker_id worker_id' : ℕ) (event_type classification : String)
    (now now' : ℕ) (db db' : Db)
    → record_rejection sha task_id attempt_id worker_id event_type classification now db
      ≡ ok (tt, db')
    → record_rejection sha task_id attempt_id worker_id' event_type classification now' db'
      ≡ ok (tt, db')
record_rejection-again sha task_id attempt_id worker_id worker_id' event_type classification now
      now' db db' h =
    let (a, t, ha, ht, e) =
      record_rejection-eq-ok sha task_id attempt_id worker_id event_type classification now db h in
    rw (← e) (found_again a t ha ht)
  where
    found_again :
        (a : Attempt) (t : Task)
        → or_error
            (find_where (λ (x : Attempt). x.id == attempt_id && x.task_id == task_id) db.attempts)
            no_rows
          ≡ ok a
        → or_error (find_where (λ (x : Task). x.id == a.task_id) db.tasks) no_rows ≡ ok t
        → record_rejection sha task_id attempt_id worker_id' event_type classification now'
            (with_rejection sha worker_id event_type classification now t a db)
          ≡ ok (tt, with_rejection sha worker_id event_type classification now t a db)
    found_again a t ha ht =
        record_rejection-found sha task_id attempt_id worker_id' event_type classification now'
          (with_rejection sha worker_id event_type classification now t a db) a t
          (unfold with_rejection in ha) (unfold with_rejection in ht)
        ∙ ap (λ d. ok (tt, d))
            (with_rejection-again sha event_type classification t a worker_id worker_id' now now'
              db)

pub with_rejection-WellFormed :
    (sha : Sha) (worker_id : ℕ) (event_type classification : String) (now : ℕ) (t : Task)
    (a : Attempt) (db : Db)
    → WellFormed db
    → WellFormed (with_rejection sha worker_id event_type classification now t a db)
unfolding with_rejection
with_rejection-WellFormed sha worker_id event_type classification now t a db w = record {
  tasks_key = w.tasks_key;
  attempts_key = w.attempts_key;
  held = w.held;
  fits = w.fits;
}

pub with_rejection-Extends :
    (sha : Sha) (worker_id : ℕ) (event_type classification : String) (now : ℕ) (t : Task)
    (a : Attempt) (db : Db)
    → Extends db (with_rejection sha worker_id event_type classification now t a db)
unfolding with_rejection
with_rejection-Extends sha worker_id event_type classification now t a db = record {
  finished = λ b m f. m;
  ended = λ u m e. m;
  runs = λ id. refl;
}
