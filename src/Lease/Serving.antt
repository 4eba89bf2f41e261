-- ===== src/Lease/Serving.antt =====
-- When an assignment succeeds, and with what (internal/db/attempts.go, AssignNextPendingTaskInPool).
use o_rabbit.Prelude.{
  ℕ, ◌+◌, ◌≡◌, refl, sym, ap, true, false, none, some, Memᴰ, Option-cases, inl, inr,
}
use o_rabbit.Store.{Task, Db}
use o_rabbit.Store.Tx.{Result, ok, ok-injective}
use o_rabbit.Store.Events.{Sha}
use o_rabbit.Lease.Policy.{LeasePolicy, normalized}
use o_rabbit.Lease.Select.{Candidate, join_row, eligible, running_tasks, select_next}
use o_rabbit.Lease.Candidates.{next_candidate-none}
use o_rabbit.Lease.Assign.{Lease, lease_of, assign}
use o_rabbit.Lease.WellFormed.{WellFormed}
use o_rabbit.Lease.AssignLaws.{assign-eq-ok}
use o_rabbit.Lease.Given.{
  IsFresh, Leased, picked_assignable, assign-picked, Leased-of_rows, lease_task-eq-ok,
}

module _ (sha : Sha) (boot_id worker_id pool now attempt_id token : ℕ) (policy : LeasePolicy)
    (db : Db) (w : WellFormed db) where
  -- The query returns a row when an eligible task joins.
  select_next-some :
      (t : Task) (c : Candidate)
      → Memᴰ t db.tasks
      → join_row db t ≡ some c
      → eligible (normalized policy) now pool (running_tasks db.tasks) c ≡ true
      → (d : Candidate) × (select_next (normalized policy) now pool db ≡ some d)
  unfolding select_next
  select_next-some t c m j e = elim (Option-cases (select_next (normalized policy) now pool db)) [
    | inr some_row ↦ some_row
    | inl none_row ↦ cc (next_candidate-none _ db db.tasks none_row t c m j)
  ]

  -- If any task is eligible (PENDING and due in a RUNNING run, below its retry limit, within its
  -- job's and the global limit, of the worker's pool) and the id and token are new, then an assignment
  -- succeeds with a lease: no constraint of the schema stops it, and no concurrent change is found.
  pub assign_serves :
      (t : Task) (c : Candidate)
      → IsFresh attempt_id token db
      → Memᴰ t db.tasks
      → join_row db t ≡ some c
      → eligible (normalized policy) now pool (running_tasks db.tasks) c ≡ true
      → (l : Lease) × (db' : Db) × (assign sha boot_id worker_id pool now policy
            (ok attempt_id)
            (ok token)
            db
          ≡ ok (some l, db'))
        × Leased (normalized policy) boot_id worker_id pool now l db db'
  assign_serves t c fresh m j e =
      let (d, h) = select_next-some t c m j e in
      (
        _,
        _,
        assign-picked sha boot_id worker_id pool now attempt_id token policy db w d fresh h,
        Leased-of_rows sha boot_id worker_id pool now attempt_id token policy db w d _
            (lease_of d attempt_id token (now + (normalized policy).duration)) h refl refl _ refl
            refl,
      )

-- An assignment without a lease leaves the database as it was, and no task was eligible.
pub assign-idle :
    (sha : Sha) (boot_id worker_id pool now : ℕ) (policy : LeasePolicy) (id_fn token_fn : Result ℕ)
    (db db' : Db)
    → WellFormed db
    → assign sha boot_id worker_id pool now policy id_fn token_fn db ≡ ok (none, db')
    → (db' ≡ db)
      × ((t : Task) (c : Candidate)
          → Memᴰ t db.tasks
          → join_row db t ≡ some c
          → eligible (normalized policy) now pool (running_tasks db.tasks) c ≡ false)
unfolding select_next
assign-idle sha boot_id worker_id pool now policy id_fn token_fn db db' w h =
    let (attempt_id, token, q) =
      assign-eq-ok sha boot_id worker_id pool now policy id_fn token_fn db h in
    elim (Option-cases (select_next (normalized policy) now pool db)) [
      | inl nothing ↦ (
        sym (ap (λ o. o.1) (ok-injective (rw nothing at q))),
        λ t c m j. next_candidate-none _ db db.tasks nothing t c m j,
      )
      | inr (d, picked) ↦
          let one =
            (picked_assignable sha boot_id worker_id pool now attempt_id token policy db w d
              picked).1 in
          let (_, el, _) =
            lease_task-eq-ok sha boot_id worker_id now
              (lease_of d attempt_id token (now + (normalized policy).duration)) db one
              (rw picked at q) in
          cc el
    ]
