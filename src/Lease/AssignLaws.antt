-- ===== src/Lease/AssignLaws.antt =====
-- AssignNextPendingTaskInPool (internal/db/attempts.go): the invariant, the limits that an assignment
-- respects, and when it succeeds.
use o_rabbit.Prelude.{ℕ, ◌+◌, ◌≡◌, refl, Option, some, arith}
use o_rabbit.Store.{Db}
use o_rabbit.Store.Tx.{Result, ok, err}
use o_rabbit.Store.Events.{Sha}
use o_rabbit.Lease.Policy.{LeasePolicy, NormalPolicy, normalized}
use o_rabbit.Lease.Select.{Candidate, eligible, select_next}
use o_rabbit.Lease.Assign.{Lease, lease_of, lease_candidate, assign}
use o_rabbit.Lease.WellFormed.{tasks-Keyed, WellFormed}
use o_rabbit.Lease.PreserveAssign.{select_next-task, IsPicked, lease_candidate-WellFormed}

-- The query picks a PENDING task, and its id names no other.
pub select_next-IsPicked :
    (p : NormalPolicy) (now pool attempt_id token deadline : ℕ) (db : Db) (c : Candidate)
    → WellFormed db
    → select_next p now pool db ≡ some c
    → IsPicked (lease_of c attempt_id token deadline) db
unfolding eligible
select_next-IsPicked p now pool attempt_id token deadline db c w h t m e =
    let (mem, passed) = select_next-task p now pool db h in
    let q : t ≡ c.task = tasks-Keyed w t c.task m mem e in rw q (ground arith, refl)

-- An assignment that does not fail drew its two random values, and leased what the query picked.
pub assign-eq-ok :
    (sha : Sha) (boot_id worker_id pool now : ℕ) (policy : LeasePolicy) (id_fn token_fn : Result ℕ)
    (db : Db) {out : Option Lease × Db}
    → assign sha boot_id worker_id pool now policy id_fn token_fn db ≡ ok out
    → (attempt_id token : ℕ) × (lease_candidate sha boot_id worker_id now
          (now + (normalized policy).duration)
          attempt_id
          token
          (select_next (normalized policy) now pool db)
          db
        ≡ ok out)
unfolding assign
assign-eq-ok sha boot_id worker_id pool now policy (ok attempt_id) (ok token) db h =
    (attempt_id, token, h)
assign-eq-ok sha boot_id worker_id pool now policy (ok attempt_id) (err e) db h = cc
assign-eq-ok sha boot_id worker_id pool now policy (err e) token_fn db h = cc

-- An assignment keeps the tables well formed.
pub assign-WellFormed :
    (sha : Sha) (boot_id worker_id pool now : ℕ) (policy : LeasePolicy) (id_fn token_fn : Result ℕ)
    (db : Db) {out : Option Lease × Db}
    → WellFormed db
    → assign sha boot_id worker_id pool now policy id_fn token_fn db ≡ ok out
    → WellFormed out.1
assign-WellFormed sha boot_id worker_id pool now policy id_fn token_fn db w h =
    let (attempt_id, token, q) =
      assign-eq-ok sha boot_id worker_id pool now policy id_fn token_fn db h in
    let p = normalized policy in
    lease_candidate-WellFormed sha boot_id worker_id now (now + p.duration) attempt_id token
      (select_next p now pool db) db w
      (λ d e. select_next-IsPicked p now pool attempt_id token (now + p.duration) db d w e) q
