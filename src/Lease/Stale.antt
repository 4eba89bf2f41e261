-- ===== src/Lease/Stale.antt =====
-- Stale workers (internal/db/attempts.go): once an attempt is no longer ACTIVE, nothing that is
-- presented under its id is taken, whatever happened since.
use o_rabbit.Prelude.{ℕ, ℤ, ◌≡◌, ◌≢◌, refl, Bool, true, false, Memᴰ, arith, inl, inr, Bool-cases}
use o_rabbit.Table.{count_where, any_where}
use o_rabbit.Table.Laws.{count_where_zero, any_where_none}
use o_rabbit.Store.{Attempt, Db}
use o_rabbit.Store.Status.{AttemptStatus}
use o_rabbit.Store.Tx.{ok, err, attempt_fenced}
use o_rabbit.Store.Events.{Sha}
use o_rabbit.Lease.Renew.{Credential, holds_lease, renewable, renew, may_progress, update_progress}
use o_rabbit.Lease.Judge.{Report, Found, same_owner, result_digest, judge, verdict_for}
use o_rabbit.Lease.Complete.{Reply, complete}
use o_rabbit.Lease.CompleteParts.{complete-eq-ok}
use o_rabbit.Lease.WellFormed.{WellFormed, attempts-Keyed}
use o_rabbit.Lease.Extends.{IsFinished}
use o_rabbit.Lease.Steps.{Reach, Reach-WellFormed, Reach-Extends}
use o_rabbit.Lease.Fencing.{found_attempt}

-- The row that a lease check can select is the row with the id that was presented.
finished_holds_none :
    (c : Credential) (now : ℕ) (db : Db) (a : Attempt)
    → WellFormed db
    → Memᴰ a db.attempts
    → a.id ≡ c.attempt_id
    → IsFinished a
    → (b : Attempt) → Memᴰ b db.attempts
    → holds_lease c now b ≡ false
finished_holds_none c now db a w m e f b mb = elim (Bool-cases (holds_lease c now b)) [
  | inr e₀ ↦ e₀
  | inl e₁ ↦ let q : b ≡ a = attempts-Keyed w b a mb m (ground arith) in ground (arith, q)
]

module _ (c : Credential) (now : ℕ) (db : Db) (a : Attempt) (w : WellFormed db)
    (m : Memᴰ a db.attempts) (e : a.id ≡ c.attempt_id) (f : IsFinished a) where
  renew-finished : (duration : ℤ) → renew c now duration db ≡ err attempt_fenced
  unfolding renew
  renew-finished duration =
      let none_selected : count_where (renewable c now db) db.attempts ≡ 0 =
        count_where_zero _ db.attempts (λ b mb.
          unfold renewable in ground (arith, finished_holds_none c now db a w m e f b mb)) in
      rw none_selected refl

  update_progress-finished :
      (rows bytes_read bytes_written : ℤ)
      → update_progress c now rows bytes_read bytes_written db ≡ err attempt_fenced
  unfolding update_progress
  update_progress-finished rows bytes_read bytes_written =
      let none_selected : count_where (may_progress c now db) db.tasks ≡ 0 =
        count_where_zero _ db.tasks (λ t mt.
          unfold may_progress in
          let nobody : any_where (holds_lease c now) db.attempts ≡ false =
            any_where_none _ db.attempts (finished_holds_none c now db a w m e f) in
          ground (arith, nobody)) in
      rw none_selected refl

-- EXPIRED, SUPERSEDED or CANCELED: the lease was lost without an accepted result.
abbrev pub is_lost : AttemptStatus → Bool
is_lost AttemptStatus.expired = true
is_lost AttemptStatus.superseded = true
is_lost AttemptStatus.canceled = true
is_lost _ = false

verdict_for-lost :
    (s : AttemptStatus) (c : Credential) (digest now : ℕ) (f : Found)
    → is_lost s ≡ true
    → verdict_for s c digest now f ≡ err attempt_fenced
unfolding verdict_for
verdict_for-lost AttemptStatus.canceled c digest now f h = refl
verdict_for-lost AttemptStatus.expired c digest now f h = refl
verdict_for-lost AttemptStatus.superseded c digest now f h = refl
verdict_for-lost AttemptStatus.succeeded c digest now f h = cc
verdict_for-lost AttemptStatus.failed c digest now f h = cc
verdict_for-lost AttemptStatus.active c digest now f h = cc

judge-lost :
    (c : Credential) (digest now : ℕ) (f : Found)
    → is_lost f.attempt.status ≡ true
    → judge c digest now f ≡ err attempt_fenced
unfolding judge
judge-lost c digest now f h =
    rw (verdict_for-lost f.attempt.status c digest now f h)
      (elim (Bool-cases (same_owner c f.attempt)) [ inl e ↦ rw e refl | inr e ↦ rw e refl ])

complete-lost :
    (sha : Sha) (c : Credential) (r : Report) (master_now now : ℕ) (db : Db) (a : Attempt)
    (out : Reply × Db)
    → WellFormed db
    → Memᴰ a db.attempts
    → a.id ≡ c.attempt_id
    → is_lost a.status ≡ true
    → complete sha c r master_now now db ≢ ok out
complete-lost sha c r master_now now db a out w m e lost h =
    let (f, found, cases) = complete-eq-ok sha c r master_now now db h in
    let q : f.attempt ≡ a = found_attempt c db a w m e found in
    let j = judge-lost c (result_digest sha r) master_now f (rw q lost) in
    elim cases [ inl known ↦ cc | inr new ↦ cc ]

-- In tables that any lease operations made from well formed ones with a finished attempt, a renewal
-- and a progress report under the id of that attempt are fenced; and if the attempt was EXPIRED,
-- SUPERSEDED or CANCELED, no completion under its id succeeds.
pub stale_attempt_fenced :
    (sha : Sha) (db db' : Db) (a : Attempt) (c : Credential)
    → WellFormed db
    → Memᴰ a db.attempts
    → IsFinished a
    → a.id ≡ c.attempt_id
    → Reach sha db db'
    → ((now : ℕ) (duration : ℤ) → renew c now duration db' ≡ err attempt_fenced)
      × ((now : ℕ) (rows bytes_read bytes_written : ℤ)
          → update_progress c now rows bytes_read bytes_written db' ≡ err attempt_fenced)
      × (is_lost a.status ≡ true
          → (r : Report) (master_now now : ℕ) (out : Reply × Db)
          → complete sha c r master_now now db' ≢ ok out)
stale_attempt_fenced sha db db' a c w m f e reach =
    let w' = Reach-WellFormed sha db db' w reach in
    let m' = (Reach-Extends sha db db' w reach).finished a m f in
    (
      λ now duration. renew-finished c now db' a w' m' e f duration,
      λ now rows bytes_read bytes_written.
          update_progress-finished c now db' a w' m' e f rows bytes_read bytes_written,
      λ lost r master_now now out. complete-lost sha c r master_now now db' a out w' m' e lost,
    )
