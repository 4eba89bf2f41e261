-- ===== src/Leadership/Terms.antt =====
-- Terms of leadership (internal/db/leadership.go): who holds a term, that terms only grow, and that a
-- master whose term has passed never leads again.
use o_rabbit.Prelude.{
  ℕ, ℤ, ◌+◌, ◌≤◌, ◌<◌, ◌≡◌, ◌≢◌, ◌⊎◌, refl, sym, ◌∙◌, ap, is_positive, Bool, true, false, not, ◌&&◌,
  String, arith, ◌==◌, Bool-cases, inl, inr,
}
use o_rabbit.Store.Tx.{
  ok, err, guard, ◌>>◌, invalid_argument, leadership_held, not_leader, if-eq-ok, guard-eq-ok,
  ok-injective,
}
use o_rabbit.Leadership.Row.{
  Leaders, LeaderLease, milliseconds, is_free, acquired_row, lease_of_row, with_leader, acquire,
  holds_term, leads, renew_leadership, release_leadership, assert_leadership,
  record_leadership_event,
}

-- One statement of any master on the row or its history.
pub data LeaderStep (s s' : Leaders) : Type 0 where
  acquires :
      (instance_id : ℕ) (lease : ℤ) (metadata : String) (now stamp : ℕ) (l : LeaderLease)
      → acquire instance_id lease metadata now stamp s ≡ ok (l, s')
      → LeaderStep s s'
  renews :
      (instance_id epoch lease_ms now deadline : ℕ)
      → renew_leadership instance_id epoch lease_ms now s ≡ ok (deadline, s')
      → LeaderStep s s'
  releases :
      (instance_id epoch now stamp : ℕ) (released : Bool)
      → release_leadership instance_id epoch now stamp s ≡ (released, s')
      → LeaderStep s s'
  records :
      (instance_id epoch : ℕ) (event_type metadata : String) (stamp : ℕ)
      → record_leadership_event instance_id epoch event_type metadata stamp s ≡ s'
      → LeaderStep s s'

pub data LeaderReach (s : Leaders) : Leaders → Type 0 where
  here : LeaderReach s s
  next : {s' s'' : Leaders} → LeaderReach s s' → LeaderStep s' s'' → LeaderReach s s''

-- What a successful acquisition found and made.
pub acquire-eq-ok :
    (instance_id : ℕ) (lease : ℤ) (metadata : String) (now stamp : ℕ) (s : Leaders)
    {out : LeaderLease × Leaders}
    → acquire instance_id lease metadata now stamp s ≡ ok out
    → (is_free now s.row ≡ true)
      × ((
        lease_of_row (acquired_row instance_id (milliseconds lease) metadata now s.row),
        with_leader (acquired_row instance_id (milliseconds lease) metadata now s.row) stamp s,
      )
          ≡ out)
unfolding acquire
acquire-eq-ok instance_id lease metadata now stamp s h =
    let r = acquired_row instance_id (milliseconds lease) metadata now s.row in
    let (_, h₁) =
      guard-eq-ok (not (instance_id == 0) && is_positive lease) invalid_argument
        (guard (is_free now s.row) leadership_held >> ok (lease_of_row r, with_leader r stamp s))
        h in
    let (free, h₂) =
      guard-eq-ok (is_free now s.row) leadership_held (ok (lease_of_row r, with_leader r stamp s))
        h₁ in
    (free, ok-injective h₂)

-- An acquisition makes the next term.
pub acquire_epoch :
    (instance_id : ℕ) (lease : ℤ) (metadata : String) (now stamp : ℕ) (s s' : Leaders)
    (l : LeaderLease)
    → acquire instance_id lease metadata now stamp s ≡ ok (l, s')
    → (l.epoch ≡ s.row.epoch + 1) × (s'.row.epoch ≡ s.row.epoch + 1)
unfolding acquired_row
acquire_epoch instance_id lease metadata now stamp s s' l h =
    let (_, e) = acquire-eq-ok instance_id lease metadata now stamp s h in
    let el : s.row.epoch + 1 ≡ l.epoch = ap (λ o. o.0.epoch) e in
    let es : s.row.epoch + 1 ≡ s'.row.epoch = ap (λ o. o.1.row.epoch) e in
    (ground arith, ground arith)

-- A statement either starts the next term, or keeps the term and its instance.
abbrev KeepsTerm : Leaders → Leaders → Type 0
KeepsTerm s s' =
    (s'.row.epoch ≡ s.row.epoch + 1)
    ⊎ ((s'.row.epoch ≡ s.row.epoch) × (s'.row.instance_id ≡ s.row.instance_id))

release_term :
    (i e now stamp : ℕ) (s : Leaders) → KeepsTerm s (release_leadership i e now stamp s).1
unfolding release_leadership
release_term i e now stamp s = elim (Bool-cases (holds_term i e s.row)) [
  | inl h ↦ rw h (inr (refl, refl))
  | inr h ↦ rw h (inr (refl, refl))
]

step_term : (s s' : Leaders) → LeaderStep s s' → KeepsTerm s s'
unfolding renew_leadership record_leadership_event
step_term s s' (acquires i lease metadata now stamp l h) =
    inl ((acquire_epoch i lease metadata now stamp s s' l h).1)
step_term s s' (renews i e ms now deadline h) =
    let (_, q) = if-eq-ok _ _ _ h in
    inr (sym (ap (λ o. o.1.row.epoch) q), sym (ap (λ o. o.1.row.instance_id) q))
step_term s s' (releases i e now stamp released h) = rw h at (release_term i e now stamp s)
step_term s s' (records i e t m stamp h) =
    inr (sym (ap (λ o. o.row.epoch) h), sym (ap (λ o. o.row.instance_id) h))

-- The number of the term never decreases, and as long as it is the same, so is its instance.
reach_term :
    (s s' : Leaders)
    → LeaderReach s s'
    → (s.row.epoch ≤ s'.row.epoch)
      × (s'.row.epoch ≡ s.row.epoch → s'.row.instance_id ≡ s.row.instance_id)
reach_term s s' here = (omega arith, λ e. refl)
reach_term s s' (next {s' = mid} r step) =
    let (grows, same) = reach_term s mid r in
    elim (step_term mid s' step) [
      | inl up ↦ (omega arith, λ e. absurd (omega arith))
      | inr kept ↦ (omega (arith, kept.0), λ e. kept.1 ∙ same (sym kept.0 ∙ e))
    ]

assert-eq-ok :
    (i e now : ℕ) (s : Leaders)
    → assert_leadership i e now s ≡ ok tt
    → (s.row.instance_id ≡ i) × (s.row.epoch ≡ e)
unfolding assert_leadership leads holds_term
assert-eq-ok i e now s h = (ground arith, ground arith)

-- A term has one leader: if at two points of a history two masters pass the check of leadership with
-- the same epoch, they are the same instance.
pub term_unique :
    (s s' : Leaders) (i j epoch now now' : ℕ)
    → LeaderReach s s'
    → assert_leadership i epoch now s ≡ ok tt
    → assert_leadership j epoch now' s' ≡ ok tt
    → i ≡ j
term_unique s s' i j epoch now now' r h h' =
    let a = assert-eq-ok i epoch now s h in
    let b = assert-eq-ok j epoch now' s' h' in
    let same = (reach_term s s' r).1 (b.1 ∙ sym a.1) in sym a.0 ∙ sym same ∙ b.0

past_term : (i e : ℕ) (s : Leaders) → e < s.row.epoch → holds_term i e s.row ≡ false
unfolding holds_term
past_term i e s h = ground arith

-- Once a later term has been acquired, a master of an older term is out for good: whatever happens
-- afterwards, at any time, its checks and renewals fail, and its release changes nothing.
pub takeover_final :
    (s s' s'' : Leaders) (i epoch j : ℕ) (lease : ℤ) (metadata : String) (now stamp : ℕ)
    (l : LeaderLease)
    → epoch ≤ s.row.epoch
    → acquire j lease metadata now stamp s ≡ ok (l, s')
    → LeaderReach s' s''
    → ((t : ℕ) → assert_leadership i epoch t s'' ≡ err not_leader)
      × ((lease_ms t : ℕ) → renew_leadership i epoch lease_ms t s'' ≡ err not_leader)
      × ((t stamp' : ℕ) → release_leadership i epoch t stamp' s'' ≡ (false, s''))
unfolding assert_leadership renew_leadership release_leadership leads
takeover_final s s' s'' i epoch j lease metadata now stamp l h acquired reach =
    let up = (acquire_epoch j lease metadata now stamp s s' l acquired).1 in
    let grows = (reach_term s' s'' reach).0 in
    let past = past_term i epoch s'' (omega arith) in
    (λ t. rw past refl, λ lease_ms t. rw past refl, λ t stamp'. rw past refl)

-- An acquisition at `now` succeeds only where no master leads at `now` or later under the lease that
-- was there. The new master leads, with the next epoch, until the deadline that it was given, and no
-- other master does.
pub acquire_exclusive :
    (i : ℕ) (lease : ℤ) (metadata : String) (now stamp : ℕ) (s s' : Leaders) (l : LeaderLease)
    → acquire i lease metadata now stamp s ≡ ok (l, s')
    → (l.epoch ≡ s.row.epoch + 1)
      × ((j e t : ℕ) → now ≤ t → assert_leadership j e t s ≡ err not_leader)
      × ((t : ℕ) → t < l.lease_deadline_ms → assert_leadership i l.epoch t s' ≡ ok tt)
      × ((j e t : ℕ) → (j ≢ i) ⊎ (e ≢ l.epoch) → assert_leadership j e t s' ≡ err not_leader)
unfolding assert_leadership leads holds_term is_free acquired_row
acquire_exclusive i lease metadata now stamp s s' l h =
    let (free, e) = acquire-eq-ok i lease metadata now stamp s h in
    let el = ap (λ o. o.0) e in
    let es = ap (λ o. o.1) e in
    rw (← el, ← es) (refl, λ j e t q. ground arith, λ t q. ground arith, λ j e t q. ground arith)
