-- ===== src/Leadership/Controller.antt =====
-- LeadershipController (internal/db/leadership.go): the master's view of its leadership, kept by a
-- goroutine that renews the lease at every tick.
use o_rabbit.Prelude.{
  ℕ, ℤ, ◌+◌, ◌<◌, ◌≤◌, ◌≡◌, refl, ◌∙◌, ap, is_positive, Bool, true, false, ◌&&◌, String, List, [],
  ◌∷◌, arith, ltb, if◌then◌else◌, Bool-cases, inl, inr,
}
use o_rabbit.Store.Tx.{Result, ok, err, guard, invalid_argument, not_leader, ◌>>◌}
use o_rabbit.Leadership.Terms.{LeaderReach, term_unique, takeover_final}
use o_rabbit.Leadership.Row.{
  Leaders, LeaderLease, acquire, milliseconds, holds_term, leads, renew_leadership,
  release_leadership, assert_leadership, record_leadership_event,
}

pub data LeadershipState : Type 0 where
  starting leader lost shutting_down : LeadershipState

abbrev pub is_leader : LeadershipState → Bool
is_leader LeadershipState.leader = true
is_leader _ = false

-- The controller with its status; `running` tells whether its goroutine still ticks.
pub record Controller : Type 0 where
  pub instance_id : ℕ
  pub epoch : ℕ
  pub lease_ms : ℕ
  pub state : LeadershipState
  pub ready : Bool
  pub lease_deadline_ms : ℕ
  pub last_renewal_ms : ℕ
  pub running : Bool

-- NewLeadershipController; `longer` is duration > interval.
unfoldable pub new_controller :
    LeaderLease → (duration interval : ℤ) → (longer : Bool) → Result Controller
new_controller l duration interval longer =
    guard (is_positive interval && longer) invalid_argument
    >> ok (record {
      instance_id = l.instance_id;
      epoch = l.epoch;
      lease_ms = milliseconds duration;
      state = starting;
      ready = false;
      lease_deadline_ms = l.lease_deadline_ms;
      last_renewal_ms = 0;
      running = false;
    })

-- Start
unfoldable pub start : Controller → Controller
start c = record c { running = true }

unfoldable pub set_ready : Bool → Controller → Controller
set_ready true c = record c { ready = true; state = leader }
set_ready false c = record c { ready = false }

unfoldable pub controller_assert : (now : ℕ) → Controller → Leaders → Result (Unit {0})
controller_assert now c s =
    if c.ready && is_leader c.state
    then assert_leadership c.instance_id c.epoch now s
    else err not_leader

abbrev pub renewed_status : (deadline wall : ℕ) → Controller → Controller
renewed_status deadline wall c = record c { lease_deadline_ms = deadline; last_renewal_ms = wall }

abbrev pub lost_status : Controller → Controller
lost_status c = record c { state = lost; ready = false; running = false }

-- What the goroutine does where a renewal fails.
abbrev pub renewal_failed : (stamp : ℕ) → Controller → Leaders → Controller × Leaders
renewal_failed stamp c s = (
  lost_status c,
  record_leadership_event c.instance_id c.epoch "MASTER_LEADERSHIP_LOST"
      "{\"reason\":\"renewal_failed\"}" stamp s,
)

-- What the goroutine makes of the result of a renewal.
abbrev pub after_renewal :
    Result (ℕ × Leaders) → (wall stamp : ℕ) → Controller → Leaders → Controller × Leaders
after_renewal (ok (deadline, s')) wall stamp c s = (renewed_status deadline wall c, s')
after_renewal (err e) wall stamp c s = renewal_failed stamp c s

-- One tick of the goroutine, at database time `now`.
unfoldable pub tick : (now wall stamp : ℕ) → Controller → Leaders → Controller × Leaders
unfolding renew_leadership
tick now wall stamp c s =
    if c.running
    then after_renewal (renew_leadership c.instance_id c.epoch c.lease_ms now s) wall stamp c s
    else (c, s)

-- Stop: a renewal that is in flight is `interrupted` where the canceled context makes it fail, and the
-- goroutine ends before the release.
unfoldable pub stop :
    (interrupted : Bool) → (now stamp : ℕ) → Controller → Leaders → Controller × Leaders
unfolding set_ready
stop interrupted now stamp c s =
    let halting = record (set_ready false c) { state = shutting_down } in
    let ended =
      if c.running && interrupted
      then renewal_failed stamp halting s
      else (record halting { running = false }, s) in
    (ended.0, (release_leadership c.instance_id c.epoch now stamp ended.1).1)

-- A term that holds is renewed.
renew_leadership_holds :
    (i e lease_ms now : ℕ) (s : Leaders)
    → holds_term i e s.row ≡ true
    → now < s.row.lease_deadline_ms
    → renew_leadership i e lease_ms now s
      ≡ ok (
        now + lease_ms,
        record s { row = record s.row { lease_deadline_ms = now + lease_ms; renewed_at_ms = now } },
      )
unfolding renew_leadership leads
renew_leadership_holds i e lease_ms now s h early =
    let q : ltb now s.row.lease_deadline_ms ≡ true = ground arith in rw (h, q) refl

-- The ticks of the goroutine, each with the time of the database.
unfoldable pub run_ticks : List ℕ → Controller → Leaders → Controller × Leaders
unfolding tick
run_ticks [] c s = (c, s)
run_ticks (now ∷ rest) c s = let o = tick now now now c s in run_ticks rest o.0 o.1

-- Each tick comes before the deadline that the one before it set.
abbrev pub InTime : (lease_ms deadline : ℕ) → List ℕ → Type 0
InTime lease_ms deadline [] = Unit
InTime lease_ms deadline (now ∷ rest) = (now < deadline) × InTime lease_ms (now + lease_ms) rest

run_ticks_next :
    (now : ℕ) (rest : List ℕ) (c : Controller) (s : Leaders) {o : Controller × Leaders}
    → tick now now now c s ≡ o
    → run_ticks (now ∷ rest) c s ≡ run_ticks rest o.0 o.1
unfolding run_ticks
run_ticks_next now rest c s h = ap (λ o. run_ticks rest o.0 o.1) h

-- A started controller whose ticks are in time never loses its leadership: it still runs, with the
-- state and readiness that it had, and still holds its term, until the deadline that its status shows.
pub renewals_keep_leadership :
    (times : List ℕ) (c : Controller) (s : Leaders)
    → c.running ≡ true
    → holds_term c.instance_id c.epoch s.row ≡ true
    → c.lease_deadline_ms ≡ s.row.lease_deadline_ms
    → InTime c.lease_ms s.row.lease_deadline_ms times
    → ((run_ticks times c s).0.running ≡ true)
      × ((run_ticks times c s).0.state ≡ c.state)
      × ((run_ticks times c s).0.ready ≡ c.ready)
      × (holds_term c.instance_id c.epoch (run_ticks times c s).1.row ≡ true)
      × ((run_ticks times c s).0.lease_deadline_ms ≡ (run_ticks times c s).1.row.lease_deadline_ms)
renewals_keep_leadership [] c s running h same early =
    unfold run_ticks in (running, refl, refl, h, same)
renewals_keep_leadership (now ∷ rest) c s running h same early =
    let q = renew_leadership_holds c.instance_id c.epoch c.lease_ms now s h early.0 in
    let step : tick now now now c s ≡ (
      renewed_status (now + c.lease_ms) now c,
      record s { row = record s.row { lease_deadline_ms = now + c.lease_ms; renewed_at_ms = now } },
    ) =
      unfold tick in rw (running, q) refl in
    rw (run_ticks_next now rest c s step) (
      renewals_keep_leadership rest (renewed_status (now + c.lease_ms) now c)
        (record s {
          row = record s.row { lease_deadline_ms = now + c.lease_ms; renewed_at_ms = now };
        })
        running (unfold holds_term in h) refl early.1)

-- A controller that does not run and is not ready writes nothing any more, and refuses.
run_ticks_idle :
    (times : List ℕ) (c : Controller) (s : Leaders)
    → c.running ≡ false
    → run_ticks times c s ≡ (c, s)
unfolding run_ticks
run_ticks_idle [] c s idle = refl
run_ticks_idle (now ∷ rest) c s idle =
    let q : tick now now now c s ≡ (c, s) = unfold tick in rw idle refl in
    run_ticks_next now rest c s q ∙ run_ticks_idle rest c s idle

tick_failed :
    (now wall stamp : ℕ) (c : Controller) (s : Leaders)
    → c.running ≡ true
    → renew_leadership c.instance_id c.epoch c.lease_ms now s ≡ err not_leader
    → tick now wall stamp c s ≡ renewal_failed stamp c s
unfolding tick
tick_failed now wall stamp c s running refused = rw (running, refused) refl

renewal_failed-row :
    (stamp : ℕ) (c : Controller) (s : Leaders) → (renewal_failed stamp c s).1.row ≡ s.row
unfolding record_leadership_event
renewal_failed-row stamp c s = refl

-- Once another master has acquired a later term, the next tick of a running controller of the older
-- term leaves it LOST and not ready, and the row of the new leader as it is. From then on its ticks
-- write nothing and its check refuses, at any time and in any state, unless it is set ready again.
pub takeover_stops :
    (s s' s'' : Leaders) (c : Controller) (j : ℕ) (lease : ℤ) (metadata : String)
    (now stamp at wall : ℕ) (l : LeaderLease)
    → c.epoch ≤ s.row.epoch
    → c.running ≡ true
    → acquire j lease metadata now stamp s ≡ ok (l, s')
    → LeaderReach s' s''
    → let o = tick at wall stamp c s'' in
      (o.0.state ≡ lost)
      × (o.0.ready ≡ false)
      × (o.1.row ≡ s''.row)
      × ((times : List ℕ) (x : Leaders) → run_ticks times o.0 x ≡ (o.0, x))
      × ((t : ℕ) (x : Leaders) → controller_assert t o.0 x ≡ err not_leader)
takeover_stops s s' s'' c j lease metadata now stamp at wall l h running acquired reach =
    let refused =
      (takeover_final s s' s'' c.instance_id c.epoch j lease metadata now stamp l h acquired
          reach).1
        c.lease_ms at in
    rw (tick_failed at wall stamp c s'' running refused) (
      refl,
      refl,
      renewal_failed-row stamp c s'',
      λ times x. run_ticks_idle times (lost_status c) x refl,
      λ t x. unfold controller_assert in refl,
    )

controller_assert-eq-ok :
    (now : ℕ) (c : Controller) (s : Leaders)
    → controller_assert now c s ≡ ok tt
    → assert_leadership c.instance_id c.epoch now s ≡ ok tt
unfolding controller_assert
controller_assert-eq-ok now c s h = elim (Bool-cases (c.ready && is_leader c.state)) [
  | inl e ↦ rw e at h
  | inr e ↦ cc (rw e at h)
]

-- If two controllers pass their check of leadership, in states of one history, then they have the same
-- instance or different terms, whatever their own status says.
pub controllers_exclusive :
    (s s' : Leaders) (c c' : Controller) (now now' : ℕ)
    → LeaderReach s s'
    → controller_assert now c s ≡ ok tt
    → controller_assert now' c' s' ≡ ok tt
    → c.epoch ≡ c'.epoch
    → c.instance_id ≡ c'.instance_id
controllers_exclusive s s' c c' now now' r h h' e =
    term_unique s s' c.instance_id c'.instance_id c'.epoch now now' r
      (rw e at (controller_assert-eq-ok now c s h)) (controller_assert-eq-ok now' c' s' h')
