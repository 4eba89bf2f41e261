-- ===== src/Tests/Masters.antt =====
-- The theorems on leadership (internal/db/leadership.go) at two masters, of which the second_state takes over.
use o_rabbit.Prelude.{
  ℕ, pos, ◌+◌, ◌≤◌, ◌<◌, ◌≡◌, ◌≢◌, ◌⊎◌, refl, Bool, true, false, some, List, [], ◌∷◌, arith, ◌==◌,
  if◌then◌else◌,
}
use o_rabbit.Table.{count_where, any_where}
use o_rabbit.Store.Status.{LeaderStatus}
use o_rabbit.Store.Tx.{Result, ok, err, not_leader, stale_master}
use o_rabbit.Leadership.Row.{
  Leaders, LeaderLease, acquire, holds_term, renew_leadership, release_leadership,
  assert_leadership,
}
use o_rabbit.Leadership.Terms.{
  LeaderReach, LeaderStep, term_unique, takeover_final, acquire_exclusive,
}
use o_rabbit.Leadership.Fence.{fenced_insert, fenced_update, fenced_delete, fence_rejects_stale}
use o_rabbit.Leadership.Controller.{
  Controller, leader, lost, takeover_stops, tick, controller_assert, run_ticks,
  renewals_keep_leadership, controllers_exclusive,
}

-- The row that the migration inserts.
abbrev vacant : Leaders
vacant = record {
  row = record {
    instance_id = 0;
    epoch = 0;
    status = LeaderStatus.released;
    lease_deadline_ms = 0;
    acquired_at_ms = 0;
    renewed_at_ms = 0;
    released_at_ms = 0;
    metadata_json = "{}";
  };
  history = [];
}

abbrev state_of : {A : Type 0} → Result (A × Leaders) → Leaders
state_of (ok o) = o.1
state_of (err e) = vacant

-- Master 1 leads from 1000 to 1015, master 2 takes over at 1020.
abbrev first_state : Leaders
first_state = state_of (acquire 1 (pos 15000000) "{}" 1000 1000 vacant)

abbrev second_state : Leaders
second_state = state_of (acquire 2 (pos 15000000) "{}" 1020 1020 first_state)

abbrev second_lease : LeaderLease
second_lease = record { instance_id = 2; epoch = 2; lease_deadline_ms = 1035 }

taking_over : acquire 2 (pos 15000000) "{}" 1020 1020 first_state ≡ ok (second_lease, second_state)
unfolding acquire any_where
taking_over = refl

abbrev renewed_master : ℕ
renewed_master = 2

abbrev renewed_state : Leaders
renewed_state = state_of (renew_leadership 2 2 15 1030 second_state)

renewal : renew_leadership 2 2 15 1030 second_state ≡ ok (1045, renewed_state)
unfolding acquire renew_leadership any_where
renewal = refl

renewing : LeaderReach second_state renewed_state
renewing = LeaderReach.next LeaderReach.here (LeaderStep.renews 2 2 15 1030 1045 renewal)

term_unique_example : renewed_master ≡ renewed_master
term_unique_example =
    term_unique second_state renewed_state renewed_master renewed_master 2 1025 1040 renewing
      (unfold acquire assert_leadership any_where in refl)
      (unfold acquire renew_leadership assert_leadership any_where in refl)

takeover_final_example :
    ((t : ℕ) → assert_leadership 1 1 t second_state ≡ err not_leader)
    × ((lease_ms t : ℕ) → renew_leadership 1 1 lease_ms t second_state ≡ err not_leader)
    × ((t stamp' : ℕ) → release_leadership 1 1 t stamp' second_state ≡ (false, second_state))
unfolding acquire
takeover_final_example =
    takeover_final first_state second_state second_state 1 1 2 (pos 15000000) "{}" 1020 1020
      second_lease (omega arith) taking_over LeaderReach.here

acquire_exclusive_example :
    (2 ≡ first_state.row.epoch + 1)
    × ((j e t : ℕ) → 1020 ≤ t → assert_leadership j e t first_state ≡ err not_leader)
    × ((t : ℕ) → t < 1035 → assert_leadership 2 2 t second_state ≡ ok tt)
    × ((j e t : ℕ) → (j ≢ 2) ⊎ (e ≢ 2) → assert_leadership j e t second_state ≡ err not_leader)
acquire_exclusive_example =
    acquire_exclusive 2 (pos 15000000) "{}" 1020 1020 first_state second_state second_lease
      taking_over

abbrev is_three : ℕ → Bool
is_three x = x == 3

abbrev next_number : ℕ → ℕ
next_number x = x + 1

abbrev fives : ℕ
fives = 5

fence_rejects_stale_example :
    (fenced_insert
        (some (record { instance_id = 1; epoch = 1 }))
        "tasks"
        1021
        second_state.row
        fives
        (3 ∷ [])
      ≡ err stale_master)
    × (fenced_update
          (some (record { instance_id = 1; epoch = 1 }))
          "tasks"
          1021
          second_state.row
          is_three
          next_number
          (3 ∷ [])
        ≡ (if count_where is_three (3 ∷ []) == 0 then ok (3 ∷ []) else err stale_master))
    × (fenced_delete
          (some (record { instance_id = 1; epoch = 1 }))
          "tasks"
          1021
          second_state.row
          is_three
          (3 ∷ [])
        ≡ (if count_where is_three (3 ∷ []) == 0 then ok (3 ∷ []) else err stale_master))
unfolding acquire
fence_rejects_stale_example =
    fence_rejects_stale first_state second_state second_state 1 1 2 (pos 15000000) "{}" 1020 1020
      second_lease (omega arith) taking_over LeaderReach.here "tasks" refl 1021 fives is_three
      next_number (3 ∷ [])

abbrev controller : Controller
controller = record {
  instance_id = 2;
  epoch = 2;
  lease_ms = 15;
  state = leader;
  ready = true;
  lease_deadline_ms = 1035;
  last_renewal_ms = 0;
  running = true;
}

abbrev kept : Controller × Leaders
kept = run_ticks (1030 ∷ 1040 ∷ []) controller second_state

renewals_keep_leadership_example :
    (kept.0.running ≡ true)
    × (kept.0.state ≡ leader)
    × (kept.0.ready ≡ true)
    × (holds_term 2 2 kept.1.row ≡ true)
    × (kept.0.lease_deadline_ms ≡ kept.1.row.lease_deadline_ms)
unfolding acquire any_where
renewals_keep_leadership_example =
    renewals_keep_leadership (1030 ∷ 1040 ∷ []) controller second_state refl
      (unfold holds_term in refl) refl (omega arith, (omega arith, tt))

-- The first master still runs when the second one has taken over.
abbrev old_controller : Controller
old_controller = record controller { instance_id = 1; epoch = 1; lease_deadline_ms = 1015 }

abbrev stopped : Controller × Leaders
stopped = tick 1021 1021 1020 old_controller second_state

takeover_stops_example :
    (stopped.0.state ≡ lost)
    × (stopped.0.ready ≡ false)
    × (stopped.1.row ≡ second_state.row)
    × ((times : List ℕ) (x : Leaders) → run_ticks times stopped.0 x ≡ (stopped.0, x))
    × ((t : ℕ) (x : Leaders) → controller_assert t stopped.0 x ≡ err not_leader)
takeover_stops_example =
    takeover_stops first_state second_state second_state old_controller 2 (pos 15000000) "{}" 1020
      1020 1021 1021 second_lease (unfold acquire in omega arith) refl taking_over LeaderReach.here

controllers_exclusive_example : controller.instance_id ≡ controller.instance_id
controllers_exclusive_example =
    controllers_exclusive second_state renewed_state controller controller 1025 1040 renewing
      (unfold acquire controller_assert assert_leadership any_where in refl)
      (unfold acquire renew_leadership controller_assert assert_leadership any_where in refl) refl
