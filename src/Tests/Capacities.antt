-- ===== src/Tests/Capacities.antt =====
-- The theorem on upload capacity (internal/db/upload_capacity.go) at the sample database: the holder of
-- the task takes a slot, and gives it back.
use o_rabbit.Prelude.{pos, ◌≡◌, refl, some, List, [], arith}
use o_rabbit.Table.{find_where, count_where, any_where, update_where}
use o_rabbit.Store.Tx.{Result, ok, err}
use o_rabbit.Uploads.Slots.{Slot, SlotLease, acquire_upload, release_upload}
use o_rabbit.Uploads.Grants.{WithinLimit}
use o_rabbit.Uploads.Capacity.{SlotStep, SlotReach, SlotReach-WithinLimit}
use o_rabbit.Tests.Sample.{sample, credential}

abbrev slots_of : {A : Type 0} → Result (A × List Slot) → List Slot
slots_of (ok o) = o.1
slots_of (err e) = []

abbrev taken : List Slot
taken = slots_of (acquire_upload credential 150 (pos 40) (pos 1) (ok 60) (ok 61) sample [])

abbrev slot_lease : SlotLease
slot_lease = record {
  id = 60;
  task_id = 20;
  attempt_id = 30;
  worker_id = 7;
  token = 61;
  deadline = 190;
}

abbrev given_back : List Slot
given_back = slots_of (release_upload 20 30 7 60 61 160 taken)

taking :
    acquire_upload credential 150 (pos 40) (pos 1) (ok 60) (ok 61) sample []
    ≡ ok (some slot_lease, taken)
unfolding acquire_upload any_where find_where count_where update_where
taking = refl

giving_back : release_upload 20 30 7 60 61 160 taken ≡ ok (tt, given_back)
unfolding acquire_upload release_upload any_where find_where count_where update_where
giving_back = refl

SlotReach-WithinLimit_example : WithinLimit 1 160 given_back
SlotReach-WithinLimit_example =
    SlotReach-WithinLimit (pos 1) 100 [] 160 given_back
      (unfold count_where in record { attempts_key = λ k. omega arith; live = omega arith })
      (SlotReach.next
        (SlotReach.next SlotReach.here (omega arith)
          (SlotStep.acquires credential (pos 40) (ok 60) (ok 61) sample (some slot_lease) taking))
        (omega arith) (SlotStep.releases 20 30 7 60 61 giving_back))
