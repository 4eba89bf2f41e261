-- ===== src/Runs/Capacity.antt =====
-- The cap on active runs (internal/db/run_admission.go): admission never goes beyond it.
use o_rabbit.Prelude.{
  ℕ, ◌+◌, ◌-◌, ◌≤◌, ℤ, max, pos_part, is_positive, ◌≡◌, refl, Bool, true, false, ◌&&◌, List, [],
  ◌∷◌, arith, length, leb, ◌==◌, if_both, not, if◌then◌else◌,
}
use o_rabbit.Table.{count_where, select_where, update_where}
use o_rabbit.Table.Key.{PrimaryKey, PrimaryKey-update_where, count_where_mono}
use o_rabbit.Store.{Run, Db}
use o_rabbit.Store.Tx.{ok, Returns-ok, Returns-if, Returns-guard}
use o_rabbit.Store.Events.{Sha}
use o_rabbit.Runs.Admit.{
  planned, admitted, active_runs, admit_run, admit_id, admit_ids, admit_pending_runs,
  capacity_waits, take_ids, sort_runs, is_waiting,
}

-- An UPDATE that makes the rows it selects meet a condition that none of them met.
count_where-gained {ℓ} :
    {A : Type ℓ} (q p : A → Bool) (f : A → A) (xs : List A)
    → ((a : A) → p a ≡ true → q a ≡ false)
    → ((a : A) → p a ≡ true → q (f a) ≡ true)
    → count_where q (update_where p f xs) ≡ count_where q xs + count_where p xs
unfolding count_where update_where
count_where-gained q p f [] lose gain = refl
count_where-gained q p f (x ∷ xs) lose gain =
    ground (arith, lose x, gain x, count_where-gained q p f xs lose gain)

-- Admitting the runs with an id adds them to the active ones.
active_runs-admitted :
    (id : ℕ) (runs : List Run)
    → active_runs (update_where (planned id) admitted runs)
      ≡ active_runs runs + count_where (planned id) runs
unfolding active_runs
active_runs-admitted id runs =
    count_where-gained _ (planned id) admitted runs (λ r h. ground arith) (λ r h. refl)

planned-le-one :
    (id : ℕ) (runs : List Run)
    → PrimaryKey (λ (r : Run). r.id) runs
    → count_where (planned id) runs ≤ 1
planned-le-one id runs key = omega (
  arith,
  count_where_mono (planned id) (λ (r : Run). r.id == id) runs (λ r h. ground arith),
  key id,
)

length-take_ids : (limit : ℕ) (runs : List Run) → length (take_ids limit runs) ≤ limit
length-take_ids limit [] = omega arith
length-take_ids limit (r ∷ rs) = ground (arith, length-take_ids (limit - 1) rs)

-- The loop over the ids counts what it admits, at most one run for each.
admit_ids-counts :
    (name : Sha) (now : ℕ) (ids : List ℕ) (n : ℕ) (db : Db)
    → PrimaryKey (λ (r : Run). r.id) db.runs
    → let out = admit_ids name now ids (n, db) in
      (active_runs out.1.runs + n ≡ active_runs db.runs + out.0) × (out.0 ≤ n + length ids)
unfolding admit_ids
admit_ids-counts name now [] n db key = (refl, omega arith)
admit_ids-counts name now (id ∷ ids) n db key =
    let (e, b) =
      admit_ids-counts name now ids (n + count_where (planned id) db.runs) (admit_id name now id db)
        (PrimaryKey-update_where _ (planned id) admitted db.runs (λ r. refl) key) in
    (
      omega (arith, e, active_runs-admitted id db.runs),
      omega (arith, b, planned-le-one id db.runs key),
    )

-- Whatever the read pool showed, AdmitPendingRuns reports exactly how many runs became active, and
-- the active runs stay within the cap, or as many as they were where they were beyond it.
pub admit_pending_runs-within :
    (name : Sha) (max_active : ℤ) (now : ℕ) (seen db : Db)
    → PrimaryKey (λ (r : Run). r.id) db.runs
    → let out = admit_pending_runs name max_active now seen db in
      (active_runs out.1.runs ≡ active_runs db.runs + out.0)
      × (active_runs out.1.runs ≤ max (active_runs db.runs) (pos_part max_active))
unfolding admit_pending_runs
admit_pending_runs-within name max_active now seen db key =
    if_both Within (is_positive max_active && capacity_waits max_active seen) _ _
      (λ _.
        if_both Within (pos_part max_active - active_runs db.runs == 0) _ _ (λ _. idle)
          (λ free.
            let ids =
              take_ids (pos_part max_active - active_runs db.runs)
                (sort_runs (select_where (is_waiting db) db.runs)) in
            let (e, b) = admit_ids-counts name now ids 0 db key in
            let short =
              length-take_ids (pos_part max_active - active_runs db.runs)
                (sort_runs (select_where (is_waiting db) db.runs)) in
            (omega (arith, e), omega (arith, e, b, short, ne_zero _ free))))
      (λ _. idle)
  where
    Within : ℕ × Db → Type 0
    Within out =
        (active_runs out.1.runs ≡ active_runs db.runs + out.0)
        × (active_runs out.1.runs ≤ max (active_runs db.runs) (pos_part max_active))

    idle : Within (0, db)
    idle = (omega arith, omega arith)

    ne_zero : (k : ℕ) → (k == 0) ≡ false → 1 ≤ k
    ne_zero k h = ground arith

-- With a cap, admitRunTx admits a run only below it: it reports whether it did, the active runs grow
-- by that one, and they stay within the cap, or as many as they were where they were beyond it.
pub admit_run-within :
    (max_active : ℤ) (run_id : ℕ) (db db' : Db) (b : Bool)
    → PrimaryKey (λ (r : Run). r.id) db.runs
    → is_positive max_active ≡ true
    → admit_run max_active run_id db ≡ ok (b, db')
    → (active_runs db'.runs ≡ active_runs db.runs + (if b then 1 else 0))
      × (active_runs db'.runs ≤ max (active_runs db.runs) (pos_part max_active))
unfolding admit_run
admit_run-within max_active run_id db db' b key capped h =
    let e = active_runs-admitted run_id db.runs in
    let one = planned-le-one run_id db.runs key in
    Returns-ok Within (admit_run max_active run_id db)
      (Returns-guard Within (not (run_id == 0)) _ _ λ _.
        Returns-if Within
          (is_positive max_active && leb (pos_part max_active) (active_runs db.runs)) _ _
          (λ _. (omega arith, omega arith))
          (λ free. (ground (arith, e, one), ground (arith, e, one, capped))))
      h
  where
    Within : Bool × Db → Type 0
    Within out =
        (active_runs out.1.runs ≡ active_runs db.runs + (if out.0 then 1 else 0))
        × (active_runs out.1.runs ≤ max (active_runs db.runs) (pos_part max_active))
