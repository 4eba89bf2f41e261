-- ===== src/Lease/WellFormed.antt =====
-- The invariant of the task and attempt tables under the lease operations
-- (internal/db/attempts.go), and a rule for the operations that update rows in place.
use o_rabbit.Prelude.{Bool, false, ap, ◌≤◌, ◌≡◌, ◌⊎◌, none, some, List, [], ◌∷◌, refl, Memᴰ}
use o_rabbit.Table.{update_where}
use o_rabbit.Table.Keyed.{after, Keyed, Each, Pairs, Each-update_where, Pairs-update_where}
use o_rabbit.Table.Key.{PrimaryKey, PrimaryKey-Keyed, PrimaryKey-update_where}
use o_rabbit.Store.{Task, Attempt, Db}
use o_rabbit.Store.Status.{TaskStatus, AttemptStatus}

-- An ACTIVE attempt is the current attempt of its task, which is RUNNING; and attempt numbers do not
-- exceed the task's count.
pub record Fits (a : Attempt) (t : Task) : Type 0 where
  pub current :
      a.task_id ≡ t.id
      → a.status ≡ AttemptStatus.active
      → (t.status ≡ TaskStatus.running) × (t.current_attempt_id ≡ some a.id)
  pub numbered : a.task_id ≡ t.id → a.attempt_number ≤ t.attempt_count

-- Only a RUNNING task has a current attempt.
abbrev pub IsHeld : Task → Type 0
IsHeld t = (t.current_attempt_id ≡ none) ⊎ (t.status ≡ TaskStatus.running)

pub record WellFormed (db : Db) : Type 0 where
  pub tasks_key : PrimaryKey (λ (t : Task). t.id) db.tasks
  pub attempts_key : PrimaryKey (λ (a : Attempt). a.id) db.attempts
  pub held : Each IsHeld db.tasks
  pub fits : Pairs Fits db.attempts db.tasks

module _ {db : Db} (w : WellFormed db) where
  pub tasks-Keyed : Keyed (λ (t : Task). t.id) db.tasks
  tasks-Keyed = PrimaryKey-Keyed _ db.tasks w.tasks_key

  pub attempts-Keyed : Keyed (λ (a : Attempt). a.id) db.attempts
  attempts-Keyed = PrimaryKey-Keyed _ db.attempts w.attempts_key

-- UPDATEs of the two tables that keep ids, and keep the invariant row by row.
pub record RowWise (db : Db) (p : Attempt → Bool) (f : Attempt → Attempt) (q : Task → Bool)
    (g : Task → Task) : Type 0 where
  pub attempt_id : (a : Attempt) → (f a).id ≡ a.id
  pub task_id : (t : Task) → (g t).id ≡ t.id
  pub holds : (t : Task) → IsHeld t → IsHeld (after q g t)
  pub fit :
      (a : Attempt) (t : Task)
      → Memᴰ a db.attempts
      → Memᴰ t db.tasks
      → Fits a t
      → Fits (after p f a) (after q g t)

module _ (p : Attempt → Bool) (f : Attempt → Attempt) (q : Task → Bool) (g : Task → Task) where
  pub WellFormed-updates :
      (db db' : Db)
      → RowWise db p f q g
      → WellFormed db
      → db'.attempts ≡ update_where p f db.attempts
      → db'.tasks ≡ update_where q g db.tasks
      → WellFormed db'
  WellFormed-updates db db' r w ea et = record {
    tasks_key = rw et (PrimaryKey-update_where _ q g db.tasks r.task_id w.tasks_key);
    attempts_key = rw ea (PrimaryKey-update_where _ p f db.attempts r.attempt_id w.attempts_key);
    held = rw et (Each-update_where IsHeld q g db.tasks (λ t m h. r.holds t h) w.held);
    fits = rw (ea, et) (Pairs-update_where Fits p f db.attempts q g db.tasks r.fit w.fits);
  }

abbrev pub no_row {ℓ} : {A : Type ℓ} → A → Bool
no_row _ = false

-- Where only the tasks, or only the attempts, are updated.
pub update_where-no_row {ℓ} : {A : Type ℓ} (f : A → A) (xs : List A) → xs ≡ update_where no_row f xs
unfolding update_where
update_where-no_row f [] = refl
update_where-no_row f (x ∷ xs) = ap (λ r. x ∷ r) (update_where-no_row f xs)
