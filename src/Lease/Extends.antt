-- ===== src/Lease/Extends.antt =====
-- What every lease operation (internal/db/attempts.go) leaves alone: the row of an attempt that is no
-- longer ACTIVE, and the row of a task that has ended.
use o_rabbit.Prelude.{ℕ, ◌≡◌, refl, ◌∙◌, ◌==◌, Bool, true, false, ◌||◌, Memᴰ, arith, List, [], ◌∷◌}
use o_rabbit.Table.{update_where, any_where}
use o_rabbit.Table.Laws.{update_where-mem}
use o_rabbit.Store.{Run, Task, Attempt, Db}
use o_rabbit.Store.Status.{attempt_is_active, task_is_pending, task_is_running}
use o_rabbit.Lease.Expire.{running_run, exhausted_run}
use o_rabbit.Lease.WellFormed.{WellFormed, IsHeld}

abbrev pub IsFinished : Attempt → Type 0
IsFinished a = attempt_is_active a.status ≡ false

-- SUCCEEDED, FAILED, CANCELED or QUARANTINED
abbrev pub IsEnded : Task → Type 0
IsEnded t = (task_is_pending t.status || task_is_running t.status) ≡ false

abbrev pub has_run : ℕ → Db → Bool
has_run id db = any_where (λ (r : Run). r.id == id) db.runs

pub record Extends (db db' : Db) : Type 0 where
  pub finished : (a : Attempt) → Memᴰ a db.attempts → IsFinished a → Memᴰ a db'.attempts
  pub ended : (t : Task) → Memᴰ t db.tasks → IsEnded t → Memᴰ t db'.tasks
  pub runs : (id : ℕ) → has_run id db' ≡ has_run id db

pub Extends-refl : (db : Db) → Extends db db
Extends-refl db = record { finished = λ a m f. m; ended = λ t m e. m; runs = λ id. refl }

pub Extends-trans : {a b c : Db} → Extends a b → Extends b c → Extends a c
Extends-trans p q = record {
  finished = λ a m f. q.finished a (p.finished a m f) f;
  ended = λ t m e. q.ended t (p.ended t m e) e;
  runs = λ id. q.runs id ∙ p.runs id;
}

-- A row that an UPDATE does not select stays as it is.
pub unselected-mem {ℓ} :
    {A : Type ℓ} (p : A → Bool) (f : A → A) (xs : List A) {a : A}
    → Memᴰ a xs
    → p a ≡ false
    → Memᴰ a (update_where p f xs)
unselected-mem p f xs m e = rw e at (update_where-mem p f xs m)

-- A row that an UPDATE selects is changed.
pub selected-mem {ℓ} :
    {A : Type ℓ} (p : A → Bool) (f : A → A) (xs : List A) {a : A}
    → Memᴰ a xs
    → p a ≡ true
    → Memᴰ (f a) (update_where p f xs)
selected-mem p f xs m e = rw e at (update_where-mem p f xs m)

-- An UPDATE that keeps ids keeps which ids there are.
any_id-update_where :
    (p : Run → Bool) (f : Run → Run) (rs : List Run) (id : ℕ)
    → ((r : Run) → (f r).id ≡ r.id)
    → any_where (λ (r : Run). r.id == id) (update_where p f rs)
      ≡ any_where (λ (r : Run). r.id == id) rs
unfolding any_where update_where
any_id-update_where p f [] id same = refl
any_id-update_where p f (r ∷ rs) id same =
    ground (arith, same r, any_id-update_where p f rs id same)

-- A run that fails when its task is out of retries keeps its id.
pub has_run-exhausted :
    (run_id now : ℕ) (rs : List Run) (id : ℕ)
    → any_where (λ (r : Run). r.id == id) (update_where (running_run run_id) (exhausted_run now) rs)
      ≡ any_where (λ (r : Run). r.id == id) rs
has_run-exhausted run_id now rs id = any_id-update_where _ _ rs id (λ r. refl)

-- UPDATEs that select only ACTIVE attempts, and of the tasks only those that have not ended.
pub record Selects (p : Attempt → Bool) (q : Task → Bool) : Type 0 where
  pub only_active : (a : Attempt) → IsFinished a → p a ≡ false
  pub only_open : (t : Task) → IsHeld t → IsEnded t → q t ≡ false

module _ (p : Attempt → Bool) (f : Attempt → Attempt) (q : Task → Bool) (g : Task → Task) where
  pub Extends-updates :
      (db db' : Db)
      → Selects p q
      → WellFormed db
      → db'.attempts ≡ update_where p f db.attempts
      → db'.tasks ≡ update_where q g db.tasks
      → ((id : ℕ) → has_run id db' ≡ has_run id db)
      → Extends db db'
  Extends-updates db db' s w ea et er = record {
    runs = er;
    finished = λ a m h. rw ea (unselected-mem p f db.attempts m (s.only_active a h));
    ended = λ t m h. rw et (unselected-mem q g db.tasks m (s.only_open t (w.held t m) h));
  }
