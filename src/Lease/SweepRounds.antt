-- ===== src/Lease/SweepRounds.antt =====
-- The rounds of the sweep of lapsed leases (internal/db/attempts.go, ExpireTaskAttempts), for an attempt
-- that is due.
use o_rabbit.Prelude.{
  ℕ, ◌≡◌, ◌≢◌, refl, none, some, List, [], ◌∷◌, Memᴰ, arith, ◌==◌, leb, if◌then◌else◌, Bool-cases,
  inl, inr,
}
use o_rabbit.Table.{count_where}
use o_rabbit.Table.Key.{count_where-key}
use o_rabbit.Store.{Task, Attempt, Db}
use o_rabbit.Store.Status.{AttemptStatus}
use o_rabbit.Store.Events.{Sha}
use o_rabbit.Lease.Policy.{NormalPolicy, retry_backoff, add_duration}
use o_rabbit.Lease.Expire.{
  Item, active_attempt, expired_attempt, quarantined_task, retried_task, expire_item, expire_items,
}
use o_rabbit.Lease.WellFormed.{WellFormed}
use o_rabbit.Lease.Preserve.{expire_item-WellFormed}
use o_rabbit.Lease.Extends.{selected-mem, unselected-mem}
use o_rabbit.Lease.ExtendsSteps.{expire_items-Extends}

-- What the sweep makes of the task of a lapsed attempt.
abbrev pub swept_task : NormalPolicy → (now : ℕ) → Attempt → Task → Task
swept_task p now a t =
    if leb p.max_attempts a.attempt_number
    then quarantined_task "retry limit exhausted" now t
    else retried_task "lease expired" (add_duration now (retry_backoff p a.attempt_number)) t

-- The rows that the sweep leaves of a lapsed attempt and its task.
pub record Swept (p : NormalPolicy) (now : ℕ) (a : Attempt) (t : Task) (db : Db) : Type 0 where
  pub attempt : Memᴰ (expired_attempt now a) db.attempts
  pub task : Memᴰ (swept_task p now a t) db.tasks

-- An ACTIVE attempt and its task, before the sweep comes to them.
pub record Due (a : Attempt) (t : Task) (db : Db) : Type 0 where
  pub due_attempt : Memᴰ a db.attempts
  pub due_task : Memᴰ t db.tasks
  pub active : a.status ≡ AttemptStatus.active
  pub of_task : t.id ≡ a.task_id
  pub current : t.current_attempt_id ≡ some a.id

Due-keep :
    {a : Attempt} {t : Task} {db db' : Db}
    → Due a t db
    → Memᴰ a db'.attempts
    → Memᴰ t db'.tasks
    → Due a t db'
Due-keep d ma mt = record {
  due_attempt = ma;
  due_task = mt;
  active = d.active;
  of_task = d.of_task;
  current = d.current;
}

module _ (sha : Sha) (p : NormalPolicy) (now : ℕ) where
  -- A task without a current attempt is left alone by the rest of the sweep.
  expire_item-idle :
      (x : Item) (db : Db) (t : Task)
      → t.current_attempt_id ≡ none
      → Memᴰ t db.tasks
      → Memᴰ t (expire_item sha p now x db).tasks
  unfolding expire_item
  expire_item-idle x db t e m =
      elim (Bool-cases (count_where (active_attempt x.attempt.id) db.attempts == 1)) [
        | inr n ↦ rw n m
        | inl o ↦ rw o (elim (Bool-cases (leb p.max_attempts x.attempt.attempt_number)) [
          | inl l ↦ rw l (unselected-mem _ _ db.tasks m (ground arith))
          | inr l ↦ rw l (unselected-mem _ _ db.tasks m (ground arith))
        ])
      ]

  expire_items-idle :
      (items : List Item) (n : ℕ) (db : Db) (t : Task)
      → t.current_attempt_id ≡ none
      → Memᴰ t db.tasks
      → Memᴰ t (expire_items sha p now items n db).1.tasks
  unfolding expire_items
  expire_items-idle [] n db t e m = m
  expire_items-idle (x ∷ rest) n db t e m =
      expire_items-idle rest _ _ t e (expire_item-idle x db t e m)

  -- The round of another attempt.
  expire_item-other :
      (x : Item) (db : Db) (a : Attempt) (t : Task)
      → x.attempt.id ≢ a.id
      → Due a t db
      → Due a t (expire_item sha p now x db)
  unfolding expire_item
  expire_item-other x db a t n d =
      let ma =
        unselected-mem (active_attempt x.attempt.id) (expired_attempt now) db.attempts d.due_attempt
          (ground arith) in
      elim (Bool-cases (count_where (active_attempt x.attempt.id) db.attempts == 1)) [
        | inr c ↦ rw c (Due-keep d ma d.due_task)
        | inl o ↦ rw o (elim (Bool-cases (leb p.max_attempts x.attempt.attempt_number)) [
          | inl l ↦ rw l (Due-keep d ma (unselected-mem _ _ db.tasks d.due_task (ground arith)))
          | inr l ↦ rw l (Due-keep d ma (unselected-mem _ _ db.tasks d.due_task (ground arith)))
        ])
      ]

  -- The round of the attempt itself.
  expire_item-own :
      (x : Item) (db : Db) (t : Task)
      → WellFormed db
      → Due x.attempt t db
      → Swept p now x.attempt t (expire_item sha p now x db)
  unfolding expire_item
  expire_item-own x db t w d =
      let one : count_where (active_attempt x.attempt.id) db.attempts ≡ 1 =
        count_where-key (λ b. b.id) _ db.attempts x.attempt w.attempts_key (λ b h. ground arith)
          d.due_attempt (ground (arith, d.active)) in
      let ma =
        selected-mem (active_attempt x.attempt.id) (expired_attempt now) db.attempts d.due_attempt
          (ground (arith, d.active)) in
      rw one (elim (Bool-cases (leb p.max_attempts x.attempt.attempt_number)) [
        | inl l ↦ rw l (record {
          attempt = ma;
          task = rw l (selected-mem _ _ db.tasks d.due_task (ground (arith, d.current, d.of_task)));
        })
        | inr l ↦ rw l (record {
          attempt = ma;
          task = rw l (selected-mem _ _ db.tasks d.due_task (ground (arith, d.current, d.of_task)));
        })
      ])

  expire_item-Due :
      (x : Item) (db : Db) (a : Attempt) (t : Task)
      → x.attempt ≡ a
      → WellFormed db
      → Due a t db
      → Swept p now a t (expire_item sha p now x db)
  expire_item-Due x db a t q w d = rw (← q) (expire_item-own x db t w (rw q d))

  -- The rounds after it.
  expire_items-Swept :
      (items : List Item) (n : ℕ) (db : Db) (a : Attempt) (t : Task)
      → WellFormed db
      → Swept p now a t db
      → Swept p now a t (expire_items sha p now items n db).1
  expire_items-Swept items n db a t w s = record {
    attempt = (expire_items-Extends sha p now items n db w).finished _ s.attempt refl;
    task = expire_items-idle items n db _ (ground arith) s.task;
  }

  pub expire_items-Due :
      (items : List Item) (n : ℕ) (db : Db) (a : Attempt) (t : Task)
      → WellFormed db
      → Due a t db
      → ((x : Item) → Memᴰ x items → x.attempt.id ≡ a.id → x.attempt ≡ a)
      → (x : Item) → Memᴰ x items
      → x.attempt ≡ a
      → Swept p now a t (expire_items sha p now items n db).1
  unfolding expire_items
  expire_items-Due [] n db a t w d only x m e = elim m [ ]
  expire_items-Due (y ∷ rest) n db a t w d only x m e = elim (Bool-cases (y.attempt.id == a.id)) [
    | inl same ↦
        let q : y.attempt ≡ a = only y (Memᴰ.head refl) (ground arith) in
        expire_items-Swept rest _ _ a t (expire_item-WellFormed now y sha p db w)
          (expire_item-Due y db a t q w d)
    | inr other ↦
        expire_items-Due rest _ _ a t (expire_item-WellFormed now y sha p db w)
          (expire_item-other y db a t (λ q. ground arith) d) (λ z mz. only z (Memᴰ.tail mz)) x
          (elim m [ Memᴰ.head h ↦ absurd (ground (arith, h, e)) | Memᴰ.tail n ↦ n ]) e
  ]
