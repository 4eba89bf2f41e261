-- ===== src/Store/Events.antt =====
-- The events table as the attempt operations write it (internal/db/attempts.go,
-- insertAttemptEventTx). SHA-256 is a parameter, a function of the parts that the source joins.
use o_rabbit.Table.{any_where}
use o_rabbit.Prelude.{ℕ, ℤ, String, Option, some, List, [], ◌∷◌, ◌++◌, ◌==◌, if◌then◌else◌}

-- A part of a text that is hashed.
pub data Part : Type 0 where
  text : String → Part
  num : ℕ → Part
  int : ℤ → Part

abbrev pub Sha : Type 0
Sha = List Part → ℕ

-- The extra fields of an event.
pub data Extra : Type 0 where
  nothing : Extra
  lease_deadline : ℕ → Extra
  replacement_attempt_id : ℕ → Extra
  max_attempts : ℕ → Extra
  next_eligible_at : ℕ → Extra
  reason : String → Extra
  message : String → Extra
  commit : ℕ → Extra
  registration : ℕ → Extra
  candidate : ℕ → Extra

pub record Event : Type 0 where
  pub id : ℕ
  pub run_id : ℕ
  pub task_id : Option ℕ
  pub ts : ℕ
  pub event_type : String
  pub attempt_id : ℕ
  pub attempt_number : ℕ
  pub worker_id : ℕ
  pub classification : String
  pub extra : Extra

unfoldable pub attempt_event_id : Sha → String → ℕ → String → ℕ
attempt_event_id sha event_type attempt_id classification =
    sha (text event_type ∷ num attempt_id ∷ text classification ∷ [])

-- INSERT OR IGNORE INTO events: a row whose id is taken is dropped.
unfoldable pub insert_or_ignore : Event → List Event → List Event
insert_or_ignore e events =
    if any_where (λ x. x.id == e.id) events then events else events ++ e ∷ []

unfoldable pub insert_attempt_event :
    Sha
    → (run_id task_id attempt_id attempt_number worker_id : ℕ)
    → (event_type classification : String) (ts : ℕ) → Extra
    → List Event
    → List Event
unfolding attempt_event_id insert_or_ignore
insert_attempt_event sha run_id task_id attempt_id attempt_number worker_id event_type
      classification ts extra events =
    insert_or_ignore
      (record {
        id = attempt_event_id sha event_type attempt_id classification;
        run_id = run_id;
        task_id = some task_id;
        ts = ts;
        event_type = event_type;
        attempt_id = attempt_id;
        attempt_number = attempt_number;
        worker_id = worker_id;
        classification = classification;
        extra = extra;
      })
      events
