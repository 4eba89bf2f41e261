-- ===== src/Leadership/Row.antt =====
-- AcquireLeadership, RenewLeadership, ReleaseLeadership, AssertLeadership and RecordLeadershipEvent
-- (internal/db/leadership.go). `now` is the time of sqliteNowMS in the statement on the row, `stamp`
-- that of the statement on the history. A blank instance id is 0.
use Prim.Native.String.{String}
use package.text.Mathlib.Text.{◌==◌ as str_eq}
use o_rabbit.Prelude.{
  ℕ, ℤ, ◌+◌, ◌/◌, is_positive, pos_part, Bool, true, false, not, ◌&&◌, ◌||◌, List, [], ◌∷◌, ◌++◌,
  ltb, leb, ◌==◌, if◌then◌else◌,
}
use o_rabbit.Table.{any_where}
use o_rabbit.Store.{LeaderRow}
use o_rabbit.Store.Status.{LeaderStatus, leader_is_active}
use o_rabbit.Store.Tx.{Result, ok, err, guard, invalid_argument, leadership_held, not_leader, ◌>>◌}

-- The texts "leadership-<event>-<epoch>", "leadership-release-<epoch>" and
-- "leadership-<event in lower case>-<instance>-<epoch>"; the events are upper case texts.
pub data HistoryId : Type 0 where
  acquired_id : String → (epoch : ℕ) → HistoryId
  released_id : (epoch : ℕ) → HistoryId
  recorded_id : String → (instance_id epoch : ℕ) → HistoryId

abbrev pub same_id : HistoryId → HistoryId → Bool
same_id (acquired_id x e) (acquired_id y f) = str_eq x y && e == f
same_id (released_id e) (released_id f) = e == f
same_id (recorded_id x i e) (recorded_id y j f) = str_eq x y && i == j && e == f
same_id _ _ = false

-- A row of master_leadership_history.
pub record HistoryRow : Type 0 where
  pub id : HistoryId
  pub instance_id : ℕ
  pub epoch : ℕ
  pub event_type : String
  pub occurred_at_ms : ℕ
  pub lease_deadline_ms : ℕ
  pub metadata_json : String

pub record Leaders : Type 0 where
  pub row : LeaderRow
  pub history : List HistoryRow

-- INSERT OR IGNORE INTO master_leadership_history
unfoldable pub log_history : HistoryRow → List HistoryRow → List HistoryRow
log_history r rows =
    if any_where (λ (x : HistoryRow). same_id x.id r.id) rows then rows else rows ++ r ∷ []

pub record LeaderLease : Type 0 where
  pub instance_id : ℕ
  pub epoch : ℕ
  pub lease_deadline_ms : ℕ

-- lease.Milliseconds() of a positive number of nanoseconds
abbrev pub milliseconds : ℤ → ℕ
milliseconds lease = pos_part lease / 1000000

-- status<>'ACTIVE' OR lease_deadline_ms<=now
unfoldable pub is_free : ℕ → LeaderRow → Bool
is_free now r = not (leader_is_active r.status) || leb r.lease_deadline_ms now

unfoldable pub acquired_row :
    (instance_id lease_ms : ℕ) → String → (now : ℕ) → LeaderRow → LeaderRow
acquired_row instance_id lease_ms metadata now r = record {
  instance_id = instance_id;
  epoch = r.epoch + 1;
  status = LeaderStatus.active;
  lease_deadline_ms = now + lease_ms;
  acquired_at_ms = now;
  renewed_at_ms = now;
  released_at_ms = 0;
  metadata_json = metadata;
}

abbrev pub acquire_event : ℕ → String
acquire_event epoch = if ltb 1 epoch then "MASTER_TAKEOVER" else "MASTER_LEADERSHIP_ACQUIRED"

abbrev pub acquired_history : LeaderRow → (stamp : ℕ) → HistoryRow
acquired_history r stamp = record {
  id = acquired_id (acquire_event r.epoch) r.epoch;
  instance_id = r.instance_id;
  epoch = r.epoch;
  event_type = acquire_event r.epoch;
  occurred_at_ms = stamp;
  lease_deadline_ms = r.lease_deadline_ms;
  metadata_json = r.metadata_json;
}

abbrev pub lease_of_row : LeaderRow → LeaderLease
lease_of_row r = record {
  instance_id = r.instance_id;
  epoch = r.epoch;
  lease_deadline_ms = r.lease_deadline_ms;
}

-- The state after the two statements of a successful acquisition.
abbrev pub with_leader : LeaderRow → (stamp : ℕ) → Leaders → Leaders
with_leader r stamp s = record {
  row = r;
  history = log_history (acquired_history r stamp) s.history;
}

unfoldable pub acquire :
    (instance_id : ℕ)
    → (lease : ℤ) → String
    → (now stamp : ℕ) → Leaders
    → Result (LeaderLease × Leaders)
unfolding is_free acquired_row log_history
acquire instance_id lease metadata now stamp s = do
  guard (not (instance_id == 0) && is_positive lease) invalid_argument
  guard (is_free now s.row) leadership_held
  let r = acquired_row instance_id (milliseconds lease) metadata now s.row
  ok (lease_of_row r, with_leader r stamp s)

-- status='ACTIVE' AND instance_id=? AND epoch=?
unfoldable pub holds_term : (instance_id epoch : ℕ) → LeaderRow → Bool
holds_term instance_id epoch r =
    leader_is_active r.status && r.instance_id == instance_id && r.epoch == epoch

-- ... AND lease_deadline_ms>now
unfoldable pub leads : (instance_id epoch now : ℕ) → LeaderRow → Bool
unfolding holds_term
leads instance_id epoch now r = holds_term instance_id epoch r && ltb now r.lease_deadline_ms

-- `lease_ms` is lease.Milliseconds(), which is not negative where the controller calls it.
unfoldable pub renew_leadership :
    (instance_id epoch lease_ms now : ℕ) → Leaders → Result (ℕ × Leaders)
unfolding leads
renew_leadership instance_id epoch lease_ms now s =
    if leads instance_id epoch now s.row
    then ok (
      now + lease_ms,
      record s { row = record s.row { lease_deadline_ms = now + lease_ms; renewed_at_ms = now } },
    )
    else err not_leader

abbrev pub released_row : (now : ℕ) → LeaderRow → LeaderRow
released_row now r = record r {
  status = LeaderStatus.released;
  lease_deadline_ms = 0;
  released_at_ms = now;
}

unfoldable pub release_leadership : (instance_id epoch now stamp : ℕ) → Leaders → Bool × Leaders
unfolding holds_term log_history
release_leadership instance_id epoch now stamp s =
    if holds_term instance_id epoch s.row
    then (
      true,
      record {
        row = released_row now s.row;
        history =
            log_history
              (record {
                id = released_id epoch;
                instance_id = instance_id;
                epoch = epoch;
                event_type = "MASTER_LEADERSHIP_RELEASED";
                occurred_at_ms = stamp;
                lease_deadline_ms = 0;
                metadata_json = "{}";
              })
              s.history;
      },
    )
    else (false, s)

unfoldable pub assert_leadership : (instance_id epoch now : ℕ) → Leaders → Result (Unit {0})
unfolding leads
assert_leadership instance_id epoch now s =
    if leads instance_id epoch now s.row then ok tt else err not_leader

unfoldable pub record_leadership_event :
    (instance_id epoch : ℕ) → (event_type metadata : String) → (stamp : ℕ) → Leaders → Leaders
unfolding log_history
record_leadership_event instance_id epoch event_type metadata stamp s = record s {
  history =
      log_history
        (record {
          id = recorded_id event_type instance_id epoch;
          instance_id = instance_id;
          epoch = epoch;
          event_type = event_type;
          occurred_at_ms = stamp;
          lease_deadline_ms = 0;
          metadata_json = metadata;
        })
        s.history;
}
