-- ===== src/Runs/Register.antt =====
-- ensureRegistrationTx (internal/db/registrations.go): the registration of a commit with its catalog
-- is queued in the transaction that completes the commit. JSON decoding and lower-casing are
-- parameters (encoding/json, strings.ToLower), and SHA-256 is a function of the parts.
use package.text.Mathlib.Text.{◌==◌ as str_eq}
use Prim.Native.Char.{code}
use Prim.Native.String.{String}
use o_rabbit.Prelude.{
  ℕ, ◌+◌, Bool, not, ◌&&◌, ◌||◌, Option, none, some, List, [], ◌∷◌, ◌++◌, ltb, ◌==◌, if◌then◌else◌,
}
use o_rabbit.Table.{any_where}
use o_rabbit.Store.{Registration, Db}
use o_rabbit.Store.Status.{RegistrationStatus}
use o_rabbit.Store.Tx.{Result, ok, guard, registration_intent, or_error, ◌>>=◌, ◌>>◌}
use o_rabbit.Store.Events.{Sha, Part, text, num, registration, insert_or_ignore}
use o_rabbit.Store.Texts.{trim_space, trimmed_or, reverse_onto}
use o_rabbit.Runs.Admit.{run_event}

-- registrationConfigIdentity
pub record RegistrationConfig : Type 0 where
  pub enabled : Bool
  pub engine : String
  pub table : String
  pub uri : String

-- registrationCommitIntent
pub record CommitIntent : Type 0 where
  pub manifest_key : String
  pub manifest : String

-- registrationManifest
pub record Manifest : Type 0 where
  pub schema_version : ℕ
  pub run_id : ℕ
  pub artifacts : List String

pub record Codec : Type 0 where
  pub config : String → Option RegistrationConfig
  pub intent : String → Option CommitIntent
  pub manifest : String → Option Manifest
  pub to_lower : String → String

-- What precedes the last '.' of a text, or the empty text: `i > 0` asks for a '.' behind the first
-- byte.
abbrev pub before_last_dot : String → String
before_last_dot s = cut (reverse_onto String.[] s)
  where
    cut : String → String
    cut String.[] = String.[]
    cut (String.◌∷◌ c r) = if code c == b'.' then reverse_onto String.[] r else cut r

unfoldable pub is_in_sequence : (dataset_id target_key : ℕ) → Registration → Bool
is_in_sequence dataset_id target_key x = x.dataset_id == dataset_id && x.target_key == target_key

-- SELECT COALESCE(MAX(dataset_sequence),0) ... WHERE dataset_id=? AND target_key=?
unfoldable pub last_sequence : (dataset_id target_key : ℕ) → List Registration → ℕ
unfolding is_in_sequence
last_sequence dataset_id target_key [] = 0
last_sequence dataset_id target_key (x ∷ xs) =
    let rest = last_sequence dataset_id target_key xs in
    if is_in_sequence dataset_id target_key x && ltb rest x.dataset_sequence
    then x.dataset_sequence
    else rest

-- PRIMARY KEY(id), UNIQUE(run_id, target_key), UNIQUE(dataset_id, target_key, dataset_sequence)
unfoldable pub registration_conflicts : Registration → Registration → Bool
unfolding is_in_sequence
registration_conflicts a b =
    a.id == b.id
    || (a.run_id == b.run_id && a.target_key == b.target_key)
    || (is_in_sequence a.dataset_id a.target_key b && a.dataset_sequence == b.dataset_sequence)

-- The INSERT OR IGNORE with the event of an inserted row.
unfoldable pub queue_registration : Sha → (now : ℕ) → Registration → Db → Db
unfolding registration_conflicts
queue_registration name now x db =
    if any_where (registration_conflicts x) db.registrations then db else record db {
      registrations = db.registrations ++ x ∷ [];
      events =
          insert_or_ignore
            (run_event (name (text "registration-queued-" ∷ num x.id ∷ [])) x.run_id now
              "REGISTRATION_QUEUED" (registration x.id))
            db.events;
    }

abbrev pub texts : List String → List Part
texts [] = []
texts (s ∷ ss) = text s ∷ texts ss

module _ (sha name : Sha) (codec : Codec) where
  -- The checks of the intent and its manifest against the commit id.
  unfoldable pub check_intent : (run_id commit_id : ℕ) → String → Result (CommitIntent × Manifest)
  unfolding trim_space
  check_intent run_id commit_id intent_json = do
    intent ← or_error (codec.intent intent_json) registration_intent
    guard (not (str_eq (trim_space intent.manifest_key) "")) registration_intent
    manifest ← or_error (codec.manifest intent.manifest) registration_intent
    guard (manifest.schema_version == 2 && manifest.run_id == run_id) registration_intent
    guard (sha (text intent.manifest ∷ []) == commit_id) registration_intent
    ok (intent, manifest)

  -- The row of a verified intent.
  unfoldable pub new_registration :
      RegistrationConfig
      → CommitIntent
      → Manifest
      → (run_id dataset_id commit_id now : ℕ) → Db
      → Registration
  unfolding trim_space trimmed_or last_sequence
  new_registration c intent manifest run_id dataset_id commit_id now db =
      let engine = trimmed_or (codec.to_lower (trim_space c.engine)) "rest-go" in
      let table = trim_space c.table in
      let target_key = sha (text engine ∷ text (trim_space c.uri) ∷ text table ∷ []) in
      record {
        id = sha (num run_id ∷ num target_key ∷ []);
        run_id = run_id;
        dataset_id = dataset_id;
        dataset_sequence = last_sequence dataset_id target_key db.registrations + 1;
        target_key = target_key;
        commit_id = commit_id;
        manifest_key = intent.manifest_key;
        artifact_set_digest = sha (texts manifest.artifacts);
        backend_type = engine;
        catalog_namespace = before_last_dot table;
        table_identifier = table;
        status = RegistrationStatus.pending;
        created_at = now;
        updated_at = now;
      }

  -- A registration is wanted: the configuration is there, decodes, and is enabled.
  abbrev pub wanted : String → Option RegistrationConfig
  wanted config_json =
      if str_eq (trim_space config_json) "" then none else elim (codec.config config_json) [
        | none ↦ none
        | some c ↦ if c.enabled then some c else none
      ]

  abbrev pub register_if :
      Option RegistrationConfig
      → (run_id dataset_id commit_id : ℕ) → String
      → (now : ℕ) → Db
      → Result Db
  register_if none run_id dataset_id commit_id intent_json now db = ok db
  register_if (some c) run_id dataset_id commit_id intent_json now db = do
    (intent, manifest) ← check_intent run_id commit_id intent_json
    ok (
        queue_registration name now
          (new_registration c intent manifest run_id dataset_id commit_id now db) db)

  unfoldable pub ensure_registration :
      (run_id dataset_id commit_id : ℕ)
      → (config_json intent_json : String) → (now : ℕ) → Db
      → Result Db
  unfolding check_intent new_registration queue_registration
  ensure_registration run_id dataset_id commit_id config_json intent_json now db =
      register_if (wanted config_json) run_id dataset_id commit_id intent_json now db
