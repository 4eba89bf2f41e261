-- ===== src/Store/Tx.antt =====
-- Results of store operations (internal/db). An operation runs in one serializable transaction: on
-- an error the deferred Rollback leaves the database as it was, so an error carries no database.
-- SQLITE_BUSY and other failures of SQLite itself are not modelled.
use o_rabbit.Prelude.{Bool, true, false, ◌≡◌, refl, Option, none, some, if◌then◌else◌}

pub data Error : Type 0 where
  attempt_fenced : Error  -- ErrAttemptFenced
  no_rows : Error  -- sql.ErrNoRows
  result_conflict : Error  -- "attempt result conflict"
  missing_artifacts : Error  -- "successful task with bytes requires verified artifacts"
  artifact_identity : Error  -- "artifact ... identity mismatch"
  invalid_artifact : Error  -- artifact.Record.Validate
  invalid_status : Error  -- "invalid task status"
  constraint : Error  -- a UNIQUE or CHECK constraint of the schema
  random_source : Error  -- crypto/rand, or an id function of the caller
  invalid_argument : Error  -- "missing run id" and the like
  not_leader : Error  -- ErrNotLeader
  leadership_held : Error  -- ErrLeadershipHeld
  upload_fenced : Error  -- ErrUploadCapacityFenced
  active_dataset_run : Error  -- ErrActiveDatasetRun
  no_tasks : Error  -- "run ... has no tasks"
  not_committing : Error  -- "run ... is ..., not COMMITTING"
  commit_conflict : Error  -- "commit integrity conflict"
  commit_precondition : Error  -- "commit completion precondition failed"
  commit_claim_lost : Error  -- ErrCommitClaimLost
  registration_intent : Error  -- "registration requires durable commit intent" and the like
  decrypt_failed : Error  -- crypto: the stored configuration does not open
  stale_master : Error  -- "STALE_MASTER_MUTATION_REJECTED"

pub data Result {ℓ} (A : Type ℓ) : Type ℓ where
  err : Error → Result A
  ok : A → Result A

-- QueryRow(...).Scan, where an absent row is an error.
abbrev pub or_error {ℓ} : {A : Type ℓ} → Option A → Error → Result A
or_error none e = err e
or_error (some a) e = ok a

-- `if !b { return e }`
abbrev pub guard : Bool → Error → Result (Unit {0})
guard false e = err e
guard true e = ok tt

infixl 5 ◌>>=◌
abbrev pub ◌>>=◌ {ℓ κ} : {S : Type ℓ} {T : Type κ} → Result S → (S → Result T) → Result T
err e >>= next = err e
ok s >>= next = next s

infixl 5 ◌>>◌
abbrev pub ◌>>◌ {κ} : {T : Type κ} → Result (Unit {0}) → Result T → Result T
check >> rest = check >>= λ _. rest

-- What the parts of a successful operation returned.
pub >>=-eq-ok {ℓ κ} :
    {S : Type ℓ} {T : Type κ} (first : Result S) (next : S → Result T) {t : T}
    → (first >>= next) ≡ ok t
    → (s : S) × (first ≡ ok s) × (next s ≡ ok t)
>>=-eq-ok (err e) next h = cc
>>=-eq-ok (ok s) next h = (s, refl, h)

-- A guard that did not stop an operation held, and the rest of the operation succeeded.
pub guard-eq-ok {ℓ} :
    {B : Type ℓ} (t : Bool) (e : Error) (k : Result B) {b : B}
    → (guard t e >> k) ≡ ok b
    → (t ≡ true) × (k ≡ ok b)
guard-eq-ok true e k h = (refl, h)
guard-eq-ok false e k h = cc

-- An operation that tests one condition succeeded where it held.
pub if-eq-ok {ℓ} :
    {A : Type ℓ} (t : Bool) (a : A) (e : Error) {b : A}
    → (if t then ok a else err e) ≡ ok b
    → (t ≡ true) × (a ≡ b)
if-eq-ok true a e h = (refl, cc)
if-eq-ok false a e h = cc

-- A lookup that found its row.
pub or_error-eq-ok {ℓ} :
    {A : Type ℓ} (o : Option A) (e : Error) {a : A} → or_error o e ≡ ok a → o ≡ some a
or_error-eq-ok none e h = cc
or_error-eq-ok (some x) e h = cc

pub ok-injective {ℓ} : {A : Type ℓ} {a b : A} → ok a ≡ ok b → a ≡ b
ok-injective h = cc

-- What holds of a value that an operation returns, if it returns one.
abbrev pub Returns {ℓ κ} : {A : Type ℓ} → (A → Type κ) → Result A → Type κ
Returns P (err e) = Unit
Returns P (ok a) = P a

module _ {ℓ κ} {A : Type ℓ} (P : A → Type κ) where
  pub Returns-ok : (r : Result A) {a : A} → Returns P r → r ≡ ok a → P a
  Returns-ok (err e) h q = cc
  Returns-ok (ok b) h q = let e : b ≡ _ = ok-injective q in rw e at h

  pub Returns-if :
      (b : Bool) (x y : Result A)
      → (b ≡ true → Returns P x)
      → (b ≡ false → Returns P y)
      → Returns P (if b then x else y)
  Returns-if true x y hx hy = hx refl
  Returns-if false x y hx hy = hy refl

  pub Returns-guard :
      (b : Bool) (e : Error) (k : Result A) → (b ≡ true → Returns P k) → Returns P (guard b e >> k)
  Returns-guard true e k h = h refl
  Returns-guard false e k h = tt

  pub Returns-row {ρ} :
      {S : Type ρ} (o : Option S) (e : Error) (f : S → Result A)
      → ((s : S) → o ≡ some s → Returns P (f s))
      → Returns P (or_error o e >>= f)
  Returns-row none e f h = tt
  Returns-row (some s) e f h = h s refl

  pub Returns-bind {ρ} :
      {S : Type ρ} (r : Result S) (f : S → Result A)
      → ((s : S) → r ≡ ok s → Returns P (f s))
      → Returns P (r >>= f)
  Returns-bind (err e) f h = tt
  Returns-bind (ok s) f h = h s refl
