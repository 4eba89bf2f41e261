-- ===== src/Leadership/Fence.antt =====
-- ActivateLeadershipFence (internal/db/leadership.go): triggers on the writer connection that reject
-- the writes of a master that does not lead.
use Prim.Native.String.{String}
use package.text.Mathlib.Text.{◌==◌ as str_eq}
use o_rabbit.Prelude.{
  ℕ, ℤ, ◌≤◌, ◌≡◌, refl, ap, Bool, true, false, not, ◌||◌, Option, none, some, List, [], ◌∷◌, ◌++◌,
  arith, ◌==◌, if◌then◌else◌, Bool-cases, inl, inr,
}
use o_rabbit.Table.{count_where, select_where, update_where}
use o_rabbit.Table.Laws.{update_where_uncounted, select_where_uncounted}
use o_rabbit.Store.{LeaderRow}
use o_rabbit.Store.Tx.{Result, ok, err, stale_master, not_leader, ◌>>◌}
use o_rabbit.Leadership.Row.{Leaders, LeaderLease, acquire, leads, assert_leadership}
use o_rabbit.Leadership.Terms.{LeaderReach, takeover_final}

-- The condition of the triggers.
pub record FenceOf : Type 0 where
  pub instance_id : ℕ
  pub epoch : ℕ

abbrev pub fenced_tables : List String
fenced_tables =
    "connections" ∷ "jobs" ∷ "runs" ∷ "tasks" ∷ "events" ∷ "hwm" ∷ "workers" ∷ "audit_log"
    ∷ "api_credentials" ∷ "servers" ∷ "server_credentials" ∷ "command_executions" ∷ "deployments"
    ∷ "config_versions" ∷ "task_attempts" ∷ "task_artifacts" ∷ "iceberg_registrations"
    ∷ "iceberg_registration_attempts" ∷ "iceberg_reconciliation_attempts" ∷ "multipart_uploads"
    ∷ "canceled_object_candidates" ∷ "canceled_object_cleanup_attempts" ∷ []

abbrev pub has_name : String → List String → Bool
has_name t [] = false
has_name t (u ∷ us) = str_eq t u || has_name t us

-- CREATE TEMP TRIGGER IF NOT EXISTS: the triggers of an earlier activation stay.
abbrev pub keep_fence : Option FenceOf → FenceOf → FenceOf
keep_fence none f = f
keep_fence (some g) f = g

unfoldable pub activate_fence :
    (instance_id epoch now : ℕ) → Leaders → Option FenceOf → Result (Option FenceOf)
activate_fence instance_id epoch now s fence =
    assert_leadership instance_id epoch now s
    >> ok (some (keep_fence fence (record { instance_id = instance_id; epoch = epoch })))

-- Does a row of the table pass the trigger?
unfoldable pub passes_fence : Option FenceOf → (table : String) → (now : ℕ) → LeaderRow → Bool
passes_fence none table now r = true
passes_fence (some f) table now r =
    not (has_name table fenced_tables) || leads f.instance_id f.epoch now r

module _ {ℓ} {A : Type ℓ} where
  -- BEFORE UPDATE fires for each row that the statement selects.
  unfoldable pub fenced_update :
      Option FenceOf → String → ℕ → LeaderRow → (A → Bool) → (A → A) → List A → Result (List A)
  unfolding passes_fence
  fenced_update fence table now r p f rows =
      if count_where p rows == 0 || passes_fence fence table now r
      then ok (update_where p f rows)
      else err stale_master

  unfoldable pub fenced_insert :
      Option FenceOf → String → ℕ → LeaderRow → A → List A → Result (List A)
  unfolding passes_fence
  fenced_insert fence table now r row rows =
      if passes_fence fence table now r then ok (rows ++ row ∷ []) else err stale_master

  unfoldable pub fenced_delete :
      Option FenceOf → String → ℕ → LeaderRow → (A → Bool) → List A → Result (List A)
  unfolding passes_fence
  fenced_delete fence table now r p rows =
      if count_where p rows == 0 || passes_fence fence table now r
      then ok (select_where (λ a. not (p a)) rows)
      else err stale_master

-- A master whose term has passed does not lead.
past_master :
    (i e now : ℕ) (s : Leaders)
    → assert_leadership i e now s ≡ err not_leader
    → leads i e now s.row ≡ false
unfolding assert_leadership
past_master i e now s h = elim (Bool-cases (leads i e now s.row)) [
  | inr no_longer ↦ no_longer
  | inl still ↦ cc (rw still at h)
]

module _ (s s' s'' : Leaders) (i epoch j : ℕ) (lease : ℤ) (metadata : String) (now stamp : ℕ)
    (l : LeaderLease) (older : epoch ≤ s.row.epoch)
    (acquired : acquire j lease metadata now stamp s ≡ ok (l, s')) (reach : LeaderReach s' s'')
    (table : String) (fenced : has_name table fenced_tables ≡ true) where
  fence_down :
      (t : ℕ)
      → passes_fence (some (record { instance_id = i; epoch = epoch })) table t s''.row ≡ false
  unfolding passes_fence
  fence_down t =
      let (checks, _, _) =
        takeover_final s s' s'' i epoch j lease metadata now stamp l older acquired reach in
      rw fenced (past_master i epoch t s'' (checks t))

  -- Once a later term has been acquired, the fence of an older term lets nothing through, whatever
  -- happens afterwards: an INSERT into a fenced table fails, and an UPDATE or a DELETE of one fails or
  -- selects no row.
  pub fence_rejects_stale {ℓ} :
      {A : Type ℓ} (t : ℕ) (row : A) (p : A → Bool) (f : A → A) (rows : List A)
      → (fenced_insert (some (record { instance_id = i; epoch = epoch })) table t s''.row row rows
          ≡ err stale_master)
        × (fenced_update (some (record { instance_id = i; epoch = epoch })) table t s''.row p f rows
            ≡ (if count_where p rows == 0 then ok rows else err stale_master))
        × (fenced_delete (some (record { instance_id = i; epoch = epoch })) table t s''.row p rows
            ≡ (if count_where p rows == 0 then ok rows else err stale_master))
  unfolding fenced_insert fenced_update fenced_delete
  fence_rejects_stale t row p f rows =
      let down = fence_down t in
      (
        rw down refl,
        elim (Bool-cases (count_where p rows == 0)) [
          | inl none_met ↦ rw none_met (ap ok (update_where_uncounted p f rows (ground arith)))
          | inr some_met ↦ rw (some_met, down) refl
        ],
        elim (Bool-cases (count_where p rows == 0)) [
          | inl none_met ↦ rw none_met (ap ok (select_where_uncounted p rows (ground arith)))
          | inr some_met ↦ rw (some_met, down) refl
        ],
      )
