-- ===== src/Store/Artifacts.antt =====
-- The artifact record of an uploaded file (internal/artifact/integrity.go, Record) and its row in
-- task_artifacts, with the table's constraints (internal/db/migrate.go, schemaV10).
use Prim.Native.Char.{code}
use Prim.Native.String.{String}
use text.Mathlib.Text.{◌==◌ as str_eq}
use o_rabbit.Table.{any_where}
use o_rabbit.Prelude.{
  ℕ, ℤ, pos, is_positive, Bool, true, false, not, ◌&&◌, ◌||◌, List, [], ◌∷◌, ◌==◌, leb, length,
}

pub record ArtifactRecord : Type 0 where
  pub object_key : String
  pub byte_size : ℤ
  pub sha256 : String
  pub row_count : ℤ
  pub schema_fingerprint : String
  pub run_id : ℕ
  pub task_id : ℕ
  pub attempt_id : ℕ
  pub attempt_number : ℕ
  pub file_index : ℕ
  pub format_version : ℕ
  pub verification_method : String
  pub verification_status : String
  pub max_hwm : String
  pub provider_checksum_sha256 : String

-- A row of task_artifacts: the columns of the record, and those that the store adds.
pub record ArtifactRow : Type 0 where
  pub id : ℕ
  pub artifact : ArtifactRecord
  pub verified_at : ℕ
  pub created_at : ℕ

abbrev pub codes : String → List ℕ
codes String.[] = []
codes (String.◌∷◌ c s) = code c ∷ codes s

-- length(trim(x)) > 0: trim removes spaces
abbrev pub has_text : List ℕ → Bool
has_text [] = false
has_text (c ∷ cs) = not (c == b' ') || has_text cs

abbrev pub is_hex_digit : ℕ → Bool
is_hex_digit c = (leb b'0' c && leb c b'9') || (leb b'a' c && leb c b'f')

abbrev pub all_hex : List ℕ → Bool
all_hex [] = true
all_hex (c ∷ cs) = is_hex_digit c && all_hex cs

-- length(x) = 64 AND x NOT GLOB '*[^0-9a-f]*'
unfoldable pub is_digest_text : String → Bool
is_digest_text s = length (codes s) == 64 && all_hex (codes s)

abbrev pub is_non_negative : ℤ → Bool
is_non_negative (pos n) = true
is_non_negative _ = false

-- The CHECK constraints of task_artifacts.
unfoldable pub artifact_checks : ArtifactRecord → Bool
unfolding is_digest_text
artifact_checks r =
    has_text (codes r.object_key)
    && is_positive r.byte_size
    && is_digest_text r.sha256
    && is_non_negative r.row_count
    && is_digest_text r.schema_fingerprint
    && leb 1 r.attempt_number
    && r.format_version == 1
    && (str_eq r.verification_method "PORTABLE_FULL_SHA256"
        || str_eq r.verification_method "PROVIDER_SHA256_AND_PORTABLE_FULL_SHA256")
    && str_eq r.verification_status "VERIFIED"

-- PRIMARY KEY(id), UNIQUE(attempt_id, file_index), UNIQUE(object_key)
unfoldable pub artifact_conflicts : ArtifactRow → ArtifactRow → Bool
artifact_conflicts a b =
    a.id == b.id
    || (a.artifact.attempt_id == b.artifact.attempt_id
        && a.artifact.file_index == b.artifact.file_index)
    || str_eq a.artifact.object_key b.artifact.object_key

unfoldable pub artifact_admissible : ArtifactRow → List ArtifactRow → Bool
unfolding artifact_checks artifact_conflicts
artifact_admissible a rows =
    artifact_checks a.artifact && not (any_where (artifact_conflicts a) rows)
