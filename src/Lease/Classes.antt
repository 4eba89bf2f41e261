-- ===== src/Lease/Classes.antt =====
-- ClassificationFromMessage (internal/artifact/failure.go): the first artifact failure class that an
-- error message names.
use text.Mathlib.Text.{◌==◌ as str_eq, starts_with, find?}
use Prim.Native.String.{◌++◌}
use o_rabbit.Prelude.{
  ℕ, ◌≡◌, refl, String, Bool, true, false, ◌||◌, Option, none, some, List, [], ◌∷◌, if◌then◌else◌,
}

abbrev pub artifact_failure_classes : List String
artifact_failure_classes =
    "LOCAL_PARQUET_INVALID" ∷ "LOCAL_SIZE_MISMATCH" ∷ "LOCAL_ROW_COUNT_MISMATCH"
    ∷ "LOCAL_SCHEMA_MISMATCH" ∷ "UPLOAD_FAILED" ∷ "MULTIPART_PART_FAILED"
    ∷ "MULTIPART_COMPLETE_AMBIGUOUS" ∷ "MULTIPART_INTENT_FAILED" ∷ "MULTIPART_TRACKING_FAILED"
    ∷ "REMOTE_SIZE_MISMATCH" ∷ "REMOTE_CHECKSUM_MISMATCH" ∷ "REMOTE_METADATA_MISMATCH"
    ∷ "EXISTING_OBJECT_CONFLICT" ∷ "VERIFICATION_UNAVAILABLE" ∷ "VERIFICATION_CANCELED" ∷ []

-- message == class || HasPrefix(message, class + ":") || Contains(message, ": " + class + ":")
abbrev pub is_found : Option ℕ → Bool
is_found none = false
is_found (some _) = true

abbrev pub names_class : String → String → Bool
names_class message class =
    str_eq message class
    || starts_with message (class ++ ":")
    || is_found (find? message (": " ++ class ++ ":"))

unfoldable pub first_class : String → List String → String
first_class message [] = ""
first_class message (class ∷ rest) =
    if names_class message class then class else first_class message rest

unfoldable pub classification_from_message : String → String
unfolding first_class
classification_from_message message = first_class message artifact_failure_classes

upload_failure :
    classification_from_message "UPLOAD_FAILED: task 3: REMOTE_SIZE_MISMATCH: 503" ≡ "UPLOAD_FAILED"
unfolding classification_from_message
upload_failure = refl

unclassified : classification_from_message "UPLOAD_FAILED5" ≡ ""
unfolding classification_from_message
unclassified = refl
