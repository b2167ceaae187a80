-- ===== src/Backup.antt =====
-- The inventory of artefacts (backend/utils/artefactInventory.js) and the policy of what a backup holds
-- (backend/utils/backupPolicy.js). The children hold the manifest of a backup and its encryption.
mod Tests
pub mod Inventory
pub mod Manifest
pub mod Encryption
pub mod Ideal
use stenograma.Prelude.{
  ℕ, zero, suc, Bool, true, false, ◌&&◌, ◌||◌, not, Option, none, some, List, [], ◌∷◌, ◌++◌, Text,
  text_eq, codes, ltb, leb, filter_by, map, if◌then◌else◌, ◌==◌,
}

-- `ARTEFACT_TYPES`.
pub data ArtefactType : Type 0 where
  source_audio upload_temp conversion_temp transcript transcript_redacted protocol : ArtefactType
  export_redacted export_original queue_record job_record audit_entry : ArtefactType

-- `PERSISTENCE`.
pub data Persistence : Type 0 where
  persistent temporary ephemeral : Persistence

abbrev pub artefact_types : List ArtefactType
artefact_types =
    source_audio ∷ upload_temp ∷ conversion_temp ∷ transcript ∷ transcript_redacted ∷ protocol
    ∷ export_redacted ∷ export_original ∷ queue_record ∷ job_record ∷ audit_entry ∷ []

-- The field `id`.
unfoldable pub type_id : ArtefactType → Text
type_id source_audio = codes "source_audio"
type_id upload_temp = codes "upload_temp"
type_id conversion_temp = codes "conversion_temp"
type_id transcript = codes "transcript"
type_id transcript_redacted = codes "transcript_redacted"
type_id protocol = codes "protocol"
type_id export_redacted = codes "export_redacted"
type_id export_original = codes "export_original"
type_id queue_record = codes "queue_record"
type_id job_record = codes "job_record"
type_id audit_entry = codes "audit_entry"

-- The field `persistence`.
unfoldable pub type_persistence : ArtefactType → Persistence
type_persistence source_audio = persistent
type_persistence upload_temp = temporary
type_persistence conversion_temp = temporary
type_persistence transcript = persistent
type_persistence transcript_redacted = ephemeral
type_persistence protocol = persistent
type_persistence export_redacted = ephemeral
type_persistence export_original = ephemeral
type_persistence queue_record = persistent
type_persistence job_record = persistent
type_persistence audit_entry = persistent

-- The field `derivedFrom`.
unfoldable pub derived_from : ArtefactType → Option ArtefactType
derived_from conversion_temp = some source_audio
derived_from transcript = some source_audio
derived_from transcript_redacted = some transcript
derived_from protocol = some transcript
derived_from export_redacted = some protocol
derived_from export_original = some protocol
derived_from _ = none

abbrev pub find_type : Text → List ArtefactType → Option ArtefactType
find_type id [] = none
find_type id (t ∷ ts) =
    let rest = find_type id ts in if text_eq (type_id t) id then some t else rest

-- `TYPES_BY_ID[id]`.
unfoldable pub types_by_id : Text → Option ArtefactType
unfolding type_id
types_by_id id = find_type id artefact_types

abbrev pub is_persistent : Persistence → Bool
is_persistent persistent = true
is_persistent _ = false

-- `typeId in EXCLUDED_DESPITE_PERSISTENT`, for a type of the inventory.
unfoldable pub excluded_despite_persistent : ArtefactType → Bool
excluded_despite_persistent queue_record = true
excluded_despite_persistent audit_entry = true
excluded_despite_persistent _ = false

unfoldable pub is_included_type : ArtefactType → Bool
unfolding excluded_despite_persistent type_persistence
is_included_type t =
    if excluded_despite_persistent t then false else is_persistent (type_persistence t)

-- `isIncluded(typeId)`. The names that every object inherits are in both tables, and are refused.
unfoldable pub is_included : Text → Bool
unfolding types_by_id is_included_type
is_included id = elim (types_by_id id) [ none ↦ false | some t ↦ is_included_type t ]

-- `includedTypes()`.
unfoldable pub included_types : List Text
unfolding is_included type_id
included_types = filter_by is_included (map type_id artefact_types)

-- `BACKUP_FORMAT_VERSION` and `MIN_RESTORABLE_VERSION`.
abbrev pub backup_format_version : ℕ
backup_format_version = 1

abbrev pub min_restorable_version : ℕ
min_restorable_version = 1

abbrev pub default_retention_days : ℕ
default_retention_days = 7

-- `retentionDays(env)`, where `none` stands for what is no natural number.
unfoldable pub retention_days : Option ℕ → ℕ
retention_days none = default_retention_days
retention_days (some zero) = default_retention_days
retention_days (some (suc n)) = suc n

-- The reasons of `checkRestoreCompatibility(manifestVersion)`, `none` for what is no natural number.
pub data Compatibility : Type 0 where
  compatible no_version too_new too_old : Compatibility

unfoldable pub check_restore_compatibility : Option ℕ → Compatibility
check_restore_compatibility none = no_version
check_restore_compatibility (some v) =
    if ltb backup_format_version v
    then too_new
    else (if ltb v min_restorable_version then too_old else compatible)
