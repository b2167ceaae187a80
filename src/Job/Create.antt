-- ===== src/Job/Create.antt =====
-- `newJob` (backend/utils/jobStore/common.js): the record that `create` stores. The fresh identifier
-- and the clock are arguments.
pub mod Fresh
use stenograma.Prelude.{ℕ, false, Option, none, some, Text, if◌then◌else◌}
use stenograma.Result.{Result}
use stenograma.Value.{
  Value, undefined, null, bool, num, word, text, iso, arr, nil, is_nullish, truthy, int, queued,
  transcription,
}
use stenograma.Job.{Key, Obj, field}
use stenograma.Job.Normalize.{normalize_job}

-- `fields.k || d`.
abbrev pub or_default : Value → Value → Value
or_default v d = if truthy v then v else d

-- `fields.k ?? null`.
abbrev pub or_null : Value → Value
or_null v = if is_nullish v then null else v

abbrev pub current_schema_version : ℕ
current_schema_version = 2

-- The object literal of `newJob`.
unfoldable pub new_job_literal : Text → ℕ → Obj → Obj
new_job_literal i now fields Key.id = some (text i)
new_job_literal i now fields Key.schema_version = some (num (int current_schema_version))
new_job_literal i now fields Key.type =
    some (or_default (field Key.type fields) (word transcription))
new_job_literal i now fields Key.storage_key = some (or_default (field Key.storage_key fields) null)
new_job_literal i now fields Key.request_id = some (or_default (field Key.request_id fields) null)
new_job_literal i now fields Key.phase = some null
new_job_literal i now fields Key.progress = some null
new_job_literal i now fields Key.progress_known = some (bool false)
new_job_literal i now fields Key.owner_id = some (or_null (field Key.owner_id fields))
new_job_literal i now fields Key.owner_kind = some (or_null (field Key.owner_kind fields))
new_job_literal i now fields Key.tenant_id = some (or_null (field Key.tenant_id fields))
new_job_literal i now fields Key.idempotency_key = some (or_null (field Key.idempotency_key fields))
new_job_literal i now fields Key.actor = some (or_default (field Key.actor fields) null)
new_job_literal i now fields Key.actor_role = some (or_default (field Key.actor_role fields) null)
new_job_literal i now fields Key.actor_source =
    some (or_default (field Key.actor_source fields) null)
new_job_literal i now fields Key.artefacts =
    some (or_default (field Key.artefacts fields) (arr nil))
new_job_literal i now fields Key.audio_cleanup_pending = some (bool false)
new_job_literal i now fields Key.audio_cleanup_attempts = some (num (int 0))
new_job_literal i now fields Key.status = some (word queued)
new_job_literal i now fields Key.result = some null
new_job_literal i now fields Key.error = some null
new_job_literal i now fields Key.error_code = some null
new_job_literal i now fields Key.error_message = some null
new_job_literal i now fields Key.attempt_count = some (num (int 0))
new_job_literal i now fields Key.created_at = some (iso now)
new_job_literal i now fields Key.started_at = some null
new_job_literal i now fields Key.completed_at = some null
new_job_literal i now fields Key.version = some (num (int 1))
new_job_literal i now fields Key.created_at_old = some (iso now)
new_job_literal i now fields Key.updated_at = some (iso now)
new_job_literal i now fields Key.deletion_pending = none
new_job_literal i now fields Key.deletion_attempts = none
new_job_literal i now fields (Key.other n) = none

unfoldable pub new_job : Text → ℕ → Obj → Result Obj
unfolding new_job_literal
new_job i now fields = normalize_job (new_job_literal i now fields)
