-- ===== src/Job/Patch.antt =====
-- `applyPatch` (backend/utils/jobStore/common.js): the one way in which a stored job changes.
pub mod Protected
use stenograma.Prelude.{
  ℕ, Bool, true, false, ◌&&◌, ◌||◌, not, Option, none, some, Text, codes, ◌++◌, if◌then◌else◌,
}
use stenograma.Result.{Result}
use stenograma.Value.{
  Value, undefined, null, bool, num, word, text, iso, is_nullish, truthy, int, add_one, is_word,
  processing, completed, failed, cancelled,
}
use stenograma.Job.{
  Key, Obj, key_eq, field, spread, set_field, or_else, assign_if, is_finished, id, schema_version,
  owner_id, owner_kind, tenant_id, idempotency_key, created_at, created_at_old, updated_at,
  started_at, completed_at, status, error, error_message, version,
}
use stenograma.Job.Normalize.{normalize_job}

-- `if (k in job) next.k = job.k`.
abbrev pub keep : Key → Obj → Obj → Obj
keep k job next j = if key_eq j k then or_else (job k) (next k) else next j

-- The era of a record never changes: a legacy record stays without one.
abbrev pub keep_era : Obj → Obj → Obj
keep_era job next j = if key_eq j schema_version then job schema_version else next j

-- `(v ?? 0) + 1`. A text is appended to, and no object's text is made of digits alone.
unfoldable pub version_plus_one : Value → Value
version_plus_one undefined = num (int 1)
version_plus_one null = num (int 1)
version_plus_one (bool false) = num (int 1)
version_plus_one (bool true) = num (int 2)
version_plus_one (num n) = num (add_one n)
version_plus_one (text s) = text (s ++ codes "1")
version_plus_one _ = text (codes "[object Object]1")

-- The patched object before the time stamps.
unfoldable pub patch_fields : Obj → Obj → ℕ → Obj
patch_fields job patch now =
    let next = set_field updated_at (iso now) (spread job patch) in
    let next = set_field id (field id job) next in
    let next = keep owner_kind job (keep owner_id job next) in
    let next = keep_era job next in
    let next = set_field version (version_plus_one (field version job)) next in
    let next = keep idempotency_key job (keep tenant_id job next) in
    keep created_at_old job (keep created_at job next)

-- `started_at` on the way to `processing`, `completed_at` on the way to a terminal status, each once.
unfoldable pub stamp_times : Obj → Obj → ℕ → Obj → Obj
stamp_times job patch now next =
    assign_if (is_finished (field status patch) && not (truthy (field completed_at job)))
      completed_at (iso now)
      (assign_if (is_word processing (field status patch) && not (truthy (field started_at job)))
        started_at (iso now) next)

abbrev pub is_undefined : Value → Bool
is_undefined undefined = true
is_undefined _ = false

-- The old `error` and the new `error_message` follow one another.
unfoldable pub sync_errors : Obj → Obj → Obj
sync_errors patch next =
    assign_if (not (is_undefined (field error_message patch)) && is_undefined (field error patch))
      error (field error_message patch)
      (assign_if
        (not (is_undefined (field error patch)) && is_undefined (field error_message patch))
        error_message (field error patch) next)

unfoldable pub apply_patch : Obj → Obj → ℕ → Result Obj
unfolding patch_fields stamp_times sync_errors
apply_patch job patch now =
    normalize_job (sync_errors patch (stamp_times job patch now (patch_fields job patch now)))
