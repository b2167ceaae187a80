-- ===== src/Job.antt =====
-- The job record, as an object of the language: a function from property names to the value that
-- stands there, `none` where the object has no such property (`k in job`). From
-- backend/utils/jobStore/common.js; the children hold its creation, its patches, its owner and the
-- comparison of results.
mod Tests
pub mod Normalize
pub mod Create
pub mod Patch
pub mod Owner
pub mod Kanonas
pub mod Idempotency
use stenograma.Prelude.{
  ℕ, ◌+◌, ◌≡◌, refl, Bool, true, false, ◌&&◌, ◌||◌, Option, none, some, ◌==◌, if◌then◌else◌,
}
use stenograma.Value.{Value, Word, undefined, null, word, completed, failed, cancelled, truthy}

-- The property names; `other n` is any name that no code of the store reads.
pub data Key : Type 0 where
  id schema_version type storage_key request_id phase progress progress_known : Key
  owner_id owner_kind tenant_id idempotency_key actor actor_role actor_source artefacts : Key
  audio_cleanup_pending audio_cleanup_attempts status result error error_code error_message : Key
  attempt_count created_at started_at completed_at version created_at_old updated_at : Key
  deletion_pending deletion_attempts : Key
  other : ℕ → Key

abbrev pub key_code : Key → ℕ
key_code id = 0
key_code schema_version = 1
key_code type = 2
key_code storage_key = 3
key_code request_id = 4
key_code phase = 5
key_code progress = 6
key_code progress_known = 7
key_code owner_id = 8
key_code owner_kind = 9
key_code tenant_id = 10
key_code idempotency_key = 11
key_code actor = 12
key_code actor_role = 13
key_code actor_source = 14
key_code artefacts = 15
key_code audio_cleanup_pending = 16
key_code audio_cleanup_attempts = 17
key_code status = 18
key_code result = 19
key_code error = 20
key_code error_code = 21
key_code error_message = 22
key_code attempt_count = 23
key_code created_at = 24
key_code started_at = 25
key_code completed_at = 26
key_code version = 27
key_code created_at_old = 28
key_code updated_at = 29
key_code deletion_pending = 30
key_code deletion_attempts = 31
key_code (other n) = 32 + n

abbrev pub key_eq : Key → Key → Bool
key_eq j k = key_code j == key_code k

abbrev pub Obj : Type 0
Obj = Key → Option Value

abbrev pub empty : Obj
empty k = none

abbrev pub or_undefined : Option Value → Value
or_undefined none = undefined
or_undefined (some v) = v

-- `o.k`.
abbrev pub field : Key → Obj → Value
field k o = or_undefined (o k)

abbrev pub or_else : Option Value → Option Value → Option Value
or_else (some v) d = some v
or_else none d = d

-- `{ ...o, ...p }`.
abbrev pub spread : Obj → Obj → Obj
spread o p k = or_else (p k) (o k)

-- `o.k = v`.
abbrev pub set_field : Key → Value → Obj → Obj
set_field k v o j = if key_eq j k then some v else o j

-- `if (b) o.k = v`.
abbrev pub assign_if : Bool → Key → Value → Obj → Obj
assign_if b k v o j = if key_eq j k && b then some v else o j

-- `delete o.k`.
abbrev pub remove_field : Key → Obj → Obj
remove_field k o j = if key_eq j k then none else o j

abbrev pub map_option : (Value → Value) → Option Value → Option Value
map_option f none = none
map_option f (some v) = some (f v)

-- `if (k in o) o.k = f(o.k)`.
abbrev pub update_field : Key → (Value → Value) → Obj → Obj
update_field k f o j = if key_eq j k then map_option f (o j) else o j

-- `isFinished(status)`.
abbrev pub is_finished : Value → Bool
is_finished (word completed) = true
is_finished (word failed) = true
is_finished (word cancelled) = true
is_finished _ = false

-- `hasPendingCleanup(job)`.
unfoldable pub has_pending_cleanup : Obj → Bool
has_pending_cleanup job =
    truthy (field audio_cleanup_pending job) || truthy (field deletion_pending job)
