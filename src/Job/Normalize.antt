-- ===== src/Job/Normalize.antt =====
-- `normalizeSchemaVersion`, `normalizeFieldValue` and `normalizeJob`
-- (backend/utils/jobStore/common.js): the canonical types of the fields of a job record, and the
-- refusal of an invalid optimistic-lock version.
pub mod Facts
use stenograma.Prelude.{
  ℕ, ◌≡◌, refl, Bool, true, false, ◌&&◌, Option, none, some, List, [], ◌∷◌, Text, length, leb, ltb,
  if◌then◌else◌, pos,
}
use stenograma.Result.{Result, ok, err, invalid_version, guard, ◌>>◌, ◌>>=◌}
use stenograma.Value.{
  Value, Number, nan, infinite, finite, int, undefined, null, bool, num, text, is_nullish,
  is_integer, le_number,
}
use stenograma.Value.Coerce.{to_number, parse_int_or_zero, reads_true, decimal_from, all_digits}
use stenograma.Job.{
  Key, Obj, key_eq, field, set_field, update_field, schema_version, progress_known,
  audio_cleanup_pending, audio_cleanup_attempts, attempt_count, deletion_pending, deletion_attempts,
  version,
}

unfoldable pub normalize_schema_version : Value → Value
normalize_schema_version v =
    if is_nullish v then v else (let n = to_number v in if is_integer n then num n else v)

abbrev pub boolean_fields : List Key
boolean_fields = audio_cleanup_pending ∷ deletion_pending ∷ progress_known ∷ []

abbrev pub number_fields : List Key
number_fields =
    attempt_count ∷ audio_cleanup_attempts ∷ deletion_attempts ∷ schema_version ∷ version ∷ []

-- `KANONINIAI_LAUKAI`.
abbrev pub kanoniniai_laukai : List Key
kanoniniai_laukai =
    audio_cleanup_pending ∷ deletion_pending ∷ progress_known ∷ attempt_count
    ∷ audio_cleanup_attempts ∷ deletion_attempts ∷ schema_version ∷ version ∷ []

-- `set.has(k)`.
abbrev pub has_key : List Key → Key → Bool
has_key [] k = false
has_key (j ∷ ks) k = if key_eq j k then true else has_key ks k

unfoldable pub normalize_field_value : Key → Value → Value
normalize_field_value k v =
    if is_nullish v
    then v
    else (if key_eq k schema_version
        then normalize_schema_version v
        else (if has_key boolean_fields k
            then bool (reads_true v)
            else (if has_key number_fields k then num (parse_int_or_zero v) else v)))

-- `VERSIJOS_LUBOS`, the largest `integer` of PostgreSQL.
abbrev pub versijos_lubos : ℕ
versijos_lubos = 2147483647

-- The number that a supplied version stands for. `Number` of a text of digits is its decimal value.
unfoldable pub version_number : Value → Number
unfolding all_digits
version_number (num n) = n
version_number (text s) = if leb 1 (length s) && all_digits s then int (decimal_from 0 s) else nan
version_number _ = nan

-- A whole number from 1 to `versijos_lubos`.
unfoldable pub version_galioja : Number → Bool
version_galioja n = is_integer n && le_number (int 1) n && le_number n (int versijos_lubos)

-- `for (const laukas of laukai) if (laukas in out) out[laukas] = normalizeFieldValue(laukas, ...)`.
unfoldable pub normalize_fields : List Key → Obj → Obj
normalize_fields [] out = out
normalize_fields (k ∷ ks) out = normalize_fields ks (update_field k (normalize_field_value k) out)

-- A record from before the version column gets 1.
unfoldable pub materialize_version : Obj → Obj
materialize_version out =
    if is_nullish (field version out) then set_field version (num (int 1)) out else out

-- The raw version is tested, not the normalized one.
unfoldable pub version_accepted : Obj → Bool
version_accepted job =
    if is_nullish (field version job)
    then true
    else version_galioja (version_number (field version job))

unfoldable pub normalize_job : Obj → Result Obj
normalize_job job = do
  guard (version_accepted job) invalid_version
  ok (materialize_version (normalize_fields kanoniniai_laukai job))
