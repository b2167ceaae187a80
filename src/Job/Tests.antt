-- ===== src/Job/Tests.antt =====
-- Concrete job records (backend/utils/jobStore/common.js).
use stenograma.Prelude.{ℕ, ◌≡◌, refl, ◌↔◌, true, codes, text_eq}
use stenograma.Result.{Result, ok, err}
use stenograma.Value.{
  Value, null, bool, word, num, text, obj, member, end, int, user, processing, is_integer,
  le_number, add_one,
}
use stenograma.Job.{Obj, set_field, empty, id, version, owner_id, owner_kind, status}
use stenograma.Job.Normalize.{normalize_job, version_accepted, version_galioja, version_number}
use stenograma.Job.Create.{new_job}
use stenograma.Job.Create.Fresh.{IsFresh, new_job-IsFresh}
use stenograma.Job.Patch.{apply_patch, patch_fields, stamp_times, sync_errors, version_plus_one}
use stenograma.Job.Patch.Protected.{Protected, apply_patch-Protected}
use stenograma.Job.Owner.{matches_owner}
use stenograma.Job.Owner.Exclusive.{session_user, shared_key, scope_of, matches_owner-new_job}
use stenograma.Job.Kanonas.{same_result}
use stenograma.Job.Kanonas.Reorder.{in_obj, swapped, same_result-Reordered}

abbrev fields : Obj
fields = set_field owner_id (text (codes "u1")) (set_field owner_kind (word user) empty)

abbrev job_at : ℕ → Obj
job_at n = set_field id (text (codes "j1")) (set_field version (num (int n)) fields)

abbrev patch : Obj
patch = set_field owner_id (text (codes "u2")) (set_field status (word processing) empty)

abbrev record_of : Result Obj → Obj
record_of (ok r) = r
record_of (err e) = empty

new_job-IsFresh_example :
    (r : Obj) × (new_job (codes "j1") 7 fields ≡ ok r) × IsFresh (codes "j1") fields r
new_job-IsFresh_example = new_job-IsFresh (codes "j1") 7 fields

apply_patch-Protected_example :
    Protected (job_at 4) patch (record_of (apply_patch (job_at 4) patch 9))
unfolding apply_patch normalize_job version_accepted version_galioja version_number is_integer
    le_number patch_fields stamp_times sync_errors version_plus_one add_one
apply_patch-Protected_example = apply_patch-Protected (job_at 4) patch 9 refl

matches_owner-new_job_example :
    (r : Obj) × (new_job (codes "j1") 7 fields ≡ ok r)
    × ((matches_owner r (scope_of shared_key) ≡ true) ↔ (session_user (codes "u1") ≡ shared_key))
matches_owner-new_job_example =
    matches_owner-new_job (session_user (codes "u1")) shared_key (codes "j1") 7 fields (refl, refl)

abbrev both : Value
both = obj (member (codes "a") null (member (codes "b") (bool true) end))

abbrev both_turned : Value
both_turned = obj (member (codes "b") (bool true) (member (codes "a") null end))

same_result-Reordered_example : same_result both both_turned ≡ true
unfolding text_eq
same_result-Reordered_example = same_result-Reordered both both_turned (in_obj (swapped refl))
