-- ===== src/Job/Create/Fresh.antt =====
-- What `newJob` (backend/utils/jobStore/common.js) gives a new record, whatever its caller sends.
use stenograma.Prelude.{ℕ, ◌≡◌, refl, ◌∙◌, false, some, Text, arith}
use stenograma.Result.{ok}
use stenograma.Value.{null, bool, num, word, text, int, is_integer, queued}
use stenograma.Value.Coerce.{to_number, reads_true}
use stenograma.Job.{
  Obj, id, schema_version, phase, progress, progress_known, status, result, version, owner_id,
  owner_kind, field,
}
use stenograma.Job.Normalize.{normalize_field_value, normalize_schema_version}
use stenograma.Job.Normalize.Facts.{
  normalize_job-eq-ok, normalized_other, normalized_at, normalize_job-int,
}
use stenograma.Job.Create.{new_job, new_job_literal, current_schema_version, or_null}

-- The start of the life of a record.
pub record IsFresh (i : Text) (fields r : Obj) : Type 0 where
  pub has_id : r id ≡ some (text i)
  pub has_era : r schema_version ≡ some (num (int current_schema_version))
  pub is_queued : r status ≡ some (word queued)
  pub no_phase : r phase ≡ some null
  pub no_progress : r progress ≡ some null
  pub progress_unknown : r progress_known ≡ some (bool false)
  pub no_result : r result ≡ some null
  pub first_version : r version ≡ some (num (int 1))
  pub has_owner_id : r owner_id ≡ some (or_null (field owner_id fields))
  pub has_owner_kind : r owner_kind ≡ some (or_null (field owner_kind fields))

era_kept :
    some (normalize_field_value schema_version (num (int current_schema_version)))
    ≡ some (num (int current_schema_version))
unfolding normalize_field_value normalize_schema_version to_number is_integer
era_kept = refl

unknown_kept : some (normalize_field_value progress_known (bool false)) ≡ some (bool false)
unfolding normalize_field_value reads_true
unknown_kept = refl

-- `newJob` always returns a record, and the caller's fields decide neither its era nor its status,
-- phase, progress, result or version: those are the start of the contract.
pub new_job-IsFresh :
    (i : Text) (now : ℕ) (fields : Obj)
    → (r : Obj) × (new_job i now fields ≡ ok r) × IsFresh i fields r
unfolding new_job
new_job-IsFresh i now fields =
    let (r, e, v) =
      normalize_job-int (new_job_literal i now fields) 1 refl (omega arith) (omega arith) in
    let (accepted, same) = normalize_job-eq-ok _ e in
    (
      r,
      e,
      record {
        has_id = rw (← same) (normalized_other _ id refl);
        has_era = rw (← same) (normalized_at _ schema_version refl ∙ era_kept);
        is_queued = rw (← same) (normalized_other _ status refl);
        no_phase = rw (← same) (normalized_other _ phase refl);
        no_progress = rw (← same) (normalized_other _ progress refl);
        progress_unknown = rw (← same) (normalized_at _ progress_known refl ∙ unknown_kept);
        no_result = rw (← same) (normalized_other _ result refl);
        first_version = v;
        has_owner_id = rw (← same) (normalized_other _ owner_id refl);
        has_owner_kind = rw (← same) (normalized_other _ owner_kind refl);
      },
    )
