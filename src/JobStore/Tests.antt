-- ===== src/JobStore/Tests.antt =====
-- Concrete runs of the in-memory job store (backend/utils/jobStore/memoryStore.js).
use stenograma.Prelude.{
  ℕ, ◌≡◌, refl, true, some, List, [], ◌∷◌, Text, codes, ◌≤◌, text_eq, arith, if◌then◌else◌,
}
use stenograma.Prelude.Map.{get, set, has}
use stenograma.Result.{Result, ok}
use stenograma.Value.{
  undefined, bool, word, num, text, iso, int, user, processing, completed, failed, transcription,
  merging, is_integer, le_number, add_one, truthy, strict_eq, strict_eq_number,
}
use stenograma.Job.{
  Obj, field, set_field, empty, id, version, owner_id, owner_kind, status, type, phase, result,
  updated_at, has_pending_cleanup, deletion_pending,
}
use stenograma.Job.Normalize.{
  normalize_job, version_accepted, version_galioja, version_number, normalize_fields,
  normalize_field_value, materialize_version,
}
use stenograma.Job.Normalize.Facts.{IsVersion}
use stenograma.Job.Patch.{apply_patch, patch_fields, stamp_times, sync_errors, version_plus_one}
use stenograma.Job.Kanonas.{same_result}
use stenograma.Job.Idempotency.{idempotentiskas_atsakymas, result_conflict}
use stenograma.JobPhase.{assert_consistent_job_record}
use stenograma.JobPhase.Events.{finish}
use stenograma.JobStore.{
  Store, Reply, found, concurrency_conflict, verdict, update, update_found, version_conflict,
  finish_atomic, sweep_expired,
}
use stenograma.JobStore.Locking.{update_once}
use stenograma.JobStore.Finishing.{finish_atomic_retry, finish_atomic-terminal}
use stenograma.JobStore.Sweep.{sweep_expired_spares}
use stenograma.JobStore.Defined.{IsStore}
use stenograma.JobStore.Runs.{
  Operation, creating, updating, finishing, removing, run, any_replaces, replaces,
}
use stenograma.JobStore.Runs.Safety.{run-IsStore}
use stenograma.JobStore.Runs.History.{run_keeps_owner}

abbrev j1 : Text
j1 = codes "j1"

abbrev job : Obj
job = set_field id (text j1) (
    set_field version (num (int 1)) (
      set_field type (word transcription) (
        set_field phase (word merging) (
          set_field status (word processing)
            (set_field owner_id (text (codes "u1")) (set_field owner_kind (word user) empty))))))

abbrev jobs : Store
jobs = (j1, job) ∷ []

abbrev patch : Obj
patch = set_field type (word transcription) empty

abbrev reply_record : Result Reply → Obj
reply_record (ok (found r)) = r
reply_record _ = empty

update_once_example :
    update j1 patch (num (int 1)) 9 (update j1 patch (num (int 1)) 8 jobs).0
    ≡ ((update j1 patch (num (int 1)) 8 jobs).0, ok concurrency_conflict)
unfolding update update_found version_conflict strict_eq strict_eq_number get set text_eq
    apply_patch normalize_job version_accepted version_galioja version_number is_integer le_number
    patch_fields stamp_times sync_errors version_plus_one add_one
update_once_example =
    update_once j1 patch patch 8 9 1 jobs
      {r = reply_record (update j1 patch (num (int 1)) 8 jobs).1} refl

abbrev outcome : Obj
outcome = set_field result (text (codes "text")) empty

abbrev other_outcome : Obj
other_outcome = set_field result (text (codes "else")) empty

abbrev after_finish : Store × Result Reply
after_finish = finish_atomic j1 (word completed) outcome 8 jobs

finish_atomic_retry_example :
    (finish_atomic j1 (word completed) outcome 9 after_finish.0
      ≡ (after_finish.0, ok (found (reply_record after_finish.1))))
    × (finish_atomic j1 (word completed) other_outcome 9 after_finish.0 ≡ (
      after_finish.0,
      ok (
          if same_result (field result other_outcome) (field result (reply_record after_finish.1))
          then found (reply_record after_finish.1)
          else verdict result_conflict),
    ))
unfolding finish_atomic idempotentiskas_atsakymas finish assert_consistent_job_record get set
    text_eq apply_patch normalize_job version_accepted version_galioja version_number is_integer
    le_number patch_fields stamp_times sync_errors version_plus_one add_one normalize_fields
    materialize_version normalize_field_value
finish_atomic_retry_example = finish_atomic_retry j1 outcome other_outcome 8 9 jobs refl refl

abbrev finished_job : Obj
finished_job = set_field status (word completed) (set_field updated_at (iso 5) job)

finish_atomic-terminal_example :
    (finish_atomic j1 (word failed) empty 9 ((j1, finished_job) ∷ [])).0 ≡ (j1, finished_job) ∷ []
unfolding get text_eq
finish_atomic-terminal_example =
    finish_atomic-terminal j1 (word failed) empty 9 ((j1, finished_job) ∷ []) refl refl

abbrev Any : Text → Obj → Type 0
Any k v = Unit

abbrev pending_job : Obj
pending_job = set_field deletion_pending (bool true) finished_job

sweep_expired_spares_example :
    get j1 (sweep_expired 900 60 ((j1, pending_job) ∷ [])).0 ≡ some pending_job
unfolding get has text_eq has_pending_cleanup truthy
sweep_expired_spares_example =
    sweep_expired_spares 900 60 Any j1 ((j1, pending_job) ∷ []) (tt, refl, tt) refl refl

run-IsStore_example :
    IsStore (run (creating j1 7 empty ∷ updating j1 patch undefined 8 ∷ removing j1 ∷ []) [])
run-IsStore_example =
    run-IsStore (creating j1 7 empty ∷ updating j1 patch undefined 8 ∷ removing j1 ∷ []) [] tt

abbrev busy : List Operation
busy =
    updating j1 patch undefined 8
    ∷ creating (codes "j2") 9 empty
    ∷ finishing j1 (word failed) empty 9
    ∷ []

run_keeps_owner_example :
    (r : Obj) × (m : ℕ) × (get j1 (run busy jobs) ≡ some r)
    × IsVersion r m
    × (1 ≤ m)
    × (r owner_id ≡ some (text (codes "u1")))
    × (r owner_kind ≡ some (word user))
unfolding get text_eq replaces any_replaces
run_keeps_owner_example =
    run_keeps_owner j1 busy jobs 1 (text (codes "u1")) (word user) refl refl
      (refl, omega arith, omega arith) refl refl
