-- ===== src/JobStore/Runs/Safety.antt =====
-- What every sequence of operations on the in-memory job store keeps
-- (backend/utils/jobStore/memoryStore.js).
use stenograma.Prelude.{refl, List, [], ◌∷◌, Text, Bool-cases, Option-cases, inl, inr}
use stenograma.Prelude.Map.{get, Entries-delete}
use stenograma.Value.{text}
use stenograma.Job.{Obj, set_field, id}
use stenograma.Job.Normalize.{normalize_job}
use stenograma.Job.Normalize.Facts.{
  normalize_job-IsCanonical, normalize_job-eq-ok, normalized_other,
}
use stenograma.Job.Owner.{Scope, matches_owner}
use stenograma.JobStore.{Store, restore_record, remove, remove_owned, close}
use stenograma.JobStore.Sweep.{sweep_expired-Entries}
use stenograma.JobStore.Defined.{
  IsStore, IsRecord, commit-IsStore, create-IsStore, update-IsStore, update_owned-IsStore,
  report_progress_atomic-IsStore, finish_atomic-IsStore,
}
use stenograma.JobStore.Runs.{
  Operation, creating, updating, updating_owned, reporting, finishing, restoring, removing,
  removing_owned, sweeping, closing, perform, run,
}

restore_record-IsStore :
    (k : Text) (job : Obj) (jobs : Store)
    → IsStore jobs
    → IsStore (restore_record k (set_field id (text k) job) jobs).0
unfolding restore_record
restore_record-IsStore k job jobs s =
    commit-IsStore k jobs (normalize_job (set_field id (text k) job)) s (λ r e. record {
      canonical = normalize_job-IsCanonical _ e;
      own_id =
          let (accepted, same) = normalize_job-eq-ok _ e in
          rw (← same) (normalized_other _ id refl);
    })

remove_owned-IsStore :
    (k : Text) (scope : Scope) (jobs : Store) → IsStore jobs → IsStore (remove_owned k scope jobs).0
unfolding remove_owned
remove_owned-IsStore k scope jobs s = elim (Option-cases (get k jobs)) [
  | inl none_there ↦ rw none_there s
  | inr (job, there) ↦ rw there (elim (Bool-cases (matches_owner job scope)) [
    | inl own ↦ rw own (Entries-delete IsRecord k jobs s)
    | inr foreign ↦ rw foreign s
  ])
]

perform-IsStore : (o : Operation) (jobs : Store) → IsStore jobs → IsStore (perform o jobs)
unfolding perform remove close
perform-IsStore (creating k now fields) jobs s = create-IsStore k now fields jobs s
perform-IsStore (updating k patch expected now) jobs s = update-IsStore k now jobs s patch expected
perform-IsStore (updating_owned k patch scope expected now) jobs s =
    update_owned-IsStore k now jobs s patch scope expected
perform-IsStore (reporting k e now) jobs s = report_progress_atomic-IsStore k now jobs s e
perform-IsStore (finishing k t extra now) jobs s = finish_atomic-IsStore k now jobs s t extra
perform-IsStore (restoring k job) jobs s = restore_record-IsStore k job jobs s
perform-IsStore (removing k) jobs s = Entries-delete IsRecord k jobs s
perform-IsStore (removing_owned k scope) jobs s = remove_owned-IsStore k scope jobs s
perform-IsStore (sweeping now ttl) jobs s = sweep_expired-Entries now ttl IsRecord jobs s
perform-IsStore closing jobs s = tt

-- A store in which every record has the canonical types and stands once, under its own identifier,
-- is such a store after every sequence of operations, failed ones included.
pub run-IsStore : (os : List Operation) (jobs : Store) → IsStore jobs → IsStore (run os jobs)
unfolding run
run-IsStore [] jobs s = s
run-IsStore (o ∷ os) jobs s = run-IsStore os (perform o jobs) (perform-IsStore o jobs s)
