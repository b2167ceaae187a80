-- ===== src/JobStore/Defined.antt =====
-- The invariant of the in-memory job store (backend/utils/jobStore/memoryStore.js): every record has
-- the canonical types and stands under its own identifier, once. Every operation keeps it.
use stenograma.Prelude.{
  ℕ, ◌≡◌, refl, sym, ◌∙◌, Option, none, some, Text, Bool-cases, Option-cases, inl, inr,
  if◌then◌else◌,
}
use stenograma.Prelude.Map.{get, Entries, Entries-get, Entries-set}
use stenograma.Result.{Result, ok, err, ok-injective}
use stenograma.Value.{Value, text}
use stenograma.Job.{Obj, id}
use stenograma.Job.Normalize.Facts.{IsCanonical, normalize_job-IsCanonical}
use stenograma.Job.Create.{new_job}
use stenograma.Job.Create.Fresh.{new_job-IsFresh}
use stenograma.Job.Patch.{apply_patch}
use stenograma.Job.Patch.Protected.{apply_patch-IsCanonical, apply_patch-Protected}
use stenograma.Job.Owner.{Scope, matches_owner}
use stenograma.Job.Idempotency.{Answer, proceed, idempotentiskas_atsakymas}
use stenograma.JobPhase.Events.{ProgressEvent, report_progress, finish}
use stenograma.JobStore.{
  Store, create, report_progress_atomic, update, update_owned, finish_atomic, finish_found,
  finish_patch, when_found, update_found, report_found, commit, Reply, missing, forbidden,
  version_conflict,
}

-- What holds of a record under the identifier `k`.
pub record IsRecord (k : Text) (job : Obj) : Type 0 where
  pub canonical : IsCanonical job
  pub own_id : job id ≡ some (text k)

abbrev pub IsStore : Store → Type 0
IsStore jobs = Entries IsRecord jobs

patched_IsRecord :
    (k : Text) (job patch : Obj) (now : ℕ) {r : Obj}
    → IsRecord k job
    → apply_patch job patch now ≡ ok r
    → IsRecord k r
patched_IsRecord k job patch now {r} h e = record {
  canonical = apply_patch-IsCanonical job patch now e;
  own_id = (apply_patch-Protected job patch now e).same_id ∙ rw h.own_id;
}

pub commit-IsStore :
    (k : Text) (jobs : Store) (m : Result Obj)
    → IsStore jobs
    → ((r : Obj) → m ≡ ok r → IsRecord k r)
    → IsStore (commit k jobs m).0
commit-IsStore k jobs (ok r) s h = Entries-set IsRecord k r jobs (h r refl) s
commit-IsStore k jobs (err e) s h = s

commit_patch :
    (k : Text) (jobs : Store) (job patch : Obj) (now : ℕ)
    → IsStore jobs
    → IsRecord k job
    → IsStore (commit k jobs (apply_patch job patch now)).0
commit_patch k jobs job patch now s h =
    commit-IsStore k jobs (apply_patch job patch now) s
      (λ r e. patched_IsRecord k job patch now h e)

pub create-IsStore :
    (k : Text) (now : ℕ) (fields : Obj) (jobs : Store)
    → IsStore jobs
    → IsStore (create k now fields jobs).0
unfolding create new_job
create-IsStore k now fields jobs s =
    let (r, e, fresh) = new_job-IsFresh k now fields in
    commit-IsStore k jobs (new_job k now fields) s (λ q same. record {
      canonical = normalize_job-IsCanonical _ same;
      own_id = rw (ok-injective q r (sym same ∙ e)) fresh.has_id;
    })

-- An operation that reads the record first: its two cases.
pub on_record :
    (k : Text) (jobs : Store) (act : Obj → Store × Result Reply) (other : Store × Result Reply)
    → IsStore other.0
    → ((job : Obj) → get k jobs ≡ some job → IsStore (act job).0)
    → IsStore (when_found (get k jobs) other act).0
on_record k jobs act other s h = elim (Option-cases (get k jobs)) [
  | inl none_there ↦ rw none_there s
  | inr (job, there) ↦ rw there (h job there)
]

module _ (k : Text) (now : ℕ) (jobs : Store) (s : IsStore jobs) where
  record_of : (job : Obj) → get k jobs ≡ some job → IsRecord k job
  record_of job there = Entries-get IsRecord k jobs s there

  update_found-IsStore :
      (patch : Obj) (expected : Value) (job : Obj)
      → get k jobs ≡ some job
      → IsStore (update_found k patch expected now jobs job).0
  unfolding update_found
  update_found-IsStore patch expected job there =
      elim (Bool-cases (version_conflict expected job)) [
        | inl stale ↦ rw stale s
        | inr current ↦ rw current (commit_patch k jobs job patch now s (record_of job there))
      ]

  pub update-IsStore :
      (patch : Obj) (expected : Value) → IsStore (update k patch expected now jobs).0
  unfolding update
  update-IsStore patch expected =
      on_record k jobs (λ job. update_found k patch expected now jobs job) (jobs, ok missing) s
        (update_found-IsStore patch expected)

  pub update_owned-IsStore :
      (patch : Obj) (scope : Scope) (expected : Value)
      → IsStore (update_owned k patch scope expected now jobs).0
  unfolding update_owned
  update_owned-IsStore patch scope expected =
      on_record k jobs
        (λ job.
          if matches_owner job scope
          then update_found k patch expected now jobs job
          else (jobs, ok forbidden))
        (jobs, ok missing) s
        (λ job there. elim (Bool-cases (matches_owner job scope)) [
          | inl own ↦ rw own (update_found-IsStore patch expected job there)
          | inr foreign ↦ rw foreign s
        ])

  report_found-IsStore :
      (job : Obj) (m : Result (Option Obj))
      → get k jobs ≡ some job
      → IsStore (report_found k now jobs job m).0
  report_found-IsStore job (err e) there = s
  report_found-IsStore job (ok none) there = s
  report_found-IsStore job (ok (some patch)) there =
      commit_patch k jobs job patch now s (record_of job there)

  pub report_progress_atomic-IsStore :
      (e : Option ProgressEvent) → IsStore (report_progress_atomic k e now jobs).0
  unfolding report_progress_atomic
  report_progress_atomic-IsStore e =
      on_record k jobs (λ job. report_found k now jobs job (report_progress job e))
        (jobs, ok missing) s (λ job there. report_found-IsStore job (report_progress job e) there)

  finish_patch-IsStore :
      (job : Obj) (m : Result Obj)
      → get k jobs ≡ some job
      → IsStore (finish_patch k now jobs job m).0
  finish_patch-IsStore job (err e) there = s
  finish_patch-IsStore job (ok patch) there =
      commit_patch k jobs job patch now s (record_of job there)

  finish_found-IsStore :
      (status : Value) (extra job : Obj) (answer : Answer)
      → get k jobs ≡ some job
      → IsStore (finish_found k status extra now jobs job answer).0
  finish_found-IsStore status extra job proceed there =
      finish_patch-IsStore job (finish job status extra) there
  finish_found-IsStore status extra job _ there = s

  pub finish_atomic-IsStore :
      (status : Value) (extra : Obj) → IsStore (finish_atomic k status extra now jobs).0
  unfolding finish_atomic
  finish_atomic-IsStore status extra =
      on_record k jobs
        (λ job.
          finish_found k status extra now jobs job (idempotentiskas_atsakymas job status extra))
        (jobs, ok missing) s
        (λ job there.
          finish_found-IsStore status extra job (idempotentiskas_atsakymas job status extra) there)
