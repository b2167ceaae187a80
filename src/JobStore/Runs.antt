-- ===== src/JobStore/Runs.antt =====
-- Sequences of operations on the in-memory job store (backend/utils/jobStore/memoryStore.js), each the
-- whole call, whatever it answers.
pub mod Safety
pub mod History
use stenograma.Prelude.{ℕ, Bool, true, false, Option, List, [], ◌∷◌, Text, text_eq, if◌then◌else◌}
use stenograma.Value.{Value, text}
use stenograma.Job.{Obj, set_field, id}
use stenograma.Job.Owner.{Scope}
use stenograma.JobPhase.Events.{ProgressEvent}
use stenograma.JobStore.{
  Store, create, update, update_owned, report_progress_atomic, finish_atomic, restore_record,
  remove, remove_owned, sweep_expired, close,
}

pub data Operation : Type 0 where
  creating : Text → ℕ → Obj → Operation
  updating : Text → Obj → Value → ℕ → Operation
  updating_owned : Text → Obj → Scope → Value → ℕ → Operation
  reporting : Text → Option ProgressEvent → ℕ → Operation
  finishing : Text → Value → Obj → ℕ → Operation
  restoring : Text → Obj → Operation
  removing : Text → Operation
  removing_owned : Text → Scope → Operation
  sweeping : ℕ → ℕ → Operation
  closing : Operation

-- The store after an operation. A record is restored under its own identifier.
unfoldable pub perform : Operation → Store → Store
perform (creating k now fields) jobs = (create k now fields jobs).0
perform (updating k patch expected now) jobs = (update k patch expected now jobs).0
perform (updating_owned k patch scope expected now) jobs =
    (update_owned k patch scope expected now jobs).0
perform (reporting k e now) jobs = (report_progress_atomic k e now jobs).0
perform (finishing k s extra now) jobs = (finish_atomic k s extra now jobs).0
perform (restoring k job) jobs = (restore_record k (set_field id (text k) job) jobs).0
perform (removing k) jobs = (remove k jobs).0
perform (removing_owned k scope) jobs = (remove_owned k scope jobs).0
perform (sweeping now ttl) jobs = (sweep_expired now ttl jobs).0
perform closing jobs = close jobs

unfoldable pub run : List Operation → Store → Store
unfolding perform
run [] jobs = jobs
run (o ∷ os) jobs = run os (perform o jobs)

-- Whether the operation may put another record in the place of `k`, or take it away.
unfoldable pub replaces : Text → Operation → Bool
replaces k (creating j now fields) = text_eq j k
replaces k (restoring j job) = text_eq j k
replaces k (removing j) = text_eq j k
replaces k (removing_owned j scope) = text_eq j k
replaces k (sweeping now ttl) = true
replaces k closing = true
replaces k _ = false

unfoldable pub any_replaces : Text → List Operation → Bool
unfolding replaces
any_replaces k [] = false
any_replaces k (o ∷ os) = if replaces k o then true else any_replaces k os
