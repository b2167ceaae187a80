-- ===== src/JobStore.antt =====
-- The in-memory job store (backend/utils/jobStore/memoryStore.js). The module's `jobs` map is passed
-- in and returned; an operation that throws returns the error and the map as it was. The clock, the
-- fresh identifiers and `TTL_MS` are arguments.
mod Tests
pub mod Sweep
pub mod Defined
pub mod Locking
pub mod Finishing
pub mod Runs
use stenograma.Prelude.{
  ℕ, zero, suc, ◌+◌, ◌≡◌, refl, Bool, true, false, ◌&&◌, ◌||◌, not, Option, none, some, List, [],
  ◌∷◌, map, Text, ltb, leb, ◌==◌, if◌then◌else◌, pos, negsuc, length,
}
use stenograma.Prelude.Map.{Map, get, set, delete, has}
use stenograma.Result.{Result, ok, err}
use stenograma.Value.{Value, undefined, null, bool, num, iso, text, finite, truthy, strict_eq}
use stenograma.Job.{
  Key, Obj, field, id, version, updated_at, status, storage_key, is_finished, has_pending_cleanup,
}
use stenograma.Job.Create.{new_job}
use stenograma.Job.Patch.{apply_patch, is_undefined}
use stenograma.Job.Normalize.{normalize_job}
use stenograma.Job.Owner.{Scope, matches_owner}
use stenograma.Job.Idempotency.{
  Answer, proceed, same_job, idempotentiskas_atsakymas, metaduomenu_projekcija,
}
use stenograma.JobPhase.Events.{ProgressEvent, report_progress, finish}

abbrev pub Store : Type 0
Store = Map Obj

-- What an operation answers: `null`, a record, or one of the store's marks.
pub data Reply : Type 0 where
  missing forbidden concurrency_conflict rejected : Reply
  found : Obj → Reply
  verdict : Answer → Reply

-- `const job = jobs.get(id); if (!job) return d;`, and what follows for a record that is there.
abbrev pub when_found {ℓ} : {A : Type ℓ} → Option Obj → A → (Obj → A) → A
when_found none d f = d
when_found (some job) d f = f job

-- `jobs.set(id, next); return next;` behind a computation that may throw.
abbrev pub commit : Text → Store → Result Obj → Store × Result Reply
commit k jobs (ok next) = (set k next jobs, ok (found next))
commit k jobs (err e) = (jobs, err e)

unfoldable pub create : Text → ℕ → Obj → Store → Store × Result Reply
create k now fields jobs = commit k jobs (new_job k now fields)

-- `hydrate`: the whole record, or its metadata.
abbrev pub projected : Bool → Obj → Obj
projected true job = job
projected false job = metaduomenu_projekcija job

-- `get(id, { hydrate })`.
unfoldable pub get_job : Text → Bool → Store → Reply
get_job k hydrate jobs = when_found (get k jobs) missing (λ job. found (projected hydrate job))

abbrev pub report_found : Text → ℕ → Store → Obj → Result (Option Obj) → Store × Result Reply
report_found k now jobs job (err e) = (jobs, err e)
report_found k now jobs job (ok none) = (jobs, ok rejected)
report_found k now jobs job (ok (some patch)) = commit k jobs (apply_patch job patch now)

-- `reportProgressAtomic(id, event)`.
unfoldable pub report_progress_atomic :
    Text → Option ProgressEvent → ℕ → Store → Store × Result Reply
report_progress_atomic k e now jobs =
    when_found (get k jobs) (jobs, ok missing)
      (λ job. report_found k now jobs job (report_progress job e))

-- `options.expectedVersion !== undefined && job.version !== options.expectedVersion`.
unfoldable pub version_conflict : Value → Obj → Bool
version_conflict expected job =
    not (is_undefined expected) && not (strict_eq (field version job) expected)

unfoldable pub update_found : Text → Obj → Value → ℕ → Store → Obj → Store × Result Reply
update_found k patch expected now jobs job =
    if version_conflict expected job
    then (jobs, ok concurrency_conflict)
    else commit k jobs (apply_patch job patch now)

-- `update(id, patch, { expectedVersion })`.
unfoldable pub update : Text → Obj → Value → ℕ → Store → Store × Result Reply
unfolding update_found
update k patch expected now jobs =
    when_found (get k jobs) (jobs, ok missing) (λ job. update_found k patch expected now jobs job)

-- `getOwned(id, scope, { hydrate })`.
unfoldable pub get_owned : Text → Scope → Bool → Store → Reply
get_owned k scope hydrate jobs =
    when_found (get k jobs) missing
      (λ job. if matches_owner job scope then found (projected hydrate job) else forbidden)

-- `updateOwned(id, patch, scope, { expectedVersion })`: ownership first, the version after it.
unfoldable pub update_owned : Text → Obj → Scope → Value → ℕ → Store → Store × Result Reply
unfolding update_found
update_owned k patch scope expected now jobs =
    when_found (get k jobs) (jobs, ok missing)
      (λ job.
        if matches_owner job scope
        then update_found k patch expected now jobs job
        else (jobs, ok forbidden))

-- What a removal answers: whether it removed, or `"FORBIDDEN"`.
pub data Removal : Type 0 where
  removed : Bool → Removal
  removal_forbidden : Removal

unfoldable pub remove_owned : Text → Scope → Store → Store × Removal
remove_owned k scope jobs =
    when_found (get k jobs) (jobs, removed false)
      (λ job.
        if matches_owner job scope
        then (delete k jobs, removed true)
        else (jobs, removal_forbidden))

-- `now - new Date(v).getTime() > ttl`; a text that is no ISO instant has no time.
unfoldable pub is_older : ℕ → ℕ → Value → Bool
is_older now ttl (iso t) = ltb (t + ttl) now
is_older now ttl null = ltb ttl now
is_older now ttl (bool false) = ltb ttl now
is_older now ttl (bool true) = ltb (1 + ttl) now
is_older now ttl (num (finite (pos n) f)) = ltb (n + ttl) now
is_older now ttl (num (finite (negsuc n) f)) = ltb ttl (now + n + (if f == 0 then 1 else 0))
is_older now ttl _ = false

-- The predicate that `listExpired` and `sweepExpired` share.
unfoldable pub is_expired : ℕ → ℕ → Obj → Bool
is_expired now ttl job =
    not (has_pending_cleanup job)
    && (is_finished (field status job) && is_older now ttl (field updated_at job))

-- `listExpired(now, limit)`: the loop with what is left of the limit.
unfoldable pub list_expired : ℕ → ℕ → ℕ → Store → List Text
list_expired now ttl room [] = []
list_expired now ttl zero ((k, job) ∷ jobs) = []
list_expired now ttl (suc room) ((k, job) ∷ jobs) =
    let taken = k ∷ list_expired now ttl room jobs in
    let passed = list_expired now ttl (suc room) jobs in
    if is_expired now ttl job then taken else passed

-- `sweepExpired(now)`: what stays, and how many were removed.
unfoldable pub sweep_expired : ℕ → ℕ → Store → Store × ℕ
sweep_expired now ttl [] = ([], 0)
sweep_expired now ttl ((k, job) ∷ jobs) =
    let (kept, n) = sweep_expired now ttl jobs in
    if is_expired now ttl job then (kept, n + 1) else ((k, job) ∷ kept, n)

unfoldable pub size : Store → ℕ
size jobs = length jobs

-- `set.add(v)`.
abbrev pub add_value : Value → List Value → List Value
add_value v [] = v ∷ []
add_value v (w ∷ ws) = if strict_eq w v then w ∷ ws else w ∷ add_value v ws

-- The loop of `listReferencedStorageKeys`.
unfoldable pub storage_keys : List Value → Store → List Value
storage_keys keys [] = keys
storage_keys keys ((k, job) ∷ jobs) =
    storage_keys
      (if truthy (field storage_key job) then add_value (field storage_key job) keys else keys) jobs

unfoldable pub list_referenced_storage_keys : Store → List Value
unfolding storage_keys
list_referenced_storage_keys jobs = storage_keys [] jobs

-- `restoreRecord(job)` for a record whose identifier is the text `k`.
unfoldable pub restore_record : Text → Obj → Store → Store × Result Reply
restore_record k job jobs = commit k jobs (normalize_job job)

abbrev pub finish_patch : Text → ℕ → Store → Obj → Result Obj → Store × Result Reply
finish_patch k now jobs job (err e) = (jobs, err e)
finish_patch k now jobs job (ok patch) = commit k jobs (apply_patch job patch now)

abbrev pub finish_found : Text → Value → Obj → ℕ → Store → Obj → Answer → Store × Result Reply
finish_found k s extra now jobs job proceed = finish_patch k now jobs job (finish job s extra)
finish_found k s extra now jobs job same_job = (jobs, ok (found job))
finish_found k s extra now jobs job answer = (jobs, ok (verdict answer))

-- `finishAtomic(id, status, extra)`.
unfoldable pub finish_atomic : Text → Value → Obj → ℕ → Store → Store × Result Reply
finish_atomic k s extra now jobs =
    when_found (get k jobs) (jobs, ok missing)
      (λ job. finish_found k s extra now jobs job (idempotentiskas_atsakymas job s extra))

abbrev pub records : Store → List Obj
records [] = []
records ((k, job) ∷ jobs) = job ∷ records jobs

-- `listAll({ hydrate })`.
unfoldable pub list_all : Bool → Store → List Obj
list_all hydrate jobs = map (projected hydrate) (records jobs)

-- The loop of `listByFlag`, with the number of records listed so far; the limit is looked at after
-- each record.
unfoldable pub list_by_flag_from : Key → ℕ → ℕ → Store → List Obj
list_by_flag_from flag limit n [] = []
list_by_flag_from flag limit n ((k, job) ∷ jobs) =
    let n' = if truthy (field flag job) then n + 1 else n in
    let rest = list_by_flag_from flag limit n' jobs in
    let tail = if leb limit n' then [] else rest in
    if truthy (field flag job) then metaduomenu_projekcija job ∷ tail else tail

-- `listByFlag(field, limit)`.
unfoldable pub list_by_flag : Key → ℕ → Store → List Obj
unfolding list_by_flag_from
list_by_flag flag limit jobs = list_by_flag_from flag limit 0 jobs

-- `remove(id)`.
unfoldable pub remove : Text → Store → Store × Bool
remove k jobs = (delete k jobs, has k jobs)

-- `close()`.
unfoldable pub close : Store → Store
close jobs = []
