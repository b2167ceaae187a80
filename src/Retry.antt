-- ===== src/Retry.antt =====
-- The schedule of repeated erasures (backend/utils/deletionRetry.js). Instants are milliseconds, and one that
-- is missing or no date is `none`; what the other parts answer for a job is an argument.
mod Tests
pub mod Counter
use stenograma.Prelude.{
  ℕ, ◌+◌, ◌-◌, ◌*◌, ◌^◌, min, max, Bool, true, false, Option, none, some, List, [], ◌∷◌, Text, leb,
  if◌then◌else◌,
}
use stenograma.Prelude.Map.{Map, get, set, delete}
use stenograma.Tombstones.{Status, failed, status_eq}

-- `MAX_BACKOFF_MULTIPLIER`.
abbrev pub max_backoff_multiplier : ℕ
max_backoff_multiplier = 32

-- `_backoffMs(attempts, baseMs)`.
unfoldable pub backoff_ms : ℕ → ℕ → ℕ
backoff_ms attempts base = base * min (2 ^ (attempts - 1)) max_backoff_multiplier

-- An entry of `atsarginiaiBandymai`, which holds what the store of jobs could not be told.
pub record Bandymas : Type 0 where
  pub attempts : ℕ
  pub next_attempt_at : ℕ

-- The entries for one field, by job.
abbrev pub Atsarginiai : Type 0
Atsarginiai = Map Bandymas

-- What the job's record says of its erasure.
pub record Pending : Type 0 where
  pub id : Text
  pub deletion_attempts : ℕ
  pub deletion_next_attempt_at : Option ℕ

abbrev pub due_by : Option ℕ → Option Bandymas → ℕ → Bool
due_by none none now = true
due_by (some t) none now = leb t now
due_by none (some b) now = leb b.next_attempt_at now
due_by (some t) (some b) now = leb (max t b.next_attempt_at) now

-- `_isDue(job, "deletion_next_attempt_at", now)`.
unfoldable pub is_due : Pending → ℕ → Atsarginiai → Bool
is_due job now atsarginiai = due_by job.deletion_next_attempt_at (get job.id atsarginiai) now

abbrev pub attempts_of : Option Bandymas → ℕ
attempts_of none = 0
attempts_of (some b) = b.attempts

-- `_bandymųSkaičius(job, "deletion_attempts")`.
unfoldable pub bandymu_skaicius : Pending → Atsarginiai → ℕ
bandymu_skaicius job atsarginiai =
    max job.deletion_attempts (attempts_of (get job.id atsarginiai)) + 1

-- `_išsaugotiBandymą(jobId, laukas, patch, attempts)`, where the flag says that the store took the patch.
unfoldable pub issaugoti_bandyma : Bool → Text → ℕ → ℕ → Atsarginiai → Atsarginiai
issaugoti_bandyma true k attempts next atsarginiai = delete k atsarginiai
issaugoti_bandyma false k attempts next atsarginiai =
    set k (record { attempts = attempts; next_attempt_at = next }) atsarginiai

-- What the other parts answer for a job: the status of its mark, whether its erasure failed critically,
-- and whether the store of jobs takes the patch.
pub record Answers : Type 0 where
  pub mark : Option Status
  pub critical : Bool
  pub updated : Bool

pub record Summary : Type 0 where
  pub scanned : ℕ
  pub attempted : ℕ
  pub succeeded : ℕ
  pub failures : ℕ
  pub deferred : ℕ
  pub unresolved : ℕ

abbrev pub is_left : Option Status → Bool
is_left none = false
is_left (some s) = status_eq s failed

-- One turn of the loop of `retryPendingDeletions`, with the base of the backoff and the clock.
unfoldable pub retry_one : Answers → ℕ → ℕ → Pending → Atsarginiai × Summary → Atsarginiai × Summary
unfolding is_due bandymu_skaicius issaugoti_bandyma backoff_ms
retry_one ans base now job (atsarginiai, s) =
    if is_due job now atsarginiai
    then (if is_left ans.mark
        then (atsarginiai, record s { unresolved = s.unresolved + 1 })
        else (if ans.critical
            then (
              issaugoti_bandyma ans.updated job.id (bandymu_skaicius job atsarginiai)
                  (now + backoff_ms (bandymu_skaicius job atsarginiai) base) atsarginiai,
              record s { attempted = s.attempted + 1; failures = s.failures + 1 },
            )
            else (
              atsarginiai,
              record s { attempted = s.attempted + 1; succeeded = s.succeeded + 1 },
            )))
    else (atsarginiai, record s { deferred = s.deferred + 1 })

unfoldable pub retry_loop :
    (Text → Answers) → ℕ → ℕ → List Pending → Atsarginiai × Summary → Atsarginiai × Summary
unfolding retry_one
retry_loop answers base now [] state = state
retry_loop answers base now (job ∷ jobs) state =
    retry_loop answers base now jobs (retry_one (answers job.id) base now job state)
