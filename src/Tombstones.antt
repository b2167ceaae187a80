-- ===== src/Tombstones.antt =====
-- Erasure marks: their statuses and allowlists (backend/utils/deletionTombstones/states.js). The children
-- hold the in-memory store of marks and what it keeps.
mod Tests
pub mod Memory
pub mod Safety
pub mod Facade
pub mod Ledger
pub mod Replay
use stenograma.Prelude.{
  ℕ, Bool, true, false, ◌||◌, Option, none, some, List, [], ◌∷◌, filter_by, ◌==◌, if◌then◌else◌,
}
use stenograma.Result.{Result, ok, err, type_error}

-- `TOMBSTONE_STATUS`.
pub data Status : Type 0 where
  pending deleted failed : Status

-- `ERASURE_REASON`.
pub data Reason : Type 0 where
  user_request retention_policy operator_cleanup orphan_cleanup : Reason

-- `ACTOR_KIND`.
pub data ActorKind : Type 0 where
  user operator system : ActorKind

-- `FAILURE_KINDS`.
pub data FailureKind : Type 0 where
  retryable permanent already_absent executor_lost : FailureKind

-- An argument that should come from an allowlist: it may be missing, `null`, or anything else.
pub data Given {ℓ} (A : Type ℓ) : Type ℓ where
  undefined null unknown : Given A
  known : A → Given A

abbrev pub status_code : Status → ℕ
status_code pending = 0
status_code deleted = 1
status_code failed = 2

abbrev pub status_eq : Status → Status → Bool
status_eq a b = status_code a == status_code b

-- `statuses.includes(s)`.
abbrev pub includes_status : List Status → Status → Bool
includes_status [] s = false
includes_status (t ∷ ts) s = status_eq t s || includes_status ts s

abbrev pub statuses : List Status
statuses = pending ∷ deleted ∷ failed ∷ []

-- `ALLOWED_TRANSITIONS`.
unfoldable pub allowed_transitions : Status → List Status
allowed_transitions pending = deleted ∷ failed ∷ []
allowed_transitions failed = pending ∷ []
allowed_transitions deleted = []

-- `assertReason(reason)`.
unfoldable pub assert_reason : Given Reason → Result Reason
assert_reason (known r) = ok r
assert_reason _ = err type_error

-- `assertActorKind(actorKind)`: a kind that is not given is `null`.
unfoldable pub assert_actor_kind : Given ActorKind → Result (Option ActorKind)
assert_actor_kind undefined = ok none
assert_actor_kind null = ok none
assert_actor_kind unknown = err type_error
assert_actor_kind (known a) = ok (some a)

-- `assertFailureKind(kind)`: what is not known is `null`, and nothing is thrown.
unfoldable pub assert_failure_kind : Given FailureKind → Option FailureKind
assert_failure_kind (known f) = some f
assert_failure_kind _ = none

unfoldable pub can_transition : Status → Status → Bool
unfolding allowed_transitions
can_transition from to = includes_status (allowed_transitions from) to

-- `allowedSources(to)`.
unfoldable pub allowed_sources : Status → List Status
unfolding can_transition
allowed_sources to = filter_by (λ from. can_transition from to) statuses
