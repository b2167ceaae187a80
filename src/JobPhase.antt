-- ===== src/JobPhase.antt =====
-- The state machine of a job's phases and progress (backend/utils/jobPhase.js): a library of pure
-- functions that return patches, or throw a `JobPhaseError`.
mod Tests
pub mod Progress
pub mod Events
use stenograma.Prelude.{
  ◌≡◌, refl, Bool, true, false, ◌&&◌, not, Option, none, some, List, [], ◌∷◌, ◌++◌, map,
  if◌then◌else◌,
}
use stenograma.Result.{
  Result, ok, err, guard, ◌>>=◌, ◌>>◌, job_already_terminal, unknown_source_status,
  unknown_job_type, invalid_status_phase, phase_not_allowed_for_type,
}
use stenograma.Value.{
  Value, Word, undefined, null, word, is_nullish, is_word, word_eq, queued, processing, completed,
  failed, cancelled, transcription, protocol, validating, transcribing, diarizing, merging,
  generating_protocol,
}
use stenograma.Job.{Obj, field, status, type, phase}

-- A graph: from a phase, `none` for the start, to the phases that may follow.
abbrev pub Graph : Type 0
Graph = List (Option Word × List Word)

abbrev transcription_graph : Graph
transcription_graph =
    (none, validating ∷ [])
    ∷ (some validating, transcribing ∷ [])
    ∷ (some transcribing, diarizing ∷ [])
    ∷ (some diarizing, merging ∷ [])
    ∷ (some merging, [])
    ∷ []

abbrev protocol_graph : Graph
protocol_graph =
    (none, validating ∷ [])
    ∷ (some validating, generating_protocol ∷ [])
    ∷ (some generating_protocol, [])
    ∷ []

-- `GRAPHS[type]`.
abbrev pub graphs : Value → Option Graph
graphs (word transcription) = some transcription_graph
graphs (word protocol) = some protocol_graph
graphs _ = none

edges_from : Option Word → List Word → List (Option Word × Word)
edges_from from [] = []
edges_from from (to ∷ tos) = (from, to) ∷ edges_from from tos

edges : Graph → List (Option Word × Word)
edges [] = []
edges ((from, tos) ∷ g) = edges_from from tos ++ edges g

unfoldable pub transitions_for_type : Value → List (Option Word × Word)
unfolding edges edges_from
transitions_for_type t = elim (graphs t) [ none ↦ [] | some g ↦ edges g ]

-- The keys of a graph but "null".
phases_of : Graph → List Word
phases_of [] = []
phases_of ((none, tos) ∷ g) = phases_of g
phases_of ((some p, tos) ∷ g) = p ∷ phases_of g

unfoldable pub phases_for_type : Value → List Word
unfolding phases_of
phases_for_type t = elim (graphs t) [ none ↦ [] | some g ↦ phases_of g ]

-- `words.includes(v)`.
abbrev pub includes : List Word → Value → Bool
includes [] v = false
includes (w ∷ ws) v = if is_word w v then true else includes ws v

-- `TERMINAL`.
abbrev pub terminal : List Word
terminal = completed ∷ failed ∷ cancelled ∷ []

abbrev pub is_some {ℓ} : {A : Type ℓ} → Option A → Bool
is_some none = false
is_some (some a) = true

unfoldable pub assert_phase_allowed_for_type : Value → Value → Result (Unit {0})
unfolding phases_for_type
assert_phase_allowed_for_type t p = if is_nullish p then ok tt else (do
  guard (is_some (graphs t)) unknown_job_type
  guard (includes (phases_for_type t) p) phase_not_allowed_for_type)

-- `job.status !== undefined ? job.status : null`.
abbrev pub source_status : Value → Value
source_status undefined = null
source_status v = v

-- The invariant that relates status and phase, for a status that is `processing` or is not.
unfoldable pub check_phase : Obj → Bool → Result (Unit {0})
unfolding assert_phase_allowed_for_type
check_phase job true = do
  guard (not (is_nullish (field phase job))) invalid_status_phase
  assert_phase_allowed_for_type (field type job) (field phase job)
check_phase job false = guard (is_nullish (field phase job)) invalid_status_phase

-- The state of the source: its type and its phase.
unfoldable pub check_source : Obj → Value → Result Value
unfolding check_phase
check_source job s = do
  guard (is_some (graphs (field type job))) unknown_job_type
  check_phase job (is_word processing s)
  ok s

-- `assertConsistentJobRecord(job, { leistiniStatusai, tikrintiSaltiniBusena })`.
unfoldable pub assert_consistent_job_record : Obj → List Word → Bool → Result Value
unfolding check_source
assert_consistent_job_record job leistini_statusai tikrinti = do
  let s = source_status (field status job)
  guard (not (includes terminal s)) job_already_terminal
  guard (includes leistini_statusai s) unknown_source_status
  if tikrinti then check_source job s else ok s
