-- ===== src/JobPhase/Events.antt =====
-- The events of the phase machine (backend/utils/jobPhase.js): `startPhase`, `reportProgress`,
-- `finish`, `restart` and `initialState`. Each returns a patch.
pub mod Inversion
pub mod Invariant
pub mod Order
pub mod Terminal
use stenograma.Prelude.{
  ◌≡◌, refl, Bool, true, false, ◌&&◌, not, Option, none, some, List, [], ◌∷◌, if◌then◌else◌,
}
use stenograma.Result.{
  Result, ok, err, guard, ◌>>=◌, ◌>>◌, phase_not_allowed_for_type, illegal_transition, not_terminal,
  illegal_terminal_transition, completed_requires_result, unknown_job_type,
}
use stenograma.Value.{
  Value, Word, undefined, null, bool, num, word, is_nullish, is_word, word_eq, truthy, strict_eq,
  lt_number, queued, processing, completed, validating,
}
use stenograma.Job.{
  Obj, field, set_field, empty, status, type, phase, progress, progress_known, result,
}
use stenograma.JobPhase.{
  Graph, graphs, includes, terminal, is_some, assert_phase_allowed_for_type,
  assert_consistent_job_record,
}
use stenograma.JobPhase.Progress.{assert_valid_progress, current_of, total_of, is_finite, lt_value}

-- `queued`, `processing`: the statuses that an event may come from.
abbrev pub sources : List Word
sources = queued ∷ processing ∷ []

abbrev pub same_key : Option Word → Value → Bool
same_key none v = is_nullish v
same_key (some p) v = is_word p v

-- `graph[current === null ? "null" : current]`.
unfoldable pub successors : Graph → Value → Option (List Word)
successors [] current = none
successors ((from, tos) ∷ g) current =
    if same_key from current then some tos else successors g current

-- `GRAPHS[type][...]`.
unfoldable pub allowed_from : Value → Value → Option (List Word)
unfolding successors
allowed_from t current = elim (graphs t) [ none ↦ none | some g ↦ successors g current ]

abbrev pub includes_in : Option (List Word) → Value → Bool
includes_in none v = false
includes_in (some ws) v = includes ws v

-- The patch that sets status, phase, progress and `progressKnown` together.
abbrev pub phase_patch : Value → Value → Value → Bool → Obj → Obj
phase_patch s p q known o =
    set_field progress_known (bool known)
      (set_field progress q (set_field phase p (set_field status s o)))

-- `if (hasProgress) assertValidProgress(options.progress)`.
abbrev pub check_progress : Bool → Value → Result (Unit {0})
check_progress true q = assert_valid_progress q
check_progress false q = ok tt

-- `startPhase(job, nextPhase, { progress })`; an option that is not given reads as `undefined`.
unfoldable pub start_phase : Obj → Value → Value → Result Obj
start_phase job next option = do
  assert_phase_allowed_for_type (field type job) next
  source ← assert_consistent_job_record job sources true
  let allowed = allowed_from (field type job) (field phase job)
  guard (is_some allowed) phase_not_allowed_for_type
  guard (includes_in allowed next) illegal_transition
  let has_progress = not (is_nullish option)
  check_progress has_progress option
  ok (phase_patch (word processing) next (if has_progress then option else null) has_progress empty)

-- What a progress callback sends.
pub record ProgressEvent : Type 0 where
  pub event_phase : Value
  pub event_progress : Value

-- Whether the event is out of step with the progress that was seen: another total, or a smaller
-- current value.
unfoldable pub is_regression : Value → Value → Bool
is_regression seen new =
    if truthy seen && (is_finite (total_of seen) && not (strict_eq (total_of seen) (total_of new)))
    then true
    else truthy seen && (is_finite (current_of seen) && lt_value (current_of new) (current_of seen))

-- `try { assertConsistentJobRecord(...) } catch { return null }`.
abbrev pub succeeds {ℓ} : {A : Type ℓ} → Result A → Bool
succeeds (ok a) = true
succeeds (err e) = false

-- The part of `reportProgress` behind the early returns.
unfoldable pub accept_progress : Obj → Value → Result (Option Obj)
accept_progress job new = do
  assert_valid_progress new
  ok (
      if is_regression (field progress job) new
      then none
      else some (set_field progress_known (bool true) (set_field progress new empty)))

-- `reportProgress(job, event)`, `none` for an event that is ignored; an event that is no object is
-- none here.
unfoldable pub report_progress : Obj → Option ProgressEvent → Result (Option Obj)
unfolding accept_progress
report_progress job none = ok none
report_progress job (some e) =
    if is_word processing (field status job)
      && (succeeds (assert_consistent_job_record job (processing ∷ []) true)
          && strict_eq e.event_phase (field phase job))
    then accept_progress job e.event_progress
    else ok none

-- `finish(job, status, extra)`.
unfoldable pub finish : Obj → Value → Obj → Result Obj
finish job s extra = do
  guard (includes terminal s) not_terminal
  from ← assert_consistent_job_record job sources false
  guard (not (is_word queued from && is_word completed s)) illegal_terminal_transition
  guard (not (is_word completed s && is_nullish (field result extra))) completed_requires_result
  ok (phase_patch s null null false extra)

-- `restart(job)`.
unfoldable pub restart : Obj → Result Obj
restart job = do
  source ← assert_consistent_job_record job sources true
  assert_phase_allowed_for_type (field type job) (word validating)
  ok (phase_patch (word processing) (word validating) null false empty)

-- `initialState()`.
unfoldable pub initial_state : Obj
initial_state = phase_patch (word queued) null null false empty
