-- ===== src/JobPhase/Events/Invariant.antt =====
-- The invariant of status, phase and progress that every event of the phase machine establishes
-- (backend/utils/jobPhase.js).
use stenograma.Prelude.{
  ◌≡◌, refl, Bool, true, false, not, Option, none, some, List, [], ◌∷◌, arith, Bool-cases, inl, inr,
  if◌then◌else◌,
}
use stenograma.Result.{
  ok, >>-eq-ok, guard->>-eq-ok, >>=-eq-ok, ok-injective, job_already_terminal,
  unknown_source_status, unknown_job_type, invalid_status_phase,
}
use stenograma.Value.{
  Value, Word, undefined, null, bool, word, is_nullish, is_word, processing, validating,
}
use stenograma.Job.{Obj, field, spread, empty, status, type, phase, progress, progress_known}
use stenograma.JobPhase.{
  graphs, includes, terminal, is_some, phases_for_type, assert_phase_allowed_for_type,
  assert_consistent_job_record, source_status, check_source, check_phase,
}
use stenograma.JobPhase.Progress.{assert_valid_progress}
use stenograma.JobPhase.Events.{
  start_phase, report_progress, finish, restart, ProgressEvent, check_progress, includes_in,
  allowed_from, succeeds, phase_patch, sources,
}
use stenograma.JobPhase.Events.Inversion.{
  allowed_includes, succeeds-ok, not-eq-true, succeeds_value, not_ignored, finish-eq-ok,
  report_progress-eq-some,
}

abbrev pub is_true : Value → Bool
is_true (bool b) = b
is_true _ = false

-- A phase of its type's graph exactly while processing, and valid progress exactly where it is said
-- to be known.
pub record IsPhased (o : Obj) : Type 0 where
  pub phase_fits :
      (if is_word processing (field status o)
        then includes (phases_for_type (field type o)) (field phase o)
        else is_nullish (field phase o))
      ≡ true
  pub progress_fits :
      (if is_true (field progress_known o)
        then succeeds (assert_valid_progress (field progress o))
        else is_nullish (field progress o))
      ≡ true

-- What a patch of the machine makes of any record.
patch_IsPhased_processing :
    (job p : Obj) (next q : Value) (known : Bool)
    → phase_patch (word processing) next q known empty ≡ p
    → includes (phases_for_type (field type job)) next ≡ true
    → (if known then succeeds (assert_valid_progress q) else is_nullish q) ≡ true
    → IsPhased (spread job p)
patch_IsPhased_processing job p next q known e h v =
    rw (← e) (record { phase_fits = h; progress_fits = v })

pub terminal_not_processing :
    (s : Value) → includes terminal s ≡ true → is_word processing s ≡ false
terminal_not_processing (word w) h = ground arith
terminal_not_processing undefined h = cc
terminal_not_processing _ h = cc

-- What a patch that leaves `processing` makes of any record.
patch_IsPhased_idle :
    (job p extra : Obj) (s : Value)
    → phase_patch s null null false extra ≡ p
    → is_word processing s ≡ false
    → IsPhased (spread job p)
patch_IsPhased_idle job p extra s e h =
    rw (← e) (record { phase_fits = rw h; progress_fits = refl })

included_not_nullish :
    (ws : Option (List Word)) (v : Value) → includes_in ws v ≡ true → is_nullish v ≡ false
included_not_nullish none v h = cc
included_not_nullish (some []) v h = cc
included_not_nullish (some (w ∷ ws)) v h = ground (arith, included_not_nullish (some ws) v)

checked_progress :
    (option : Value)
    → check_progress (not (is_nullish option)) option ≡ ok tt
    → (if not (is_nullish option)
        then succeeds (assert_valid_progress (if not (is_nullish option) then option else null))
        else is_nullish (if not (is_nullish option) then option else null))
      ≡ true
checked_progress option h = elim (Bool-cases (is_nullish option)) [
  | inl none_given ↦ rw none_given
  | inr given ↦ rw given (succeeds-ok _ (rw given at h))
]

-- A restart that is accepted leaves any record with a phase of its type's graph exactly while it is
-- processing, and with valid progress exactly where progress is said to be known.
restart-IsPhased : (job : Obj) {p : Obj} → restart job ≡ ok p → IsPhased (spread job p)
unfolding restart
restart-IsPhased job {p} h =
    let (s, a, b) = >>=-eq-ok (assert_consistent_job_record job sources true) _ h in
    let (c, d) = >>-eq-ok (assert_phase_allowed_for_type (field type job) (word validating)) _ b in
    patch_IsPhased_processing job p (word validating) null false (ok-injective _ _ d)
      (allowed_includes (field type job) (word validating) refl c) refl

-- A finish that is accepted leaves any record, however damaged it was, with a phase of its type's graph
-- exactly while it is processing, and with valid progress exactly where it is said to be known.
finish-IsPhased :
    (job : Obj) (s : Value) (extra : Obj) {p : Obj}
    → finish job s extra ≡ ok p
    → IsPhased (spread job p)
finish-IsPhased job s extra {p} h =
    let f = finish-eq-ok job s extra h in
    patch_IsPhased_idle job p extra s f.patch_is (terminal_not_processing s f.to_terminal)

-- The start of a phase that is accepted leaves any record with a phase of its type's graph exactly
-- while it is processing, and with valid progress exactly where it is said to be known.
pub start_phase-IsPhased :
    (job : Obj) (next option : Value) {p : Obj}
    → start_phase job next option ≡ ok p
    → IsPhased (spread job p)
unfolding start_phase
start_phase-IsPhased job next option {p} h =
    let (a, b) = >>-eq-ok (assert_phase_allowed_for_type (field type job) next) _ h in
    let (from, c, d) = >>=-eq-ok (assert_consistent_job_record job sources true) _ b in
    let (e, f) = guard->>-eq-ok _ _ _ d in
    let (g, i) = guard->>-eq-ok _ _ _ f in
    let (j, k) = >>-eq-ok (check_progress (not (is_nullish option)) option) _ i in
    patch_IsPhased_processing job p next (if not (is_nullish option) then option else null)
      (not (is_nullish option)) (ok-injective _ _ k)
      (allowed_includes (field type job) next
        (included_not_nullish (allowed_from (field type job) (field phase job)) next g) a)
      (checked_progress option j)

checked_phase :
    (job : Obj) (s : Value) {v : Value}
    → is_word processing s ≡ true
    → check_source job s ≡ ok v
    → includes (phases_for_type (field type job)) (field phase job) ≡ true
unfolding check_source
checked_phase job s r h =
    let (a, b) = guard->>-eq-ok (is_some (graphs (field type job))) unknown_job_type _ h in
    let (c, d) = >>-eq-ok (check_phase job true) _ (rw r at b) in
    let (e, f) = guard->>-eq-ok (not (is_nullish (field phase job))) invalid_status_phase _ c in
    allowed_includes (field type job) (field phase job) (not-eq-true _ e) f

source_status_processing :
    (v : Value) → is_word processing v ≡ true → is_word processing (source_status v) ≡ true
source_status_processing (word w) h = h
source_status_processing undefined h = cc
source_status_processing _ h = cc

consistent_phase :
    (job : Obj)
    → is_word processing (field status job) ≡ true
    → succeeds (assert_consistent_job_record job (processing ∷ []) true) ≡ true
    → includes (phases_for_type (field type job)) (field phase job) ≡ true
unfolding assert_consistent_job_record
consistent_phase job r h =
    let s = source_status (field status job) in
    let (v, e) = succeeds_value _ h in
    let (a, b) = guard->>-eq-ok (not (includes terminal s)) job_already_terminal _ e in
    let (c, d) = guard->>-eq-ok (includes (processing ∷ []) s) unknown_source_status _ b in
    checked_phase job s (source_status_processing (field status job) r) d

-- Progress is taken only for the phase that runs, and leaves that phase as it is.
-- A report of progress that is taken leaves any record with a phase of its type's graph exactly while
-- it is processing, and with valid progress exactly where it is said to be known.
pub report_progress-IsPhased :
    (job : Obj) (e : Option ProgressEvent) {p : Obj}
    → report_progress job e ≡ ok (some p)
    → IsPhased (spread job p)
report_progress-IsPhased job none {p} h = absurd (not_ignored p (unfold report_progress in h))
report_progress-IsPhased job (some e) h =
    let r = report_progress-eq-some job e h in
    rw (← r.patch_is) (record {
      phase_fits = rw r.runs (consistent_phase job r.runs r.consistent);
      progress_fits = succeeds-ok _ r.valid;
    })
