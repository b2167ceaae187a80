-- ===== src/JobPhase/Events/Inversion.antt =====
-- What the events of the phase machine (backend/utils/jobPhase.js) have checked when they return.
use stenograma.Prelude.{
  ◌≡◌, refl, Bool, true, false, ◌&&◌, not, Option, none, some, [], ◌∷◌, Bool-cases, inl, inr,
  if◌then◌else◌,
}
use stenograma.Result.{
  Result, ok, err, guard-eq-ok, >>-eq-ok, guard->>-eq-ok, >>=-eq-ok, ok-injective,
  job_already_terminal, unknown_source_status, illegal_terminal_transition,
  completed_requires_result,
}
use stenograma.Value.{
  Value, strict_eq, null, bool, is_nullish, is_word, queued, processing, completed,
}
use stenograma.Job.{Obj, field, empty, set_field, status, phase, progress, progress_known, result}
use stenograma.JobPhase.{
  graphs, includes, terminal, is_some, phases_for_type, assert_phase_allowed_for_type,
  assert_consistent_job_record, source_status,
}
use stenograma.JobPhase.Progress.{assert_valid_progress}
use stenograma.JobPhase.Events.{
  report_progress, finish, ProgressEvent, succeeds, phase_patch, sources, is_regression,
}

pub allowed_includes :
    (t p : Value)
    → is_nullish p ≡ false
    → assert_phase_allowed_for_type t p ≡ ok tt
    → includes (phases_for_type t) p ≡ true
unfolding assert_phase_allowed_for_type
allowed_includes t p n h =
    let (a, b) = guard->>-eq-ok (is_some (graphs t)) _ _ (rw n at h) in guard-eq-ok _ _ b

pub succeeds-ok {ℓ} : {A : Type ℓ} (m : Result A) {a : A} → m ≡ ok a → succeeds m ≡ true
succeeds-ok m e = rw e

-- What a `finish` that returns has checked, and the patch that it returns.
pub record IsFinish (job : Obj) (s : Value) (extra p : Obj) : Type 0 where
  pub to_terminal : includes terminal s ≡ true
  pub from_source : includes sources (source_status (field status job)) ≡ true
  pub not_unstarted :
      (is_word queued (source_status (field status job)) && is_word completed s) ≡ false
  pub has_result : (is_word completed s && is_nullish (field result extra)) ≡ false
  pub patch_is : phase_patch s null null false extra ≡ p

pub not-eq-true : (b : Bool) → not b ≡ true → b ≡ false
not-eq-true false h = refl
not-eq-true true h = cc

unchecked_source :
    (job : Obj) {from : Value}
    → assert_consistent_job_record job sources false ≡ ok from
    → (includes sources (source_status (field status job)) ≡ true)
      × (source_status (field status job) ≡ from)
unfolding assert_consistent_job_record
unchecked_source job h =
    let s = source_status (field status job) in
    let (a, b) = guard->>-eq-ok (not (includes terminal s)) job_already_terminal _ h in
    let (c, d) = guard->>-eq-ok (includes sources s) unknown_source_status _ b in
    (c, ok-injective _ _ d)

pub finish-eq-ok :
    (job : Obj) (s : Value) (extra : Obj) {p : Obj}
    → finish job s extra ≡ ok p
    → IsFinish job s extra p
unfolding finish
finish-eq-ok job s extra h =
    let (a, b) = guard->>-eq-ok (includes terminal s) _ _ h in
    let (from, c, d) = >>=-eq-ok (assert_consistent_job_record job sources false) _ b in
    let (known, same) = unchecked_source job c in
    let (e, f) =
      guard->>-eq-ok (not (is_word queued from && is_word completed s)) illegal_terminal_transition
        _ d in
    let (g, i) =
      guard->>-eq-ok (not (is_word completed s && is_nullish (field result extra)))
        completed_requires_result _ f in
    record {
      to_terminal = a;
      from_source = known;
      not_unstarted = rw same (not-eq-true _ e);
      has_result = not-eq-true _ g;
      patch_is = ok-injective _ _ i;
    }

pub succeeds_value {ℓ} : {A : Type ℓ} (m : Result A) → succeeds m ≡ true → (a : A) × (m ≡ ok a)
succeeds_value (ok a) h = (a, refl)
succeeds_value (err e) h = cc

-- What a report that is taken has checked, and the patch that it returns.
pub record IsReport (job : Obj) (e : ProgressEvent) (p : Obj) : Type 0 where
  pub runs : is_word processing (field status job) ≡ true
  pub consistent : succeeds (assert_consistent_job_record job (processing ∷ []) true) ≡ true
  pub same_phase : strict_eq e.event_phase (field phase job) ≡ true
  pub valid : assert_valid_progress e.event_progress ≡ ok tt
  pub no_regression : is_regression (field progress job) e.event_progress ≡ false
  pub patch_is :
      set_field progress_known (bool true) (set_field progress e.event_progress empty) ≡ p

pub and-eq-true : (a b : Bool) → (a && b) ≡ true → (a ≡ true) × (b ≡ true)
and-eq-true true b h = (refl, h)
and-eq-true false b h = cc

abbrev pub no_report : Result (Option Obj)
no_report = ok none

pub not_ignored : (p : Obj) → no_report ≡ ok (some p) → ⊥
not_ignored p h = cc

taken_patch : (b : Bool) (q p : Obj) → (if b then none else some q) ≡ some p → (b ≡ false) × (q ≡ p)
taken_patch true q p h = cc
taken_patch false q p h = (refl, cc)

pub report_progress-eq-some :
    (job : Obj) (e : ProgressEvent) {p : Obj}
    → report_progress job (some e) ≡ ok (some p)
    → IsReport job e p
unfolding report_progress
report_progress-eq-some job e {p} h = elim (Bool-cases guarded) [
  | inl pass ↦
      let (a, b) = and-eq-true _ _ pass in
      let (c, d) = and-eq-true _ _ b in
      let (f, g) = >>-eq-ok (assert_valid_progress e.event_progress) _ (rw pass at h) in
      let (i, j) =
        taken_patch (is_regression (field progress job) e.event_progress) _ p
          (ok-injective _ _ g) in
      record {
        runs = a;
        consistent = c;
        same_phase = d;
        valid = f;
        no_regression = i;
        patch_is = j;
      }
  | inr stop ↦ absurd (not_ignored p (rw stop at h))
]
  where
    guarded : Bool
    guarded =
        is_word processing (field status job)
        && (succeeds (assert_consistent_job_record job (processing ∷ []) true)
            && strict_eq e.event_phase (field phase job))
