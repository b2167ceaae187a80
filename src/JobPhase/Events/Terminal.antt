-- ===== src/JobPhase/Events/Terminal.antt =====
-- Terminal statuses (backend/utils/jobPhase.js): nothing leaves them, and the way into them cannot
-- fail on account of the state that it leaves.
use stenograma.Prelude.{
  ◌≡◌, refl, Bool, true, false, ◌&&◌, not, Option, none, some, List, arith, inl, inr, ◌↔◌,
}
use stenograma.Result.{ok, err, job_already_terminal, Result-cases}
use stenograma.Value.{Value, Word, null, word, is_nullish, is_word, queued, completed, undefined}
use stenograma.Job.{Obj, field, status, result, type}
use stenograma.JobPhase.{
  includes, terminal, source_status, assert_consistent_job_record, assert_phase_allowed_for_type,
}
use stenograma.JobPhase.Events.{
  start_phase, report_progress, finish, restart, sources, phase_patch, ProgressEvent, succeeds,
}
use stenograma.JobPhase.Events.Inversion.{finish-eq-ok, and-eq-true, not-eq-true}
use stenograma.JobPhase.Events.Invariant.{terminal_not_processing}

-- The conditions of `finish`: nothing of the record's type, phase or progress is among them.
abbrev pub may_finish : Obj → Value → Obj → Bool
may_finish job s extra =
    includes terminal s
    && (includes sources (source_status (field status job))
        && (not (is_word queued (source_status (field status job)) && is_word completed s)
            && not (is_word completed s && is_nullish (field result extra))))

source_not_terminal : (v : Value) → includes sources v ≡ true → includes terminal v ≡ false
source_not_terminal (word w) h = ground arith
source_not_terminal undefined h = cc
source_not_terminal _ h = cc

finish_returns :
    (job : Obj) (s : Value) (extra : Obj)
    → includes terminal s ≡ true
    → includes sources (source_status (field status job)) ≡ true
    → (is_word queued (source_status (field status job)) && is_word completed s) ≡ false
    → (is_word completed s && is_nullish (field result extra)) ≡ false
    → finish job s extra ≡ ok (phase_patch s null null false extra)
unfolding finish assert_consistent_job_record
finish_returns job s extra a b c d = rw (a, source_not_terminal _ b, b, c, d)

-- A queued or processing record, however damaged its type, phase and progress, finishes in every
-- terminal status, but for completion of what never ran and completion with no result; and only
-- these records finish.
pub finish_exactly :
    (job : Obj) (s : Value) (extra : Obj)
    → (may_finish job s extra ≡ true)
      ↔ (finish job s extra ≡ ok (phase_patch s null null false extra))
finish_exactly job s extra = (
  λ h.
      let (a, b) = and-eq-true _ _ h in
      let (c, d) = and-eq-true _ _ b in
      let (e, f) = and-eq-true _ _ d in
      finish_returns job s extra a c (not-eq-true _ e) (not-eq-true _ f),
  λ h.
      let f = finish-eq-ok job s extra h in
      rw (f.to_terminal, f.from_source, f.not_unstarted, f.has_result),
)

terminal_source : (v : Value) → includes terminal v ≡ true → source_status v ≡ v
terminal_source undefined h = cc
terminal_source _ h = refl

pub inconsistent_terminal :
    (job : Obj) (ws : List Word) (check : Bool)
    → includes terminal (field status job) ≡ true
    → assert_consistent_job_record job ws check ≡ err job_already_terminal
unfolding assert_consistent_job_record
inconsistent_terminal job ws check h = rw (terminal_source (field status job) h) (rw h)

start_phase-terminal :
    (job : Obj) (next option : Value)
    → includes terminal (field status job) ≡ true
    → succeeds (start_phase job next option) ≡ false
unfolding start_phase
start_phase-terminal job next option h =
    elim (Result-cases (assert_phase_allowed_for_type (field type job) next)) [
      | inl (a, e) ↦ rw e (rw (inconsistent_terminal job sources true h))
      | inr (c, e) ↦ rw e
    ]

report_progress-terminal :
    (job : Obj) (e : Option ProgressEvent)
    → includes terminal (field status job) ≡ true
    → report_progress job e ≡ ok none
unfolding report_progress
report_progress-terminal job none h = refl
report_progress-terminal job (some e) h = rw (terminal_not_processing (field status job) h)

-- A record in a terminal status accepts no event: starting a phase never returns, restarting and
-- finishing again are refused as already terminal, and reports of progress are ignored.
pub terminal_absorbs :
    (job : Obj) (next option s : Value) (extra : Obj) (e : Option ProgressEvent)
    → includes terminal (field status job) ≡ true
    → includes terminal s ≡ true
    → (succeeds (start_phase job next option) ≡ false)
      × (restart job ≡ err job_already_terminal)
      × (finish job s extra ≡ err job_already_terminal)
      × (report_progress job e ≡ ok none)
unfolding restart finish
terminal_absorbs job next option s extra e h t = (
  start_phase-terminal job next option h,
  rw (inconsistent_terminal job sources true h),
  rw (t, inconsistent_terminal job sources false h),
  report_progress-terminal job e h,
)
