-- ===== src/JobPhase/Tests.antt =====
-- Concrete events of the phase machine (backend/utils/jobPhase.js).
use stenograma.Prelude.{◌≡◌, refl, true, false, ◌+◌, none, some, codes, ◌↔◌, text_eq}
use stenograma.Result.{ok, err, job_already_terminal}
use stenograma.Value.{
  Value, undefined, null, bool, word, num, text, obj, member, end, int, queued, processing,
  completed, failed, transcription, validating, transcribing, strict_eq, strict_eq_number,
  lt_number, le_number, prop, member_of, is_integer, truthy,
}
use stenograma.Job.{
  Obj, field, set_field, empty, status, type, phase, progress, progress_known, result,
}
use stenograma.JobPhase.{
  assert_phase_allowed_for_type, assert_consistent_job_record, check_source, check_phase,
  transitions_for_type, phases_for_type,
}
use stenograma.JobPhase.Progress.{
  assert_valid_progress, current_of, total_of, le_value, lt_value, progress_invariants,
}
use stenograma.JobPhase.Events.{
  start_phase, report_progress, finish, restart, ProgressEvent, phase_patch, successors,
  allowed_from, accept_progress, is_regression, succeeds,
}
use stenograma.JobPhase.Events.Order.{start_phase_edge, report_progress_monotone, has_edge, rank}
use stenograma.JobPhase.Events.Terminal.{may_finish, finish_exactly, terminal_absorbs}

abbrev job_in : Value → Value → Value → Obj
job_in s p q =
    set_field status s
      (set_field type (word transcription) (set_field phase p (set_field progress q empty)))

abbrev queued_job : Obj
queued_job = job_in (word queued) null null

abbrev done_job : Obj
done_job = job_in (word completed) null null

abbrev parts : Value → Value
parts v = obj (
    member (codes "current") v
      (member (codes "total") (num (int 9)) (member (codes "unit") (text (codes "part")) end)))

abbrev seen : Value
seen = parts (num (int 2))

abbrev fresh : Value
fresh = parts (num (int 3))

abbrev running_job : Obj
running_job = job_in (word processing) (word transcribing) seen

abbrev event : ProgressEvent
event = record { event_phase = word transcribing; event_progress = fresh }

abbrev outcome : Obj
outcome = set_field result (text (codes "text")) empty

start_phase_edge_example :
    (has_edge (transitions_for_type (word transcription)) null (word validating) ≡ true)
    × (rank (word validating) ≡ rank null + 1)
unfolding start_phase assert_phase_allowed_for_type assert_consistent_job_record check_source
    check_phase phases_for_type allowed_from successors
start_phase_edge_example = start_phase_edge queued_job (word validating) undefined refl

finish_exactly_example : (may_finish running_job (word completed) outcome ≡ true) ↔ (
    finish running_job (word completed) outcome
    ≡ ok (phase_patch (word completed) null null false outcome))
finish_exactly_example = finish_exactly running_job (word completed) outcome

terminal_absorbs_example :
    (succeeds (start_phase done_job (word validating) undefined) ≡ false)
    × (restart done_job ≡ err job_already_terminal)
    × (finish done_job (word failed) empty ≡ err job_already_terminal)
    × (report_progress done_job (some event) ≡ ok none)
terminal_absorbs_example =
    terminal_absorbs done_job (word validating) undefined (word failed) empty (some event) refl refl

abbrev report : Obj
report = set_field progress_known (bool true) (set_field progress fresh empty)

report_progress_monotone_example :
    (field progress report ≡ fresh)
    × (strict_eq (total_of (field progress running_job)) (total_of (field progress report)) ≡ true)
    × (le_value (current_of (field progress running_job)) (current_of (field progress report))
        ≡ true)
unfolding report_progress accept_progress assert_consistent_job_record check_source check_phase
    assert_phase_allowed_for_type phases_for_type assert_valid_progress progress_invariants
    is_regression prop member_of text_eq strict_eq strict_eq_number lt_value le_value lt_number
    le_number is_integer truthy
report_progress_monotone_example = report_progress_monotone running_job event refl refl
