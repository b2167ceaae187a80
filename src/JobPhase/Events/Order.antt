-- ===== src/JobPhase/Events/Order.antt =====
-- The order of phases and of progress (backend/utils/jobPhase.js): every start of a phase is an edge
-- of the type's graph and one step further, and progress within a phase does not fall.
use stenograma.Prelude.{
  ℕ, ◌+◌, ◌≡◌, refl, Bool, true, false, ◌&&◌, Option, some, List, [], ◌∷◌, arith, Bool-cases, inl,
  inr, if◌then◌else◌, pos, negsuc,
}
use stenograma.Result.{ok, >>-eq-ok, guard->>-eq-ok, >>=-eq-ok}
use stenograma.Value.{
  Value, Word, finite, num, word, obj, is_object, is_word, truthy, strict_eq, lt_number, le_number,
  strict_eq_number, validating, transcribing, diarizing, merging, generating_protocol,
  transcription, protocol,
}
use stenograma.Job.{Obj, field, type, phase, progress}
use stenograma.JobPhase.{
  transitions_for_type, assert_phase_allowed_for_type, assert_consistent_job_record,
}
use stenograma.JobPhase.Progress.{
  assert_valid_progress, current_of, total_of, is_finite, lt_value, le_value,
}
use stenograma.JobPhase.Events.{
  start_phase, report_progress, ProgressEvent, is_regression, allowed_from, includes_in, sources,
  same_key,
}
use stenograma.JobPhase.Events.Inversion.{report_progress-eq-some}

-- How far a phase lies from the start of its graph.
abbrev pub rank : Value → ℕ
rank (word validating) = 1
rank (word transcribing) = 2
rank (word generating_protocol) = 2
rank (word diarizing) = 3
rank (word merging) = 4
rank _ = 0

-- `[from, to]` stands among the edges.
abbrev pub has_edge : List (Option Word × Word) → Value → Value → Bool
has_edge [] v w = false
has_edge ((from, to) ∷ es) v w = if same_key from v && is_word to w then true else has_edge es v w

allowed_edge :
    (t v w : Value)
    → includes_in (allowed_from t v) w ≡ true
    → (has_edge (transitions_for_type t) v w ≡ true) × (rank w ≡ rank v + 1)
unfolding allowed_from transitions_for_type
allowed_edge (word transcription) v w h = ground arith
allowed_edge (word protocol) v w h = ground arith
allowed_edge _ v w h = cc

-- A phase starts only along an edge of its type's graph, one step further from the start; so no phase
-- is skipped, repeated or taken back.
pub start_phase_edge :
    (job : Obj) (next option : Value) {p : Obj}
    → start_phase job next option ≡ ok p
    → (has_edge (transitions_for_type (field type job)) (field phase job) next ≡ true)
      × (rank next ≡ rank (field phase job) + 1)
unfolding start_phase
start_phase_edge job next option h =
    let (a, b) = >>-eq-ok (assert_phase_allowed_for_type (field type job) next) _ h in
    let (from, c, d) = >>=-eq-ok (assert_consistent_job_record job sources true) _ b in
    let (e, f) = guard->>-eq-ok _ _ _ d in
    let (g, i) =
      guard->>-eq-ok (includes_in (allowed_from (field type job) (field phase job)) next) _ _ f in
    allowed_edge (field type job) (field phase job) next g

le-of-not-lt :
    (a b : Value)
    → is_finite a ≡ true
    → is_finite b ≡ true
    → lt_value b a ≡ false
    → le_value a b ≡ true
unfolding lt_value le_value lt_number le_number strict_eq_number
le-of-not-lt (num (finite (pos x) f)) (num (finite (pos y) g)) a b h = ground arith
le-of-not-lt (num (finite (pos x) f)) (num (finite (negsuc y) g)) a b h = ground arith
le-of-not-lt (num (finite (negsuc x) f)) (num (finite (pos y) g)) a b h = ground arith
le-of-not-lt (num (finite (negsuc x) f)) (num (finite (negsuc y) g)) a b h = ground arith
le-of-not-lt _ _ a b h = cc

truthy-object : (v : Value) → is_object v ≡ true → truthy v ≡ true
unfolding truthy
truthy-object (obj ms) h = refl
truthy-object (num n) h = cc
truthy-object _ h = ground arith

valid_parts :
    (p : Value)
    → assert_valid_progress p ≡ ok tt
    → (is_object p ≡ true) × (is_finite (current_of p) ≡ true) × (is_finite (total_of p) ≡ true)
unfolding assert_valid_progress
valid_parts p h =
    let (a, b) = guard->>-eq-ok (is_object p) _ _ h in
    let (c, d) = guard->>-eq-ok (is_finite (current_of p)) _ _ b in
    let (e, f) = guard->>-eq-ok (is_finite (total_of p)) _ _ d in (a, c, e)

regression_parts :
    (seen new : Value)
    → truthy seen ≡ true
    → is_finite (current_of seen) ≡ true
    → is_finite (total_of seen) ≡ true
    → is_regression seen new ≡ false
    → (strict_eq (total_of seen) (total_of new) ≡ true)
      × (lt_value (current_of new) (current_of seen) ≡ false)
unfolding is_regression
regression_parts seen new t c l h = elim (Bool-cases (strict_eq (total_of seen) (total_of new))) [
  | inl same ↦ (same, rw (t, l, same, c) at h)
  | inr other ↦ cc (rw (t, l, other) at h)
]

-- Over valid progress that the record holds, a report is taken only with the same total and a current value
-- that is no smaller: the share that a reader sees does not fall within a phase.
pub report_progress_monotone :
    (job : Obj) (e : ProgressEvent) {p : Obj}
    → assert_valid_progress (field progress job) ≡ ok tt
    → report_progress job (some e) ≡ ok (some p)
    → (field progress p ≡ e.event_progress)
      × (strict_eq (total_of (field progress job)) (total_of (field progress p)) ≡ true)
      × (le_value (current_of (field progress job)) (current_of (field progress p)) ≡ true)
report_progress_monotone job e {p} v h =
    let r = report_progress-eq-some job e h in
    let (a, b, c) = valid_parts (field progress job) v in
    let (d, f, g) = valid_parts e.event_progress r.valid in
    let t = truthy-object (field progress job) a in
    let (same, order) =
      regression_parts (field progress job) e.event_progress t b c r.no_regression in
    rw (← r.patch_is) (refl, same, le-of-not-lt _ _ b f order)
