-- ===== src/JobStore/Finishing.antt =====
-- Retries of `finishAtomic` (backend/utils/jobStore/memoryStore.js): a completion that is delivered
-- again changes nothing, and neither does any event on a record that has ended.
use stenograma.Prelude.{
  ℕ, ◌≡◌, refl, ap, true, false, ◌||◌, Option, none, some, Text, arith, Bool-cases, Option-cases,
  inl, inr, if◌then◌else◌,
}
use stenograma.Prelude.Map.{get, get-set_self}
use stenograma.Result.{Result, Error, ok, err, not_terminal, job_already_terminal}
use stenograma.Value.{Value, word, completed, is_nullish, is_word}
use stenograma.Job.{Obj, field, status, result, or_undefined, or_else}
use stenograma.Job.Kanonas.{same_result}
use stenograma.Job.Kanonas.Reorder.{same_result_refl}
use stenograma.Job.Idempotency.{
  Answer, proceed, same_job, result_conflict, completed_without_result, nepalyginama,
  idempotentiskas_atsakymas, is_external, compare_results,
}
use stenograma.Job.Patch.{apply_patch}
use stenograma.Job.Patch.Protected.{apply_patch-outcome}
use stenograma.JobPhase.{includes, terminal}
use stenograma.JobPhase.Events.{finish, sources}
use stenograma.JobPhase.Events.Terminal.{inconsistent_terminal}
use stenograma.JobPhase.Events.Inversion.{finish-eq-ok}
use stenograma.JobStore.{
  Store, Reply, missing, found, verdict, finish_atomic, finish_found, finish_patch,
}
use stenograma.JobStore.Locking.{commit-eq-found}

-- What a completion that answered the record `r` has left behind.
record IsCompleted (k : Text) (extra : Obj) (jobs' : Store) (r : Obj) : Type 0 where
  stored : get k jobs' ≡ some r
  is_completed : is_word completed (field status r) ≡ true
  has_result : is_nullish (field result r) ≡ false
  agrees :
      (is_external (field result r) || same_result (field result extra) (field result r)) ≡ true

-- A completion that went through the transition.
completed_now :
    (k : Text) (extra : Obj) (now : ℕ) (jobs : Store) (job : Obj) {jobs' : Store} {r : Obj}
    → finish_patch k now jobs job (finish job (word completed) extra) ≡ (jobs', ok (found r))
    → IsCompleted k extra jobs' r
completed_now k extra now jobs job {jobs'} {r} h =
    by_result (finish job (word completed) extra) refl h
  where
    not_found : (e : Error) (r : Obj) → ◌≡◌ {A = Result Reply} (err e) (ok (found r)) → ⊥
    not_found e r p = cc

    given : (a b : Option Value) → is_nullish (or_undefined a) ≡ false → or_else a b ≡ a
    given none b p = cc
    given (some w) b p = refl

    agreeing : (v w : Value) → v ≡ w → (is_external v || same_result w v) ≡ true
    agreeing v w e = rw e (elim (Bool-cases (is_external w)) [
      | inl external ↦ rw external
      | inr inline ↦ rw inline (same_result_refl w)
    ])

    by_result :
        (m : Result Obj)
        → finish job (word completed) extra ≡ m
        → finish_patch k now jobs job m ≡ (jobs', ok (found r))
        → IsCompleted k extra jobs' r
    by_result (err e) f g = absurd (not_found e r (ap (λ p. p.1) g))
    by_result (ok patch) f g =
        let (done, same) = commit-eq-found k jobs (apply_patch job patch now) g in
        let (s, v) = apply_patch-outcome job patch now done in
        let c = finish-eq-ok job (word completed) extra f in
        let kept : field result r ≡ field result extra =
          rw v (
            rw (← c.patch_is) (ap or_undefined (given (extra result) (job result) c.has_result))) in
        record {
          stored = rw (← same) (get-set_self k r jobs);
          is_completed = rw s (rw (← c.patch_is) refl);
          has_result = rw kept c.has_result;
          agrees = agreeing (field result r) (field result extra) kept;
        }

-- A completion that was found done already.
completed_before :
    (k : Text) (extra : Obj) (jobs : Store) (r : Obj)
    → get k jobs ≡ some r
    → idempotentiskas_atsakymas r (word completed) extra ≡ same_job
    → IsCompleted k extra jobs r
unfolding idempotentiskas_atsakymas compare_results
completed_before k extra jobs r there h = record {
  stored = there;
  is_completed = ground arith;
  has_result = ground arith;
  agrees = ground arith;
}

found_inverts :
    (k : Text) (extra : Obj) (now : ℕ) (jobs : Store) (job : Obj) {jobs' : Store} {r : Obj}
    → get k jobs ≡ some job
    → finish_found k
        (word completed)
        extra
        now
        jobs
        job
        (idempotentiskas_atsakymas job (word completed) extra)
      ≡ (jobs', ok (found r))
    → IsCompleted k extra jobs' r
found_inverts k extra now jobs job {jobs'} {r} there h =
    by_answer (idempotentiskas_atsakymas job (word completed) extra) refl h
  where
    same_found : (q r : Obj) → ok (found q) ≡ ok (found r) → q ≡ r
    same_found q r p = cc

    not_verdict : (a : Answer) (r : Obj) → ok (verdict a) ≡ ok (found r) → ⊥
    not_verdict a r p = cc

    by_answer :
        (a : Answer)
        → idempotentiskas_atsakymas job (word completed) extra ≡ a
        → finish_found k (word completed) extra now jobs job a ≡ (jobs', ok (found r))
        → IsCompleted k extra jobs' r
    by_answer proceed e g = completed_now k extra now jobs job g
    by_answer same_job e g =
        rw (← ap (λ p. p.0) g)
          (rw (← same_found job r (ap (λ p. p.1) g)) (completed_before k extra jobs job there e))
    by_answer result_conflict e g = absurd (not_verdict _ r (ap (λ p. p.1) g))
    by_answer completed_without_result e g = absurd (not_verdict _ r (ap (λ p. p.1) g))
    by_answer nepalyginama e g = absurd (not_verdict _ r (ap (λ p. p.1) g))

finish_atomic-eq-found :
    (k : Text) (extra : Obj) (now : ℕ) (jobs : Store) {jobs' : Store} {r : Obj}
    → finish_atomic k (word completed) extra now jobs ≡ (jobs', ok (found r))
    → IsCompleted k extra jobs' r
unfolding finish_atomic
finish_atomic-eq-found k extra now jobs {jobs'} {r} h = elim (Option-cases (get k jobs)) [
  | inl gone ↦ absurd (not_missing r (ap (λ p. p.1) (rw gone at h)))
  | inr (job, there) ↦ found_inverts k extra now jobs job there (rw there at h)
]
  where
    not_missing : (r : Obj) → ok missing ≡ ok (found r) → ⊥
    not_missing r p = cc

-- Once a completion has answered a record whose result stands in the record, delivering the same
-- completion again answers the same record, and delivering any completion answers that record or,
-- exactly if its result is another one, a conflict; neither changes the store.
pub finish_atomic_retry :
    (k : Text) (extra extra' : Obj) (now now' : ℕ) (jobs : Store) {jobs' : Store} {r : Obj}
    → finish_atomic k (word completed) extra now jobs ≡ (jobs', ok (found r))
    → is_external (field result r) ≡ false
    → (finish_atomic k (word completed) extra now' jobs' ≡ (jobs', ok (found r)))
      × (finish_atomic k (word completed) extra' now' jobs' ≡ (
        jobs',
        ok (
            if same_result (field result extra') (field result r)
            then found r
            else verdict result_conflict),
      ))
unfolding finish_atomic idempotentiskas_atsakymas compare_results
finish_atomic_retry k extra extra' now now' jobs {jobs'} {r} h inline =
    let c = finish_atomic-eq-found k extra now jobs h in
    (
      rw c.stored (rw c.is_completed (rw c.has_result (rw inline (rw (rw inline at c.agrees))))),
      rw c.stored (
          rw c.is_completed (
            rw c.has_result (
              rw inline (elim (Bool-cases (same_result (field result extra') (field result r))) [
                | inl same ↦ rw same
                | inr other ↦ rw other
              ])))),
    )

finish_refused :
    (job : Obj) (s : Value) (extra : Obj)
    → includes terminal (field status job) ≡ true
    → (e : Error) × (finish job s extra ≡ err e)
unfolding finish
finish_refused job s extra h = elim (Bool-cases (includes terminal s)) [
  | inl ends ↦ (job_already_terminal, rw ends (rw (inconsistent_terminal job sources false h)))
  | inr goes_on ↦ (not_terminal, rw goes_on)
]

finish_found-terminal :
    (k : Text) (s : Value) (extra : Obj) (now : ℕ) (jobs : Store) (job : Obj) (a : Answer)
    → includes terminal (field status job) ≡ true
    → (finish_found k s extra now jobs job a).0 ≡ jobs
finish_found-terminal k s extra now jobs job proceed h =
    let (e, refused) = finish_refused job s extra h in rw refused
finish_found-terminal k s extra now jobs job _ h = refl

-- No call of `finishAtomic` on a record in a terminal status changes the store, whatever status and
-- result it brings.
pub finish_atomic-terminal :
    (k : Text) (s : Value) (extra : Obj) (now : ℕ) (jobs : Store) {job : Obj}
    → get k jobs ≡ some job
    → includes terminal (field status job) ≡ true
    → (finish_atomic k s extra now jobs).0 ≡ jobs
unfolding finish_atomic
finish_atomic-terminal k s extra now jobs {job} there h =
    rw there
      (finish_found-terminal k s extra now jobs job (idempotentiskas_atsakymas job s extra) h)
