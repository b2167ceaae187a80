-- ===== src/Retry/Counter.antt =====
-- What the repeated erasures count (backend/utils/deletionRetry.js).
use stenograma.Prelude.{
  ℕ, ◌+◌, ◌≤◌, ◌≡◌, true, false, Option, none, some, List, [], ◌∷◌, Text, arith, Bool-cases, inl,
  inr, ◌⊎◌, length,
}
use stenograma.Prelude.Map.{get-set_self}
use stenograma.Retry.{
  Answers, Summary, Pending, Atsarginiai, is_due, due_by, is_left, bandymu_skaicius,
  issaugoti_bandyma, retry_one, retry_loop, backoff_ms,
}

-- The numbers of a summary fit: of `n` jobs each was attempted, deferred or left to the operator, and each
-- attempt succeeded or failed.
pub record IsSummary (n : ℕ) (s : Summary) : Type 0 where
  pub each_job : s.attempted + s.deferred + s.unresolved ≡ n
  pub each_attempt : s.succeeded + s.failures ≡ s.attempted

retry_one-IsSummary :
    (ans : Answers) (base now n : ℕ) (job : Pending) (atsarginiai : Atsarginiai) (s : Summary)
    → IsSummary n s
    → IsSummary (n + 1) (retry_one ans base now job (atsarginiai, s)).1
unfolding retry_one
retry_one-IsSummary ans base now n job atsarginiai s h =
    let jobs = h.each_job in
    let attempts = h.each_attempt in
    elim (Bool-cases (is_due job now atsarginiai)) [
      | inr early ↦
          rw (is_due, early)
            (record { each_job = omega (arith, jobs); each_attempt = omega (arith, attempts) })
      | inl due ↦ elim (Bool-cases (is_left ans.mark)) [
        | inl left ↦
            rw (is_due, due)
              (rw left
                (record { each_job = omega (arith, jobs); each_attempt = omega (arith, attempts) }))
        | inr open_mark ↦ elim (Bool-cases ans.critical) [
          | inl critical ↦
              rw (is_due, due)
                (rw open_mark (
                  rw critical (record {
                    each_job = omega (arith, jobs);
                    each_attempt = omega (arith, attempts);
                  })))
          | inr went ↦
              rw (is_due, due)
                (rw open_mark (
                  rw went (record {
                    each_job = omega (arith, jobs);
                    each_attempt = omega (arith, attempts);
                  })))
        ]
      ]
    ]

-- The summary of a run accounts for every job that was scanned: each was attempted, deferred because its
-- time has not come, or left to the operator, and each attempt succeeded or failed.
pub retry_loop-IsSummary :
    (answers : Text → Answers) (base now n : ℕ) (jobs : List Pending) (atsarginiai : Atsarginiai)
    (s : Summary)
    → IsSummary n s
    → IsSummary (n + length jobs) (retry_loop answers base now jobs (atsarginiai, s)).1
unfolding retry_loop
retry_loop-IsSummary answers base now n [] atsarginiai s h =
    let jobs = h.each_job in
    record { each_job = omega (arith, jobs); each_attempt = h.each_attempt }
retry_loop-IsSummary answers base now n (job ∷ jobs) atsarginiai s h =
    let (after, t) = retry_one (answers job.id) base now job (atsarginiai, s) in
    let rest =
      retry_loop-IsSummary answers base now (n + 1) jobs after t
        (retry_one-IsSummary (answers job.id) base now n job atsarginiai s h) in
    let all_jobs = rest.each_job in
    record { each_job = omega (arith, all_jobs); each_attempt = rest.each_attempt }

-- The count of attempts does not depend on the store of jobs: after a failed attempt whose patch the store
-- did not take, the next attempt is counted one higher, whatever the record says of fewer attempts, and
-- it is not due before the backoff of this one has passed.
pub bandymu_skaicius-issaugoti_bandyma :
    (job : Pending) (base now later : ℕ) (atsarginiai : Atsarginiai)
    → (attempts : ℕ) → bandymu_skaicius job atsarginiai ≡ attempts
    → (bandymu_skaicius job
          (issaugoti_bandyma false job.id attempts (now + backoff_ms attempts base) atsarginiai)
        ≡ attempts + 1)
      × ((is_due job later
              (issaugoti_bandyma false job.id attempts (now + backoff_ms attempts base) atsarginiai)
            ≡ false)
          ⊎ (now + backoff_ms attempts base ≤ later))
unfolding bandymu_skaicius issaugoti_bandyma is_due
bandymu_skaicius-issaugoti_bandyma job base now later atsarginiai attempts h =
    let held =
      get-set_self job.id
        (record { attempts = attempts; next_attempt_at = now + backoff_ms attempts base })
        atsarginiai in
    (
      rw held (omega (arith, h)),
      rw held (
          not_before job.deletion_next_attempt_at (now + backoff_ms attempts base) (
            Bool-cases (
              due_by job.deletion_next_attempt_at
                (some (record {
                  attempts = attempts;
                  next_attempt_at = now + backoff_ms attempts base;
                }))
                later))),
    )
  where
    not_before :
        (t : Option ℕ) (next : ℕ)
        → (due_by t (some (record { attempts = attempts; next_attempt_at = next })) later ≡ true)
          ⊎ (due_by t (some (record { attempts = attempts; next_attempt_at = next })) later ≡ false)
        → (due_by t (some (record { attempts = attempts; next_attempt_at = next })) later ≡ false)
          ⊎ (next ≤ later)
    not_before t next (inr early) = inl early
    not_before none next (inl due) = inr (ground arith)
    not_before (some t) next (inl due) = inr (ground arith)
