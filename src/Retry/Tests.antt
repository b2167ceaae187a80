-- ===== src/Retry/Tests.antt =====
-- Concrete retries (backend/utils/deletionRetry.js).
use stenograma.Prelude.{◌+◌, ◌≤◌, ◌≡◌, refl, false, none, [], codes, ◌⊎◌}
use stenograma.Prelude.Map.{get}
use stenograma.Retry.{Pending, bandymu_skaicius, issaugoti_bandyma, is_due, backoff_ms}
use stenograma.Retry.Counter.{bandymu_skaicius-issaugoti_bandyma}

abbrev job : Pending
job = record { id = codes "a"; deletion_attempts = 2; deletion_next_attempt_at = none }

bandymu_skaicius-issaugoti_bandyma_example :
    (bandymu_skaicius job (issaugoti_bandyma false job.id 3 (5 + backoff_ms 3 60) []) ≡ 3 + 1)
    × ((is_due job 100 (issaugoti_bandyma false job.id 3 (5 + backoff_ms 3 60) []) ≡ false)
        ⊎ (5 + backoff_ms 3 60 ≤ 100))
unfolding bandymu_skaicius get
bandymu_skaicius-issaugoti_bandyma_example =
    bandymu_skaicius-issaugoti_bandyma job 60 5 100 [] 3 refl
