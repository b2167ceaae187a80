-- ===== src/Semaphore/Tests.antt =====
-- A concrete run of the semaphore (backend/utils/concurrencyLimiter.js): the second call waits, and is
-- let in when the first releases.
use stenograma.Prelude.{[], ◌∷◌}
use stenograma.Semaphore.{
  new_semaphore, acquire, release, start, acquiring, releasing, IsBalanced, Reachable-IsBalanced,
}

Reachable-IsBalanced_example :
    IsBalanced 1 (release (acquire 8 (acquire 7 (new_semaphore 1)).0).0).0 (8 ∷ [])
unfolding new_semaphore acquire release
Reachable-IsBalanced_example =
    Reachable-IsBalanced 1 (releasing 7 [] [] (acquiring 8 (acquiring 7 start)))
