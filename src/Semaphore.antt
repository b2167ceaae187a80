-- ===== src/Semaphore.antt =====
-- The in-process semaphore that limits local transcriptions (backend/utils/concurrencyLimiter.js). A
-- waiter is the number of a call whose promise is not resolved yet; a call that is let in at once, and
-- the waiter that a release lets in, are answered.
mod Tests
use stenograma.Prelude.{
  ℕ, zero, suc, ◌+◌, ◌-◌, ◌≤◌, ◌≡◌, refl, Bool, true, false, Option, none, some, List, [], ◌∷◌,
  ◌++◌, max, arith, ℤ, pos, negsuc, ltb_ℤ, suc_ℤ, if◌then◌else◌, length, Bool-cases, inl, inr, leb,
  ◌||◌, sym, ap, length-append,
}

pub record Semaphore : Type 0 where
  pub max_concurrent : ℕ
  pub current : ℤ
  pub queue : List ℕ

-- `new Semaphore(maxConcurrent)`, for a whole number that is not negative.
unfoldable pub new_semaphore : ℕ → Semaphore
new_semaphore n = record { max_concurrent = max 1 n; current = pos 0; queue = [] }

-- `this.current--`.
abbrev pred_ℤ : ℤ → ℤ
pred_ℤ (pos zero) = negsuc 0
pred_ℤ (pos (suc n)) = pos n
pred_ℤ (negsuc n) = negsuc (n + 1)

-- `acquire()` of the call `c`: whether it is let in at once.
unfoldable pub acquire : ℕ → Semaphore → Semaphore × Bool
acquire c s =
    if ltb_ℤ s.current (pos s.max_concurrent)
    then (
      record { max_concurrent = s.max_concurrent; current = suc_ℤ s.current; queue = s.queue },
      true,
    )
    else (
      record {
        max_concurrent = s.max_concurrent;
        current = s.current;
        queue = s.queue ++ (c ∷ []);
      },
      false,
    )

abbrev release_to : Semaphore → List ℕ → Semaphore × Option ℕ
release_to s [] =
    (record { max_concurrent = s.max_concurrent; current = pred_ℤ s.current; queue = [] }, none)
release_to s (c ∷ cs) = (
  record { max_concurrent = s.max_concurrent; current = suc_ℤ (pred_ℤ s.current); queue = cs },
  some c,
)

-- `release()`: the waiter that is let in.
unfoldable pub release : Semaphore → Semaphore × Option ℕ
release s = release_to s s.queue

abbrev let_in : Bool → ℕ → List ℕ → List ℕ
let_in true c running = c ∷ running
let_in false c running = running

abbrev let_in_next : Option ℕ → List ℕ → List ℕ
let_in_next none running = running
let_in_next (some c) running = c ∷ running

-- The states of a semaphore with the calls that are let in. A call releases once, after it was let in.
pub data Reachable (n : ℕ) : Semaphore → List ℕ → Type 0 where
  start : Reachable n (new_semaphore n) []
  acquiring :
      {s : Semaphore} {running : List ℕ} (c : ℕ)
      → Reachable n s running
      → Reachable n (acquire c s).0 (let_in (acquire c s).1 c running)
  releasing :
      {s : Semaphore} (c : ℕ) (before after : List ℕ)
      → Reachable n s (before ++ (c ∷ after))
      → Reachable n (release s).0 (let_in_next (release s).1 (before ++ after))

abbrev is_empty : List ℕ → Bool
is_empty [] = true
is_empty (c ∷ cs) = false

-- The count is that of the calls inside, within the limit; and nobody waits while there is room.
pub record IsBalanced (n : ℕ) (s : Semaphore) (running : List ℕ) : Type 0 where
  pub limit_kept : s.max_concurrent ≡ max 1 n
  pub counted : s.current ≡ pos (length running)
  pub bounded : length running ≤ max 1 n
  pub no_idle_wait : (leb (max 1 n) (length running) || is_empty s.queue) ≡ true

acquire-IsBalanced :
    (n c : ℕ) (s : Semaphore) (running : List ℕ)
    → IsBalanced n s running
    → IsBalanced n (acquire c s).0 (let_in (acquire c s).1 c running)
unfolding acquire
acquire-IsBalanced n c s running h = elim (Bool-cases (ltb_ℤ s.current (pos s.max_concurrent))) [
  | inl room ↦
      let below = rw (h.counted, h.limit_kept) at room in
      rw room (record {
        limit_kept = h.limit_kept;
        counted = rw h.counted (ap pos (omega arith));
        bounded = ground arith;
        no_idle_wait = let w = h.no_idle_wait in ground arith;
      })
  | inr full ↦
      let above = rw (h.counted, h.limit_kept) at full in
      rw full (record {
        limit_kept = h.limit_kept;
        counted = h.counted;
        bounded = h.bounded;
        no_idle_wait = ground arith;
      })
]

length_middle :
    (c : ℕ) (before after : List ℕ)
    → length (before ++ (c ∷ after)) ≡ suc (length (before ++ after))
length_middle c [] after = refl
length_middle c (x ∷ before) after = ap suc (length_middle c before after)

release-IsBalanced :
    (n c : ℕ) (s : Semaphore) (before after queue : List ℕ)
    → s.queue ≡ queue
    → IsBalanced n s (before ++ (c ∷ after))
    → IsBalanced n (release_to s queue).0 (let_in_next (release_to s queue).1 (before ++ after))
release-IsBalanced n c s before after [] e h =
    let l = length_middle c before after in
    let b = h.bounded in
    record {
      limit_kept = h.limit_kept;
      counted = rw h.counted (rw l);
      bounded = omega arith;
      no_idle_wait = ground arith;
    }
release-IsBalanced n c s before after (d ∷ ds) e h =
    let l = length_middle c before after in
    let b = h.bounded in
    let w : (leb (max 1 n) (length (before ++ (c ∷ after))) || is_empty (d ∷ ds)) ≡ true =
      rw e at h.no_idle_wait in
    record {
      limit_kept = h.limit_kept;
      counted = rw h.counted (rw l (ap pos (omega arith)));
      bounded = omega arith;
      no_idle_wait = ground arith;
    }

-- Whatever calls acquire and release in whatever order, as long as a call releases once and after it was
-- let in: the semaphore counts exactly the calls inside, there are never more of them than the limit,
-- and a call waits only while the limit is used up.
pub Reachable-IsBalanced :
    (n : ℕ) {s : Semaphore} {running : List ℕ} → Reachable n s running → IsBalanced n s running
unfolding new_semaphore release
Reachable-IsBalanced n start = record {
  limit_kept = refl;
  counted = refl;
  bounded = omega arith;
  no_idle_wait = ground arith;
}
Reachable-IsBalanced n (acquiring {s = s} {running = running} c r) =
    acquire-IsBalanced n c s running (Reachable-IsBalanced n r)
Reachable-IsBalanced n (releasing {s = s} c before after r) =
    release-IsBalanced n c s before after s.queue refl (Reachable-IsBalanced n r)
