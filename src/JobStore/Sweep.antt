-- ===== src/JobStore/Sweep.antt =====
-- Expiry in the in-memory job store (backend/utils/jobStore/memoryStore.js): what `sweepExpired`
-- removes, what it never removes, and that `listExpired` names the same records.
use stenograma.Prelude.{
  ℕ, zero, suc, ◌+◌, ◌≤◌, ◌≡◌, refl, ◌∙◌, Bool, true, false, ◌&&◌, ◌||◌, not, none, some, [], ◌∷◌,
  Text, text_eq, eq_of_text_eq, length, arith, Bool-cases, inl, inr, if◌then◌else◌,
}
use mathlib.Core.Path.{subst}
use mathlib.Core.Option.{some-injective}
use stenograma.Prelude.Map.{get, has, Entries}
use stenograma.Job.{Obj, field, has_pending_cleanup, status, is_finished}
use stenograma.JobStore.{Store, sweep_expired, list_expired, is_expired, size}

module _ (now ttl : ℕ) where
  has-sweep_expired :
      (k : Text) (jobs : Store) → has k jobs ≡ false → has k (sweep_expired now ttl jobs).0 ≡ false
  unfolding sweep_expired has
  has-sweep_expired k [] h = refl
  has-sweep_expired k ((j, job) ∷ jobs) h = ground (arith, has-sweep_expired k jobs)

  pub sweep_expired-Entries :
      (P : Text → Obj → Type 0) (jobs : Store)
      → Entries P jobs
      → Entries P (sweep_expired now ttl jobs).0
  unfolding sweep_expired
  sweep_expired-Entries P [] h = tt
  sweep_expired-Entries P ((k, job) ∷ jobs) (p, d, rest) =
      elim (Bool-cases (is_expired now ttl job)) [
        | inl old ↦ rw old (sweep_expired-Entries P jobs rest)
        | inr kept ↦ rw kept (p, has-sweep_expired k jobs d, sweep_expired-Entries P jobs rest)
      ]

  get_of_not_has : (k : Text) (jobs : Store) → has k jobs ≡ false → get k jobs ≡ none
  unfolding get has
  get_of_not_has k [] h = refl
  get_of_not_has k ((j, job) ∷ jobs) h = ground (arith, get_of_not_has k jobs)

  -- The first entry is the one that is looked for.
  get-sweep_head :
      (k j : Text) (w : Obj) (jobs : Store)
      → text_eq j k ≡ true
      → has j jobs ≡ false
      → get k (sweep_expired now ttl ((j, w) ∷ jobs)).0
        ≡ (if is_expired now ttl w then none else some w)
  unfolding sweep_expired get
  get-sweep_head k j w jobs at d = elim (Bool-cases (is_expired now ttl w)) [
    | inl old ↦ rw old (
        get_of_not_has k (sweep_expired now ttl jobs).0 (
          subst (λ x. has x (sweep_expired now ttl jobs).0 ≡ false) (eq_of_text_eq j k at)
            (has-sweep_expired j jobs d)))
    | inr kept ↦ rw kept (rw at)
  ]

  get-sweep_tail :
      (k j : Text) (w : Obj) (jobs : Store)
      → text_eq j k ≡ false
      → get k (sweep_expired now ttl ((j, w) ∷ jobs)).0 ≡ get k (sweep_expired now ttl jobs).0
  unfolding sweep_expired get
  get-sweep_tail k j w jobs past = elim (Bool-cases (is_expired now ttl w)) [
    | inl old ↦ rw old
    | inr kept ↦ rw kept (rw past)
  ]

  -- In a store with distinct identifiers a sweep takes a record away exactly if it has expired, and
  -- leaves every other record as it is.
  pub get-sweep_expired :
      (P : Text → Obj → Type 0) (k : Text) (jobs : Store) {job : Obj}
      → Entries P jobs
      → get k jobs ≡ some job
      → get k (sweep_expired now ttl jobs).0 ≡ (if is_expired now ttl job then none else some job)
  unfolding get
  get-sweep_expired P k [] h e = cc
  get-sweep_expired P k ((j, w) ∷ jobs) {job} (p, d, rest) e = elim (Bool-cases (text_eq j k)) [
    | inl at ↦ rw (← some-injective w job (rw at at e)) (get-sweep_head k j w jobs at d)
    | inr past ↦ get-sweep_tail k j w jobs past ∙ get-sweep_expired P k jobs rest (rw past at e)
  ]

  -- A limit as large as the store lists as many identifiers as a sweep removes records.
  length-list_expired :
      (jobs : Store) (room : ℕ)
      → length jobs ≤ room
      → length (list_expired now ttl room jobs) ≡ (sweep_expired now ttl jobs).1
  unfolding list_expired sweep_expired
  length-list_expired [] room h = refl
  length-list_expired ((k, job) ∷ jobs) zero h = absurd (omega arith)
  length-list_expired ((k, job) ∷ jobs) (suc room) h =
      ground (arith, length-list_expired jobs room, length-list_expired jobs (suc room))

  -- Nothing is lost or counted twice.
  size-sweep_expired :
      (jobs : Store)
      → size (sweep_expired now ttl jobs).0 + (sweep_expired now ttl jobs).1 ≡ size jobs
  unfolding sweep_expired size
  size-sweep_expired [] = omega arith
  size-sweep_expired ((k, job) ∷ jobs) = ground (arith, size-sweep_expired jobs)

-- A sweep never takes a record with an unfinished cleanup or one that has not reached a terminal
-- status, however old it is.
pub sweep_expired_spares :
    (now ttl : ℕ) (P : Text → Obj → Type 0) (k : Text) (jobs : Store) {job : Obj}
    → Entries P jobs
    → get k jobs ≡ some job
    → (has_pending_cleanup job || not (is_finished (field status job))) ≡ true
    → get k (sweep_expired now ttl jobs).0 ≡ some job
unfolding is_expired
sweep_expired_spares now ttl P k jobs {job} h e keep =
    get-sweep_expired now ttl P k jobs h e
    ∙ rw (spared (has_pending_cleanup job) (is_finished (field status job)) _ keep)
  where
    spared :
        (pending finished old : Bool)
        → (pending || not finished) ≡ true
        → (not pending && (finished && old)) ≡ false
    spared true finished old h = refl
    spared false false old h = refl
    spared false true old h = cc

-- With a limit as large as the store, `listExpired` lists as many identifiers as `sweepExpired`
-- removes records, and what is left and what was removed add up to the store.
pub sweep_expired_counts :
    (now ttl room : ℕ) (jobs : Store)
    → size jobs ≤ room
    → (length (list_expired now ttl room jobs) ≡ (sweep_expired now ttl jobs).1)
      × (size (sweep_expired now ttl jobs).0 + (sweep_expired now ttl jobs).1 ≡ size jobs)
unfolding size
sweep_expired_counts now ttl room jobs h =
    (length-list_expired now ttl jobs room h, size-sweep_expired now ttl jobs)
