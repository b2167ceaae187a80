-- ===== src/JobStore/Locking.antt =====
-- Optimistic locking and ownership in the job store (backend/utils/jobStore/memoryStore.js).
use stenograma.Prelude.{
  ℕ, ◌+◌, ◌≤◌, ◌<◌, ◌≡◌, sym, ◌∙◌, ap, Bool, true, false, Option, none, some, Text, arith,
  Bool-cases, Option-cases, inl, inr, ◌⊎◌, pos,
}
use stenograma.Prelude.Map.{get, set, get-set_self}
use stenograma.Result.{Result, Error, ok, err, ok-injective, invalid_version}
use stenograma.Value.{Value, num, int, finite, strict_eq}
use stenograma.Job.{Obj, field, version, or_undefined}
use stenograma.Job.Normalize.{versijos_lubos}
use stenograma.Job.Patch.{apply_patch}
use stenograma.Job.Patch.Protected.{apply_patch_next, apply_patch_full}
use stenograma.Job.Owner.{Scope, matches_owner}
use stenograma.JobStore.{
  Store, Reply, missing, found, forbidden, concurrency_conflict, update, update_owned, update_found,
  version_conflict, commit, get_owned, remove_owned, removal_forbidden,
}

-- A version that agrees with the expected number is that number.
agreed_version :
    (v : Option Value) (n : ℕ)
    → strict_eq (or_undefined v) (num (int n)) ≡ true
    → v ≡ some (num (int n))
unfolding strict_eq
agreed_version none n h = cc
agreed_version (some v) n h = agreed_value v n h
  where
    agreed_value :
        (v : Value) (n : ℕ) → strict_eq v (num (int n)) ≡ true → some v ≡ some (num (int n))
    agreed_value (num (finite (pos m) f)) n h = ground arith
    agreed_value _ n h = ground arith

pub commit-eq-found :
    (k : Text) (jobs : Store) (m : Result Obj) {jobs' : Store} {r : Obj}
    → commit k jobs m ≡ (jobs', ok (found r))
    → (m ≡ ok r) × (set k r jobs ≡ jobs')
commit-eq-found k jobs (ok q) {jobs'} {r} h =
    let same = found_same q r (ap (λ p. p.1) h) in
    (ap ok same, ap (λ x. set k x jobs) (sym same) ∙ ap (λ p. p.0) h)
  where
    found_same : (q r : Obj) → ok (found q) ≡ ok (found r) → q ≡ r
    found_same q r e = cc
commit-eq-found k jobs (err e) {jobs'} {r} h = absurd (not_found e r (ap (λ p. p.1) h))
  where
    not_found : (e : Error) (r : Obj) → ◌≡◌ {A = Result Reply} (err e) (ok (found r)) → ⊥
    not_found e r p = cc

-- A patch that was accepted at version `n` leaves version `n + 1`.
patched_to_next :
    (job patch : Obj) (now n : ℕ) {r : Obj}
    → job version ≡ some (num (int n))
    → apply_patch job patch now ≡ ok r
    → r version ≡ some (num (int (n + 1)))
patched_to_next job patch now n {r} v e = elim (lt_or_ge n) [
  | inl below ↦
      let (q, done, next) = apply_patch_next job patch now n v below in
      rw (ok-injective r q (sym e ∙ done)) next
  | inr full ↦ absurd (refused r (sym e ∙ apply_patch_full job patch now n v full))
]
  where
    lt_or_ge : (n : ℕ) → (n < versijos_lubos) ⊎ (versijos_lubos ≤ n)
    lt_or_ge n = grind arith

    refused : (r : Obj) → ok r ≡ err invalid_version → ⊥
    refused r p = cc

module _ (k : Text) (patch : Obj) (now n : ℕ) (jobs : Store) where
  update_found_next :
      (job : Obj) {jobs' : Store} {r : Obj}
      → update_found k patch (num (int n)) now jobs job ≡ (jobs', ok (found r))
      → (r version ≡ some (num (int (n + 1)))) × (set k r jobs ≡ jobs')
  unfolding update_found version_conflict
  update_found_next job {jobs'} {r} h =
      elim (Bool-cases (strict_eq (field version job) (num (int n)))) [
        | inl agrees ↦
            let (done, same) =
              commit-eq-found k jobs (apply_patch job patch now) (rw agrees at h) in
            (patched_to_next job patch now n (agreed_version (job version) n agrees) done, same)
        | inr differs ↦ absurd (no_conflict r (ap (λ p. p.1) (rw differs at h)))
      ]
    where
      no_conflict : (r : Obj) → ok concurrency_conflict ≡ ok (found r) → ⊥
      no_conflict r p = cc

  update_next :
      {jobs' : Store} {r : Obj}
      → update k patch (num (int n)) now jobs ≡ (jobs', ok (found r))
      → (r version ≡ some (num (int (n + 1)))) × (set k r jobs ≡ jobs')
  unfolding update
  update_next {jobs'} {r} h = elim (Option-cases (get k jobs)) [
    | inl gone ↦ absurd (not_missing r (ap (λ p. p.1) (rw gone at h)))
    | inr (job, there) ↦ update_found_next job (rw there at h)
  ]
    where
      not_missing : (r : Obj) → ok missing ≡ ok (found r) → ⊥
      not_missing r p = cc

stale : (n : ℕ) → strict_eq (num (int (n + 1))) (num (int n)) ≡ false
unfolding strict_eq
stale n = ground arith

-- No update is lost: once an update that expected version `n` has been stored, every other update of
-- that record which still expects `n` is refused as a conflict, and changes nothing.
pub update_once :
    (k : Text) (patch patch' : Obj) (now now' n : ℕ) (jobs : Store) {jobs' : Store} {r : Obj}
    → update k patch (num (int n)) now jobs ≡ (jobs', ok (found r))
    → update k patch' (num (int n)) now' jobs' ≡ (jobs', ok concurrency_conflict)
unfolding update update_found version_conflict
update_once k patch patch' now now' n jobs {jobs'} {r} h =
    let (next, same) = update_next k patch now n jobs h in
    rw (← same) (rw (get-set_self k r jobs) (rw next (rw (stale n))))

-- For a stored record that does not match the caller's scope, reading, updating and removing it as its
-- owner each answer "forbidden", whatever version the caller expects, and neither of the last two
-- changes the store.
pub foreign_forbidden :
    (k : Text) (scope : Scope) (patch : Obj) (expected : Value) (hydrate : Bool) (now : ℕ)
    (jobs : Store) {job : Obj}
    → get k jobs ≡ some job
    → matches_owner job scope ≡ false
    → (get_owned k scope hydrate jobs ≡ forbidden)
      × (update_owned k patch scope expected now jobs ≡ (jobs, ok forbidden))
      × (remove_owned k scope jobs ≡ (jobs, removal_forbidden))
unfolding get_owned update_owned remove_owned
foreign_forbidden k scope patch expected hydrate now jobs there foreign =
    (rw there (rw foreign), rw there (rw foreign), rw there (rw foreign))
