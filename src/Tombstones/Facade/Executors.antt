-- ===== src/Tombstones/Facade/Executors.antt =====
-- Who carries an erasure out (`claimForDeletion` of backend/utils/deletionTombstones/index.js), and what the
-- operator's actions lead to (backend/services/erasureMarkService.js).
use stenograma.Prelude.{
  ℕ, ◌≡◌, refl, ◌∙◌, ap, Bool, true, false, Option, none, some, Text, arith, Bool-cases,
  Option-cases, inl, inr, ◌⊎◌,
}
use mathlib.Core.Option.{some-injective}
use stenograma.Prelude.Map.{get, get-set_self}
use stenograma.Result.{Result, Error, ok, err}
use stenograma.Tombstones.{
  pending, Reason, ActorKind, Given, status_eq, assert_reason, assert_actor_kind,
}
use stenograma.Tombstones.Memory.{
  Mark, Marks, Claim, is_blank, mark, mark_checked, insert_mark, new_mark, claim_retry, may_claim,
  claimed,
}
use stenograma.Tombstones.Safety.{mark_stored, mark_checked_again, claimed_taken}
use stenograma.Tombstones.Facade.{
  Executor, claim_for_deletion, claim_marked, claim_taken, mark_job, or_user_request,
}

-- A mark that nobody may take: it is stored, and somebody holds its token while it is pending.
record IsHeld (k : Text) (zymos : Marks) (z : Mark) : Type 0 where
  stored : get k zymos ≡ some z
  is_pending : z.status ≡ pending
  taken : may_claim z ≡ false
  named : is_blank k ≡ false

module _ (k token : Text) (now : ℕ) where
  fresh-IsHeld :
      (zymos : Marks) (r : Result Reason) (a : Result (Option ActorKind)) {zymos' : Marks}
      {z : Mark}
      → is_blank k ≡ false
      → mark_checked k now token zymos r a ≡ (zymos', ok (some (z, true)))
      → IsHeld k zymos' z
  unfolding insert_mark new_mark may_claim
  fresh-IsHeld zymos (err e) a {z = z} n h = absurd (thrown e (z, true) (ap (λ p. p.1) h))
    where
      thrown : (e : Error) (y : Mark × Bool) → ◌≡◌ {A = Result Claim} (err e) (ok (some y)) → ⊥
      thrown e y p = cc
  fresh-IsHeld zymos (ok r) (err e) {z = z} n h = absurd (thrown e (z, true) (ap (λ p. p.1) h))
    where
      thrown : (e : Error) (y : Mark × Bool) → ◌≡◌ {A = Result Claim} (err e) (ok (some y)) → ⊥
      thrown e y p = cc
  fresh-IsHeld zymos (ok r) (ok a) {z = z} n h = elim (Option-cases (get k zymos)) [
    | inl unmarked ↦
        let e = rw unmarked at h in
        let is_z = created (new_mark k r a now token) z (ap (λ p. p.1) e) in
        record {
          stored = mark_stored k now token zymos (ok r) (ok a) h;
          is_pending = rw (← is_z) refl;
          taken = rw (← is_z) refl;
          named = n;
        }
    | inr (w, there) ↦ absurd (seen w z (ap (λ p. p.1) (rw there at h)))
  ]
    where
      created :
          (x y : Mark) → ◌≡◌ {A = Result Claim} (ok (some (x, true))) (ok (some (y, true))) → x ≡ y
      created x y p = cc

      seen : (x y : Mark) → ◌≡◌ {A = Result Claim} (ok (some (x, false))) (ok (some (y, true))) → ⊥
      seen x y p = cc

  retaken-IsHeld :
      (zymos : Marks) {zymos' : Marks} {z : Mark}
      → claim_retry k token now zymos ≡ (zymos', some z)
      → IsHeld k zymos' z
  unfolding claim_retry
  retaken-IsHeld zymos {zymos'} {z} h = elim (Bool-cases (is_blank k)) [
    | inl blank ↦ absurd (nothing z (ap (λ p. p.1) (rw blank at h)))
    | inr named ↦ elim (Option-cases (get k zymos)) [
      | inl gone ↦ absurd (nothing z (ap (λ p. p.1) (rw gone at (rw named at h))))
      | inr (w, there) ↦ elim (Bool-cases (may_claim w)) [
        | inl may ↦
            let e = rw may at (rw there at (rw named at h)) in
            let is_z = some-injective (claimed w token now) z (ap (λ p. p.1) e) in
            record {
              stored =
                  rw (← ap (λ p. p.0) e)
                    (get-set_self k (claimed w token now) zymos ∙ ap some is_z);
              is_pending = rw (← is_z) (was_pending w may);
              taken = rw (← is_z) (claimed_taken w token now);
              named = named;
            }
        | inr may_not ↦
            absurd (nothing z (ap (λ p. p.1) (rw may_not at (rw there at (rw named at h)))))
      ]
    ]
  ]
    where
      nothing : (y : Mark) → none ≡ some y → ⊥
      nothing y p = cc

      was_pending : (w : Mark) → may_claim w ≡ true → (claimed w token now).status ≡ pending
      was_pending w p = unfold may_claim claimed in ground arith

  claim_marked-cases :
      (m : Marks × Result Claim) {zymos' : Marks} {z : Mark}
      → claim_marked k token now m ≡ (zymos', ok (some z, true))
      → (m ≡ (zymos', ok (some (z, true))))
        ⊎ ((zymos : Marks) × (claim_retry k token now zymos ≡ (zymos', some z)))
  claim_marked-cases (zymos, err e) {z = z} h = absurd (thrown e (some z, true) (ap (λ p. p.1) h))
    where
      thrown : (e : Error) (y : Executor) → ◌≡◌ {A = Result Executor} (err e) (ok y) → ⊥
      thrown e y p = cc
  claim_marked-cases (zymos, ok none) {z = z} h = absurd (unnamed z (ap (λ p. p.1) h))
    where
      unnamed : (y : Mark) → ◌≡◌ {A = Result Executor} (ok (none, false)) (ok (some y, true)) → ⊥
      unnamed y p = cc
  claim_marked-cases (zymos, ok (some (w, true))) {zymos'} {z} h =
      inl (rw (ap (λ p. p.0) h) (rw (answered w z (ap (λ p. p.1) h)) refl))
    where
      answered :
          (x y : Mark) → ◌≡◌ {A = Result Executor} (ok (some x, true)) (ok (some y, true)) → x ≡ y
      answered x y p = cc
  claim_marked-cases (zymos, ok (some (w, false))) {zymos'} {z} h =
      elim (Bool-cases (status_eq w.status pending)) [
        | inl p ↦ inr (zymos, retaken w (claim_retry k token now zymos) (rw p at h))
        | inr p ↦ absurd (refused w z (ap (λ p. p.1) (rw p at h)))
      ]
    where
      refused :
          (x y : Mark) → ◌≡◌ {A = Result Executor} (ok (some x, false)) (ok (some y, true)) → ⊥
      refused x y p = cc

      answered :
          (x y : Mark) → ◌≡◌ {A = Result Executor} (ok (some x, true)) (ok (some y, true)) → x ≡ y
      answered x y p = cc

      retaken :
          (w : Mark) (c : Marks × Option Mark) {zymos' : Marks} {z : Mark}
          → claim_taken w c ≡ (zymos', ok (some z, true))
          → c ≡ (zymos', some z)
      retaken w (zymos, none) {z = z} h = absurd (refused w z (ap (λ p. p.1) h))
      retaken w (zymos, some x) {z = z} h =
          rw (ap (λ p. p.0) h) (rw (answered x z (ap (λ p. p.1) h)) refl)

  claim_for_deletion-IsHeld :
      (reason : Given Reason) (actor : Given ActorKind) (zymos : Marks) {zymos' : Marks} {z : Mark}
      → claim_for_deletion k reason actor now token zymos ≡ (zymos', ok (some z, true))
      → IsHeld k zymos' z
  unfolding claim_for_deletion mark_job mark
  claim_for_deletion-IsHeld reason actor zymos {zymos'} {z} h =
      elim (claim_marked-cases (mark_job k reason actor now token zymos) h) [
        | inr (zymos1, retried) ↦ retaken-IsHeld zymos1 retried
        | inl marked ↦ elim (Bool-cases (is_blank k)) [
          | inl blank ↦ absurd (unnamed z (ap (λ p. p.1) (rw blank at marked)))
          | inr named ↦
              fresh-IsHeld zymos (assert_reason (or_user_request reason)) (assert_actor_kind actor)
                named (rw named at marked)
        ]
      ]
    where
      unnamed : (y : Mark) → ◌≡◌ {A = Result Claim} (ok none) (ok (some (y, true))) → ⊥
      unnamed y p = cc

IsHeld-claim_for_deletion :
    (k token : Text) (now : ℕ) (reason : Given Reason) (actor : Given ActorKind) (zymos : Marks)
    {z : Mark} {r : Reason} {a : Option ActorKind}
    → IsHeld k zymos z
    → assert_reason (or_user_request reason) ≡ ok r
    → assert_actor_kind actor ≡ ok a
    → claim_for_deletion k reason actor now token zymos ≡ (zymos, ok (some z, false))
unfolding claim_for_deletion mark_job mark claim_retry
IsHeld-claim_for_deletion k token now reason actor zymos {z} {r} {a} held e f = rw held.named (
    rw e (
      rw f (
        rw (mark_checked_again k now token zymos r a held.stored)
          (rw held.is_pending (rw held.named (rw held.stored (rw held.taken refl)))))))

-- An erasure has one executor: once a call of `claimForDeletion` has told its caller to carry the
-- erasure of a job out, every further valid call for that job answers the same mark, tells its caller
-- not to, and changes nothing, whether the first call created the mark or took over a released one.
pub claim_for_deletion_once :
    (k token token' : Text) (now now' : ℕ) (reason reason' : Given Reason)
    (actor actor' : Given ActorKind) (zymos : Marks) {zymos' : Marks} {z : Mark} {r : Reason}
    {a : Option ActorKind}
    → claim_for_deletion k reason actor now token zymos ≡ (zymos', ok (some z, true))
    → assert_reason (or_user_request reason') ≡ ok r
    → assert_actor_kind actor' ≡ ok a
    → claim_for_deletion k reason' actor' now' token' zymos' ≡ (zymos', ok (some z, false))
claim_for_deletion_once k token token' now now' reason reason' actor actor' zymos {zymos'} h e f =
    IsHeld-claim_for_deletion k token' now' reason' actor' zymos'
      (claim_for_deletion-IsHeld k token now reason actor zymos h) e f
