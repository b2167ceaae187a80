-- ===== src/Tombstones/Safety.antt =====
-- What the in-memory store of erasure marks promises (backend/utils/deletionTombstones/memoryStore.js
-- with the tables of states.js): the table of transitions, finality, and one executor for each mark.
pub mod Invariant
pub mod Listing
use stenograma.Prelude.{
  ℕ, ◌+◌, ◌≤◌, ◌≡◌, refl, sym, ◌∙◌, ap, Bool, true, false, ◌&&◌, ◌||◌, not, Option, none, some,
  List, [], ◌∷◌, Text, text_eq, text_eq_refl, eq_of_text_eq, arith, Bool-cases, Option-cases, inl,
  inr, if◌then◌else◌,
}
use mathlib.Core.Option.{some-injective}
use stenograma.Prelude.Map.{get, set, get-set_self}
use stenograma.Result.{Result, Error, ok, err, ok-injective, type_error}
use stenograma.Tombstones.{
  Status, pending, deleted, failed, Reason, ActorKind, Given, can_transition, allowed_sources,
  includes_status, status_eq, allowed_transitions, assert_reason, assert_actor_kind,
}
use stenograma.Tombstones.Memory.{
  Mark, Marks, Options, Claim, mark, mark_checked, insert_mark, new_mark, is_blank, transition,
  perkelti, perkelti_found, moved_found, moved, next_actor, claim_retry, claim_found, may_claim,
  claimed,
}

-- The sources of a status are the statuses that may go to it.
sources_of : (from to : Status) → includes_status (allowed_sources to) from ≡ can_transition from to
unfolding allowed_sources can_transition allowed_transitions
sources_of pending pending = refl
sources_of pending deleted = refl
sources_of pending failed = refl
sources_of deleted pending = refl
sources_of deleted deleted = refl
sources_of deleted failed = refl
sources_of failed pending = refl
sources_of failed deleted = refl
sources_of failed failed = refl

final : (to : Status) → can_transition deleted to ≡ false
unfolding can_transition allowed_transitions
final to = refl

-- A deleted mark is final: no transition, to whatever status and with whatever options, changes the
-- store or answers a mark.
pub transition_deleted :
    (k : Text) (to : Status) (o : Options) (zymos : Marks) {z : Mark}
    → get k zymos ≡ some z
    → z.status ≡ deleted
    → transition k to o zymos ≡ (zymos, ok none)
unfolding transition perkelti
transition_deleted k to o zymos {z} there h =
    rw there (rw h (rw (sources_of deleted to) (rw (final to))))

moved-eq-some :
    (k : Text) (to : Status) (o : Options) (zymos : Marks) (z : Mark)
    (m : Result (Option ActorKind)) {zymos' : Marks} {z' : Mark}
    → moved_found k to o zymos z m ≡ (zymos', ok (some z'))
    → (a : Option ActorKind) × (moved z to o a ≡ z') × (set k z' zymos ≡ zymos')
moved-eq-some k to o zymos z (ok a) {zymos'} {z'} h =
    let e : moved z to o a ≡ z' = answered (moved z to o a) z' (ap (λ p. p.1) h) in
    (a, e, rw (← e) (ap (λ p. p.0) h))
  where
    answered : (x y : Mark) → ok (some x) ≡ ok (some y) → x ≡ y
    answered x y p = cc
moved-eq-some k to o zymos z (err e) {zymos'} {z'} h = absurd (thrown e z' (ap (λ p. p.1) h))
  where
    thrown : (e : Error) (y : Mark) → ◌≡◌ {A = Result (Option Mark)} (err e) (ok (some y)) → ⊥
    thrown e y p = cc

-- What a transition that answered has done.
pub record IsMove (k : Text) (to : Status) (zymos zymos' : Marks) (z' : Mark) : Type 0 where
  pub old : Mark
  pub was_there : get k zymos ≡ some old
  pub allowed : can_transition old.status to ≡ true
  pub reached : z'.status ≡ to
  pub token_cleared : z'.claim_token ≡ none
  pub same_reason : z'.reason ≡ old.reason
  pub same_request : z'.requested_at ≡ old.requested_at
  pub counted : z'.attempts ≡ (if status_eq to failed then old.attempts + 1 else old.attempts)
  pub stored : get k zymos' ≡ some z'

-- A transition that answers a mark has led along an edge of the table from the status that was
-- stored, has taken the executor's token away, counted the attempt exactly if it failed, kept the
-- reason and the time of the request, and stored what it answers.
pub transition-IsMove :
    (k : Text) (to : Status) (o : Options) (zymos : Marks) {zymos' : Marks} {z' : Mark}
    → transition k to o zymos ≡ (zymos', ok (some z'))
    → IsMove k to zymos zymos' z'
unfolding transition perkelti moved
transition-IsMove k to o zymos {zymos'} {z'} h = elim (Option-cases (get k zymos)) [
  | inl gone ↦ absurd (nothing z' (ap (λ p. p.1) (rw gone at h)))
  | inr (z, there) ↦ elim (Bool-cases (includes_status (allowed_sources to) z.status)) [
    | inl may ↦
        let (a, e, same) =
          moved-eq-some k to o zymos z (next_actor o.actor z.actor_kind)
            (rw may at (rw there at h)) in
        record {
          old = z;
          was_there = there;
          allowed = sym (sources_of z.status to) ∙ may;
          reached = rw (← e) refl;
          token_cleared = rw (← e) refl;
          same_reason = rw (← e) refl;
          same_request = rw (← e) refl;
          counted = rw (← e) refl;
          stored = rw (← same) (get-set_self k z' zymos);
        }
    | inr may_not ↦ absurd (nothing z' (ap (λ p. p.1) (rw may_not at (rw there at h))))
  ]
]
  where
    nothing : (y : Mark) → ok none ≡ ok (some y) → ⊥
    nothing y p = cc

-- What a call of `mark` that answered leaves: the answered record is stored.
pub mark_stored :
    (k : Text) (now : ℕ) (token : Text) (zymos : Marks) (r : Result Reason)
    (a : Result (Option ActorKind)) {zymos' : Marks} {z : Mark} {c : Bool}
    → mark_checked k now token zymos r a ≡ (zymos', ok (some (z, c)))
    → get k zymos' ≡ some z
unfolding insert_mark
mark_stored k now token zymos (ok r) (ok a) {zymos'} {z} {c} h = elim (Option-cases (get k zymos)) [
  | inl fresh ↦
      let g = rw fresh at h in
      rw (← ap (λ p. p.0) g) (
        get-set_self k (new_mark k r a now token) zymos
        ∙ ap some (answered (new_mark k r a now token) z true c (ap (λ p. p.1) g)))
  | inr (w, there) ↦
      let g = rw there at h in
      rw (← ap (λ p. p.0) g) (there ∙ ap some (answered w z false c (ap (λ p. p.1) g)))
]
  where
    answered :
        (x y : Mark) (b c : Bool)
        → ◌≡◌ {A = Result Claim} (ok (some (x, b))) (ok (some (y, c)))
        → x ≡ y
    answered x y b c p = cc
mark_stored k now token zymos (err e) a {zymos'} {z} {c} h =
    absurd (thrown e (z, c) (ap (λ p. p.1) h))
  where
    thrown : (e : Error) (y : Mark × Bool) → ◌≡◌ {A = Result Claim} (err e) (ok (some y)) → ⊥
    thrown e y p = cc
mark_stored k now token zymos (ok r) (err e) {zymos'} {z} {c} h =
    absurd (thrown e (z, c) (ap (λ p. p.1) h))
  where
    thrown : (e : Error) (y : Mark × Bool) → ◌≡◌ {A = Result Claim} (err e) (ok (some y)) → ⊥
    thrown e y p = cc

pub mark_checked_again :
    (k : Text) (now : ℕ) (token : Text) (zymos : Marks) (r : Reason) (a : Option ActorKind)
    {z : Mark}
    → get k zymos ≡ some z
    → mark_checked k now token zymos (ok r) (ok a) ≡ (zymos, ok (some (z, false)))
unfolding insert_mark
mark_checked_again k now token zymos r a there = rw there

-- An erasure has one executor: after a call of `mark` that answered a mark, every further valid call
-- for that job, whatever its reason and actor, answers the same mark to a caller that is told not to
-- carry the erasure out, and changes nothing.
pub mark_once :
    (k : Text) (reason reason' : Given Reason) (actor actor' : Given ActorKind) (now now' : ℕ)
    (token token' : Text) (zymos : Marks) {zymos' : Marks} {z : Mark} {c : Bool} {r : Reason}
    {a : Option ActorKind}
    → mark k reason actor now token zymos ≡ (zymos', ok (some (z, c)))
    → assert_reason reason' ≡ ok r
    → assert_actor_kind actor' ≡ ok a
    → mark k reason' actor' now' token' zymos' ≡ (zymos', ok (some (z, false)))
unfolding mark
mark_once k reason reason' actor actor' now now' token token' zymos {zymos'} {z} {c} {r} {a} h e f =
    elim (Bool-cases (is_blank k)) [
      | inl blank ↦ absurd (nothing (z, c) (ap (λ p. p.1) (rw blank at h)))
      | inr named ↦
          let stored =
            mark_stored k now token zymos (assert_reason reason) (assert_actor_kind actor)
              (rw named at h) in
          rw named (rw e (rw f (mark_checked_again k now' token' zymos' r a stored)))
    ]
  where
    nothing : (y : Mark × Bool) → ◌≡◌ {A = Result Claim} (ok none) (ok (some y)) → ⊥
    nothing y p = cc

-- A record that carries a token is not claimed.
pub claimed_taken : (w : Mark) (token : Text) (now : ℕ) → may_claim (claimed w token now) ≡ false
unfolding may_claim claimed
claimed_taken w token now = elim (Bool-cases (status_eq w.status pending)) [
  | inl at ↦ rw at
  | inr past ↦ rw past
]

claim_found_once :
    (k token token' : Text) (now now' : ℕ) (zymos : Marks) (w : Mark) {zymos' : Marks} {z : Mark}
    → claim_found k token now zymos (some w) ≡ (zymos', some z)
    → (z.claim_token ≡ some token)
      × (claim_found k token' now' zymos' (get k zymos') ≡ (zymos', none))
claim_found_once k token token' now now' zymos w {zymos'} {z} h = elim (Bool-cases (may_claim w)) [
  | inl may ↦
      let g = rw may at h in
      let is_z = some-injective (claimed w token now) z (ap (λ p. p.1) g) in
      (
        rw (← is_z) (unfold claimed in refl),
        rw (← ap (λ p. p.0) g)
            (rw (get-set_self k (claimed w token now) zymos) (rw (claimed_taken w token now))),
      )
  | inr may_not ↦ absurd (nothing z (ap (λ p. p.1) (rw may_not at h)))
]
  where
    nothing : (y : Mark) → none ≡ some y → ⊥
    nothing y p = cc

-- A retry has one executor: a caller whose claim was answered holds its own token, and until the mark
-- is moved every other claim of it is refused and changes nothing.
pub claim_retry_once :
    (k token token' : Text) (now now' : ℕ) (zymos : Marks) {zymos' : Marks} {z : Mark}
    → claim_retry k token now zymos ≡ (zymos', some z)
    → (z.claim_token ≡ some token) × (claim_retry k token' now' zymos' ≡ (zymos', none))
unfolding claim_retry
claim_retry_once k token token' now now' zymos {zymos'} {z} h = elim (Bool-cases (is_blank k)) [
  | inl blank ↦ absurd (nothing z (ap (λ p. p.1) (rw blank at h)))
  | inr named ↦ elim (Option-cases (get k zymos)) [
    | inl gone ↦ absurd (nothing z (ap (λ p. p.1) (rw gone at (rw named at h))))
    | inr (w, there) ↦
        rw named (claim_found_once k token token' now now' zymos w (rw there at (rw named at h)))
  ]
]
  where
    nothing : (y : Mark) → none ≡ some y → ⊥
    nothing y p = cc
