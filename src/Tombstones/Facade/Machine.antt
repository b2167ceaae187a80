-- ===== src/Tombstones/Facade/Machine.antt =====
-- The abstract life of an erasure mark, and the facade as a refinement of it
-- (backend/utils/deletionTombstones/index.js).
use stenograma.Prelude.{
  ℕ, ◌≡◌, refl, true, Option, none, some, List, Text, text_eq, Bool-cases, Option-cases, inl, inr,
  if◌then◌else◌, ℤ, eq_of_text_eq,
}
use stenograma.Prelude.Map.{get, set, get-set}
use stenograma.Result.{Result, ok, err}
use stenograma.Tombstones.{
  Status, pending, deleted, failed, Reason, ActorKind, Given, FailureKind, includes_status,
  allowed_sources, can_transition, allowed_transitions, assert_reason, assert_actor_kind,
}
use stenograma.Tombstones.Memory.{
  Mark, Marks, Options, is_blank, mark, mark_checked, insert_mark, new_mark, transition, perkelti,
  moved_found, moved, next_actor, claim_retry, may_claim, claimed, purge_expired, importuoti_zyma,
}
use stenograma.Tombstones.Facade.{
  mark_job, complete, retry, release, force_resolve, claim_for_deletion, or_user_request,
}

-- The status of a job's mark, `none` while it has none.
abbrev pub status_of : Option Mark → Option Status
status_of none = none
status_of (some z) = some z.status

abbrev pub status_at : Text → Marks → Option Status
status_at k zymos = status_of (get k zymos)

-- The life of one mark: its own steps, and what an import gives it, if there is one.
pub data Edge : Option Status → Option Status → Option Status → Type 0 where
  stays : {s : Option Status} → Edge none s s
  begins : Edge none none (some pending)
  completes : Edge none (some pending) (some deleted)
  fails : Edge none (some pending) (some failed)
  tries_again : Edge none (some failed) (some pending)
  resolves : Edge none (some failed) (some deleted)
  expires : Edge none (some deleted) none
  is_given : {s : Option Status} {t : Status} → Edge (some t) s (some t)

-- One call on the facade.
pub data Call (zymos : Marks) : Marks → Type 0 where
  marking :
      (k : Text) (reason : Given Reason) (actor : Given ActorKind) (now : ℕ) (token : Text)
      → Call zymos (mark_job k reason actor now token zymos).0
  claiming :
      (k : Text) (reason : Given Reason) (actor : Given ActorKind) (now : ℕ) (token : Text)
      → Call zymos (claim_for_deletion k reason actor now token zymos).0
  completing :
      (k : Text) (s : Status) (completed : Option ℕ) (kind : Given FailureKind) (now : ℕ)
      → Call zymos (complete k s completed kind now zymos).0
  retrying : (k : Text) (actor : Given ActorKind) (now : ℕ) → Call zymos (retry k actor now zymos).0
  releasing :
      (k : Text) (actor : Given ActorKind) (now : ℕ) → Call zymos (release k actor now zymos).0
  resolving :
      (k : Text) (actor : Given ActorKind) (completed : Option ℕ) (now : ℕ)
      → Call zymos (force_resolve k actor completed now zymos).0
  purging : (cutoff : ℤ) (limit : Option ℕ) → Call zymos (purge_expired cutoff limit zymos).0
  importing : (z : Mark) → Call zymos (importuoti_zyma z zymos).0

-- What a call imports for the job `j`: a call that is no import gives nothing.
abbrev pub given_by : (j : Text) {zymos zymos' : Marks} → Call zymos zymos' → Option Status
given_by j (importing z) = if text_eq z.job_id j then some z.status else none
given_by j (marking k reason actor now token) = none
given_by j (claiming k reason actor now token) = none
given_by j (completing k s completed kind now) = none
given_by j (retrying k actor now) = none
given_by j (releasing k actor now) = none
given_by j (resolving k actor completed now) = none
given_by j (purging cutoff limit) = none

pub status_at-set :
    (j k : Text) (z : Mark) (zymos : Marks)
    → status_at j (set k z zymos) ≡ (if text_eq k j then some z.status else status_at j zymos)
status_at-set j k z zymos = elim (Bool-cases (text_eq k j)) [
  | inl same ↦ rw (get-set k j z zymos) (rw same refl)
  | inr other ↦ rw (get-set k j z zymos) (rw other refl)
]

-- A record that replaces another one moves its job along an edge if the statuses do.
Edge-set :
    (j k : Text) (w z : Mark) (zymos : Marks)
    → get k zymos ≡ some w
    → Edge none (some w.status) (some z.status)
    → Edge none (status_at j zymos) (status_at j (set k z zymos))
Edge-set j k w z zymos there e = elim (Bool-cases (text_eq k j)) [
  | inl same ↦
      let is_j = eq_of_text_eq k j same in
      let at_j : get j zymos ≡ some w = rw (← is_j) there in
      rw (status_at-set j k z zymos) (rw same (rw at_j e))
  | inr other ↦ rw (status_at-set j k z zymos) (rw other stays)
]

Edge-moved_found :
    (j k : Text) (to : Status) (o : Options) (zymos : Marks) (w : Mark)
    (a : Result (Option ActorKind))
    → get k zymos ≡ some w
    → Edge none (some w.status) (some to)
    → Edge none (status_at j zymos) (status_at j (moved_found k to o zymos w a).0)
Edge-moved_found j k to o zymos w (err e) there edge = stays
Edge-moved_found j k to o zymos w (ok a) there edge =
    Edge-set j k w (moved w to o a) zymos there (unfold moved in edge)

pub Edge-perkelti :
    (j k : Text) (from : List Status) (to : Status) (o : Options) (zymos : Marks)
    → ((s : Status) → includes_status from s ≡ true → Edge none (some s) (some to))
    → Edge none (status_at j zymos) (status_at j (perkelti k from to o zymos).0)
unfolding perkelti
Edge-perkelti j k from to o zymos edges = elim (Option-cases (get k zymos)) [
  | inl gone ↦ rw (perkelti, gone) stays
  | inr (w, there) ↦ elim (Bool-cases (includes_status from w.status)) [
    | inl may ↦
        rw (perkelti, there)
          (rw may (
            Edge-moved_found j k to o zymos w (next_actor o.actor w.actor_kind) there
              (edges w.status may)))
    | inr may_not ↦ rw (perkelti, there) (rw may_not stays)
  ]
]

along :
    (to s : Status) → includes_status (allowed_sources to) s ≡ true → Edge none (some s) (some to)
unfolding allowed_sources can_transition allowed_transitions
along pending pending h = cc
along pending deleted h = cc
along pending failed h = tries_again
along deleted pending h = completes
along deleted deleted h = stays
along deleted failed h = cc
along failed pending h = fails
along failed deleted h = cc
along failed failed h = stays

pub Edge-transition :
    (j k : Text) (to : Status) (o : Options) (zymos : Marks)
    → Edge none (status_at j zymos) (status_at j (transition k to o zymos).0)
unfolding transition
Edge-transition j k to o zymos = Edge-perkelti j k (allowed_sources to) to o zymos (along to)

Edge-mark_checked :
    (j k : Text) (now : ℕ) (token : Text) (zymos : Marks) (r : Result Reason)
    (a : Result (Option ActorKind))
    → Edge none (status_at j zymos) (status_at j (mark_checked k now token zymos r a).0)
unfolding insert_mark new_mark
Edge-mark_checked j k now token zymos (err e) a = stays
Edge-mark_checked j k now token zymos (ok r) (err e) = stays
Edge-mark_checked j k now token zymos (ok r) (ok a) = elim (Option-cases (get k zymos)) [
  | inr (w, there) ↦ rw there stays
  | inl gone ↦ rw gone (elim (Bool-cases (text_eq k j)) [
    | inl same ↦
        let is_j = eq_of_text_eq k j same in
        let at_j : get j zymos ≡ none = rw (← is_j) gone in
        rw (status_at-set j k (new_mark k r a now token) zymos) (rw same (rw at_j begins))
    | inr other ↦ rw (status_at-set j k (new_mark k r a now token) zymos) (rw other stays)
  ])
]

pub Edge-mark_job :
    (j k : Text) (reason : Given Reason) (actor : Given ActorKind) (now : ℕ) (token : Text)
    (zymos : Marks)
    → Edge none (status_at j zymos) (status_at j (mark_job k reason actor now token zymos).0)
unfolding mark_job mark
Edge-mark_job j k reason actor now token zymos = elim (Bool-cases (is_blank k)) [
  | inl blank ↦ rw blank stays
  | inr named ↦ rw named (
      Edge-mark_checked j k now token zymos (assert_reason (or_user_request reason))
        (assert_actor_kind actor))
]

pub Edge-claim_retry :
    (j k token : Text) (now : ℕ) (zymos : Marks)
    → status_at j (claim_retry k token now zymos).0 ≡ status_at j zymos
unfolding claim_retry claimed
Edge-claim_retry j k token now zymos = elim (Bool-cases (is_blank k)) [
  | inl blank ↦ rw blank refl
  | inr named ↦ elim (Option-cases (get k zymos)) [
    | inl gone ↦ rw named (rw gone refl)
    | inr (w, there) ↦ elim (Bool-cases (may_claim w)) [
      | inr may_not ↦ rw named (rw there (rw may_not refl))
      | inl may ↦ rw named (
          rw there (
            rw may (elim (Bool-cases (text_eq k j)) [
              | inl same ↦
                  let is_j = eq_of_text_eq k j same in
                  let at_j : get j zymos ≡ some w = rw (← is_j) there in
                  rw (status_at-set j k (claimed w token now) zymos) (rw same (rw at_j refl))
              | inr other ↦ rw (status_at-set j k (claimed w token now) zymos) (rw other refl)
            ])))
    ]
  ]
]
