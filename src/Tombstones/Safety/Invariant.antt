-- ===== src/Tombstones/Safety/Invariant.antt =====
-- The invariant of the erasure marks, over every sequence of operations of the in-memory store
-- (backend/utils/deletionTombstones/memoryStore.js), what a purge takes and what the list of unresolved
-- marks shows.
use stenograma.Prelude.{
  ℕ, zero, suc, ◌≡◌, refl, Bool, true, false, ◌||◌, not, Option, none, some, List, [], ◌∷◌, ◌++◌,
  All, Text, arith, Bool-cases, Option-cases, inl, inr, leb, ℤ,
}
use stenograma.Prelude.Map.{get, has, Entries, Entries-get, Entries-set}
use stenograma.Result.{Result, ok, err}
use stenograma.Tombstones.{
  Status, pending, deleted, failed, Reason, ActorKind, Given, status_eq, includes_status,
  allowed_sources, assert_reason, assert_actor_kind,
}
use stenograma.Tombstones.Memory.{
  Mark, Marks, Options, mark, mark_checked, insert_mark, new_mark, is_blank, transition,
  transition_override, perkelti, moved_found, moved, next_actor, claim_retry, may_claim, claimed,
  importuoti_zyma, merged, purge_expired, is_purged, clear,
}

abbrev pub is_there {ℓ} : {A : Type ℓ} → Option A → Bool
is_there none = false
is_there (some a) = true

-- A mark under its own job: a time of completion exactly where it is deleted, an executor only while
-- it is pending, and a counted attempt where it failed.
pub record IsMark (k : Text) (z : Mark) : Type 0 where
  pub own_job : z.job_id ≡ k
  pub completed_fits : is_there z.completed_at ≡ status_eq z.status deleted
  pub token_fits : (not (is_there z.claim_token) || status_eq z.status pending) ≡ true
  pub attempts_fit : (not (status_eq z.status failed) || leb 1 z.attempts) ≡ true

abbrev pub IsMarks : Marks → Type 0
IsMarks zymos = Entries IsMark zymos

-- Each mark stands once, under its own job.
abbrev pub IsKeyed : Marks → Type 0
IsKeyed zymos = Entries (λ k z. z.job_id ≡ k) zymos

new_mark-IsMark :
    (k : Text) (r : Reason) (a : Option ActorKind) (now : ℕ) (token : Text)
    → IsMark k (new_mark k r a now token)
unfolding new_mark
new_mark-IsMark k r a now token = record {
  own_job = refl;
  completed_fits = refl;
  token_fits = refl;
  attempts_fit = refl;
}

moved-IsMark :
    (k : Text) (z : Mark) (to : Status) (o : Options) (a : Option ActorKind)
    → IsMark k z
    → IsMark k (moved z to o a)
unfolding moved
moved-IsMark k z pending o a h = record {
  own_job = h.own_job;
  completed_fits = refl;
  token_fits = refl;
  attempts_fit = refl;
}
moved-IsMark k z deleted o a h = record {
  own_job = h.own_job;
  completed_fits = refl;
  token_fits = refl;
  attempts_fit = refl;
}
moved-IsMark k z failed o a h = record {
  own_job = h.own_job;
  completed_fits = refl;
  token_fits = refl;
  attempts_fit = ground arith;
}

claimed-IsMark :
    (k : Text) (z : Mark) (token : Text) (now : ℕ)
    → IsMark k z
    → may_claim z ≡ true
    → IsMark k (claimed z token now)
unfolding may_claim claimed
claimed-IsMark k z token now h may = record {
  own_job = h.own_job;
  completed_fits = h.completed_fits;
  token_fits = ground arith;
  attempts_fit = h.attempts_fit;
}

merged-IsMark : (k : Text) (z : Mark) (old : Option Mark) → IsMark k z → IsMark k (merged z old)
unfolding merged
merged-IsMark k z none h = record {
  own_job = h.own_job;
  completed_fits = h.completed_fits;
  token_fits = refl;
  attempts_fit = let a = h.attempts_fit in ground arith;
}
merged-IsMark k z (some w) h = record {
  own_job = h.own_job;
  completed_fits = h.completed_fits;
  token_fits = refl;
  attempts_fit = let a = h.attempts_fit in ground arith;
}

-- One call on the store, whatever it answers. An imported mark comes from the export of a store that
-- had the invariant.
pub data Step (zymos : Marks) : List Mark → Marks → Type 0 where
  marking :
      (k : Text) (reason : Given Reason) (actor : Given ActorKind) (now : ℕ) (token : Text)
      → Step zymos [] (mark k reason actor now token zymos).0
  moving : (k : Text) (to : Status) (o : Options) → Step zymos [] (transition k to o zymos).0
  overriding :
      (k : Text) (from : List Status) (to : Status) (o : Options)
      → Step zymos [] (transition_override k from to o zymos).0
  claiming : (k token : Text) (now : ℕ) → Step zymos [] (claim_retry k token now zymos).0
  importing : (z : Mark) → Step zymos (z ∷ []) (importuoti_zyma z zymos).0
  purging : (cutoff : ℤ) (limit : Option ℕ) → Step zymos [] (purge_expired cutoff limit zymos).0
  clearing : Step zymos [] (clear zymos)

-- The stores that sequences of operations lead to, with all the marks that they import.
pub data Reachable : List Mark → Marks → Type 0 where
  start : Reachable [] []
  next :
      {imported more : List Mark} {zymos zymos' : Marks}
      → Reachable imported zymos
      → Step zymos more zymos'
      → Reachable (more ++ imported) zymos'

-- The marks of a list are such as the store itself makes them.
abbrev pub AreMarks : List Mark → Type 0
AreMarks zs = All (λ (z : Mark). IsMark z.job_id z) zs

mark_checked-IsMarks :
    (k : Text) (now : ℕ) (token : Text) (zymos : Marks) (r : Result Reason)
    (a : Result (Option ActorKind))
    → IsMarks zymos
    → IsMarks (mark_checked k now token zymos r a).0
unfolding insert_mark
mark_checked-IsMarks k now token zymos (ok r) (ok a) h = elim (Option-cases (get k zymos)) [
  | inl fresh ↦
      rw fresh
        (Entries-set IsMark k (new_mark k r a now token) zymos (new_mark-IsMark k r a now token) h)
  | inr (z, there) ↦ rw there h
]
mark_checked-IsMarks k now token zymos (err e) a h = h
mark_checked-IsMarks k now token zymos (ok r) (err e) h = h

mark-IsMarks :
    (k : Text) (reason : Given Reason) (actor : Given ActorKind) (now : ℕ) (token : Text)
    (zymos : Marks)
    → IsMarks zymos
    → IsMarks (mark k reason actor now token zymos).0
unfolding mark
mark-IsMarks k reason actor now token zymos h = elim (Bool-cases (is_blank k)) [
  | inl blank ↦ rw blank h
  | inr named ↦
      rw named
        (mark_checked-IsMarks k now token zymos (assert_reason reason) (assert_actor_kind actor) h)
]

moved_found-IsMarks :
    (k : Text) (to : Status) (o : Options) (zymos : Marks) (z : Mark)
    (m : Result (Option ActorKind))
    → IsMark k z
    → IsMarks zymos
    → IsMarks (moved_found k to o zymos z m).0
moved_found-IsMarks k to o zymos z (ok a) p h =
    Entries-set IsMark k (moved z to o a) zymos (moved-IsMark k z to o a p) h
moved_found-IsMarks k to o zymos z (err e) p h = h

perkelti-IsMarks :
    (k : Text) (from : List Status) (to : Status) (o : Options) (zymos : Marks)
    → IsMarks zymos
    → IsMarks (perkelti k from to o zymos).0
unfolding perkelti
perkelti-IsMarks k from to o zymos h = elim (Option-cases (get k zymos)) [
  | inl gone ↦ rw gone h
  | inr (z, there) ↦ elim (Bool-cases (includes_status from z.status)) [
    | inl may ↦ rw there (
        rw may (
          moved_found-IsMarks k to o zymos z (next_actor o.actor z.actor_kind)
            (Entries-get IsMark k zymos h there) h))
    | inr may_not ↦ rw there (rw may_not h)
  ]
]

claim_IsMarks :
    (k token : Text) (now : ℕ) (zymos : Marks)
    → IsMarks zymos
    → IsMarks (claim_retry k token now zymos).0
unfolding claim_retry
claim_IsMarks k token now zymos h = elim (Bool-cases (is_blank k)) [
  | inl blank ↦ rw blank h
  | inr named ↦ elim (Option-cases (get k zymos)) [
    | inl gone ↦ rw named (rw gone h)
    | inr (z, there) ↦ elim (Bool-cases (may_claim z)) [
      | inl may ↦ rw named (
          rw there (
            rw may (
              Entries-set IsMark k (claimed z token now) zymos
                (claimed-IsMark k z token now (Entries-get IsMark k zymos h there) may) h)))
      | inr may_not ↦ rw named (rw there (rw may_not h))
    ]
  ]
]

pub has-purge_expired :
    (cutoff : ℤ) (limit : Option ℕ) (k : Text) (zymos : Marks)
    → has k zymos ≡ false
    → has k (purge_expired cutoff limit zymos).0 ≡ false
unfolding purge_expired has
has-purge_expired cutoff (some zero) k zymos h = h
has-purge_expired cutoff none k [] h = refl
has-purge_expired cutoff (some (suc n)) k [] h = refl
has-purge_expired cutoff none k ((j, z) ∷ zymos) h =
    ground (arith, has-purge_expired cutoff none k zymos)
has-purge_expired cutoff (some (suc n)) k ((j, z) ∷ zymos) h = ground (
  arith,
  has-purge_expired cutoff (some n) k zymos,
  has-purge_expired cutoff (some (suc n)) k zymos,
)

purge_IsMarks :
    (cutoff : ℤ) (limit : Option ℕ) (zymos : Marks)
    → IsMarks zymos
    → IsMarks (purge_expired cutoff limit zymos).0
unfolding purge_expired
purge_IsMarks cutoff (some zero) zymos h = h
purge_IsMarks cutoff none [] h = tt
purge_IsMarks cutoff (some (suc n)) [] h = tt
purge_IsMarks cutoff none ((j, z) ∷ zymos) (p, d, rest) = elim (Bool-cases (is_purged cutoff z)) [
  | inl old ↦ rw old (purge_IsMarks cutoff none zymos rest)
  | inr kept ↦
      rw kept (p, has-purge_expired cutoff none j zymos d, purge_IsMarks cutoff none zymos rest)
]
purge_IsMarks cutoff (some (suc n)) ((j, z) ∷ zymos) (p, d, rest) =
    elim (Bool-cases (is_purged cutoff z)) [
      | inl old ↦ rw old (purge_IsMarks cutoff (some n) zymos rest)
      | inr kept ↦ rw kept (
        p,
        has-purge_expired cutoff (some (suc n)) j zymos d,
        purge_IsMarks cutoff (some (suc n)) zymos rest,
      )
    ]

Step-IsMarks :
    {imported : List Mark} {zymos zymos' : Marks}
    → Step zymos imported zymos'
    → AreMarks imported
    → IsMarks zymos
    → IsMarks zymos'
unfolding transition transition_override importuoti_zyma clear
Step-IsMarks {zymos} (marking k reason actor now token) given h =
    mark-IsMarks k reason actor now token zymos h
Step-IsMarks {zymos} (moving k to o) given h = perkelti-IsMarks k (allowed_sources to) to o zymos h
Step-IsMarks {zymos} (overriding k from to o) given h = perkelti-IsMarks k from to o zymos h
Step-IsMarks {zymos} (claiming k token now) given h = claim_IsMarks k token now zymos h
Step-IsMarks {zymos} (importing z) (p, rest) h =
    let q = merged-IsMark z.job_id z (get z.job_id zymos) p in
    Entries-set IsMark _ _ zymos (unfold merged in q) h
Step-IsMarks {zymos} (purging cutoff limit) given h = purge_IsMarks cutoff limit zymos h
Step-IsMarks clearing given h = tt

All-split : (xs ys : List Mark) → AreMarks (xs ++ ys) → AreMarks xs × AreMarks ys
All-split [] ys h = (tt, h)
All-split (x ∷ xs) ys (p, h) = let (a, b) = All-split xs ys h in ((p, a), b)

-- Whatever operations are carried out, in every order, if the marks that are imported have themselves the
-- properties that follow, which the import does not test: each stored mark stands once under its own job,
-- has a time of completion exactly if it is deleted, an executor's token only while it is pending, and
-- at least one counted attempt if it has failed.
pub Reachable-IsMarks :
    {imported : List Mark} {zymos : Marks}
    → Reachable imported zymos
    → AreMarks imported
    → IsMarks zymos
Reachable-IsMarks start given = tt
Reachable-IsMarks (next {imported} {more} r s) given =
    let (now, before) = All-split more imported given in
    Step-IsMarks s now (Reachable-IsMarks r before)
