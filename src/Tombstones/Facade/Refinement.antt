-- ===== src/Tombstones/Facade/Refinement.antt =====
-- The facade of the erasure marks refines the abstract life of a mark
-- (backend/utils/deletionTombstones/index.js).
use stenograma.Prelude.{
  ℕ, zero, suc, ◌≡◌, refl, ◌∙◌, true, false, Option, none, some, List, [], ◌∷◌, Text, text_eq,
  Bool-cases, inl, inr, ℤ, eq_of_text_eq, if◌then◌else◌,
}
use stenograma.Prelude.Map.{get, has, get-of_has}
use stenograma.Result.{Result, ok, err}
use stenograma.Tombstones.{Status, pending, deleted, failed, status_eq, includes_status}
use stenograma.Tombstones.Memory.{
  Mark, Marks, Options, Claim, is_blank, transition, transition_override, claim_retry,
  purge_expired, is_purged, importuoti_zyma, merged,
}
use stenograma.Tombstones.Safety.Invariant.{IsKeyed, has-purge_expired}
use stenograma.Tombstones.Facade.{
  mark_job, complete, authoritative, retry, release, force_resolve, claim_for_deletion,
  claim_marked, claim_taken,
}
use stenograma.Tombstones.Facade.Machine.{
  status_at, Edge, stays, fails, completes, resolves, expires, Call, marking, claiming, completing,
  retrying, releasing, resolving, purging, importing, given_by, is_given, status_at-set,
  Edge-perkelti, Edge-transition, Edge-mark_job, Edge-claim_retry,
}

Edge-override :
    (j k : Text) (from : List Status) (to : Status) (o : Options) (zymos : Marks)
    → ((s : Status) → includes_status from s ≡ true → Edge none (some s) (some to))
    → Edge none (status_at j zymos) (status_at j (transition_override k from to o zymos).0)
unfolding transition_override
Edge-override j k from to o zymos edges = Edge-perkelti j k from to o zymos edges

releases : (s : Status) → includes_status (pending ∷ []) s ≡ true → Edge none (some s) (some failed)
releases pending h = fails
releases deleted h = cc
releases failed h = stays

forces :
    (s : Status)
    → includes_status (pending ∷ failed ∷ []) s ≡ true
    → Edge none (some s) (some deleted)
forces pending h = completes
forces deleted h = stays
forces failed h = resolves

claim_taken-status_at :
    (j : Text) (z : Mark) (c : Marks × Option Mark)
    → status_at j (claim_taken z c).0 ≡ status_at j c.0
claim_taken-status_at j z (zymos, none) = refl
claim_taken-status_at j z (zymos, some w) = refl

claim_marked-status_at :
    (j k token : Text) (now : ℕ) (m : Marks × Result Claim)
    → status_at j (claim_marked k token now m).0 ≡ status_at j m.0
claim_marked-status_at j k token now (zymos, err e) = refl
claim_marked-status_at j k token now (zymos, ok none) = refl
claim_marked-status_at j k token now (zymos, ok (some (z, true))) = refl
claim_marked-status_at j k token now (zymos, ok (some (z, false))) =
    elim (Bool-cases (status_eq z.status pending)) [
      | inl waits ↦ rw waits (
          claim_taken-status_at j z (claim_retry k token now zymos)
          ∙ Edge-claim_retry j k token now zymos)
      | inr other ↦ rw other refl
    ]

authoritative-status_at :
    (j k : Text) (m : Marks × Result (Option Mark))
    → status_at j (authoritative k m).0 ≡ status_at j m.0
authoritative-status_at j k (zymos, err e) = refl
authoritative-status_at j k (zymos, ok none) = refl
authoritative-status_at j k (zymos, ok (some z)) = refl

purged_deleted : (cutoff : ℤ) (z : Mark) → is_purged cutoff z ≡ true → z.status ≡ deleted
unfolding is_purged
purged_deleted cutoff z h = elim (Bool-cases (status_eq z.status deleted)) [
  | inl p ↦ is z.status p
  | inr p ↦ absurd (clash (rw p at h))
]
  where
    is : (s : Status) → status_eq s deleted ≡ true → s ≡ deleted
    is pending p = cc
    is deleted p = refl
    is failed p = cc

    clash : false ≡ true → ⊥
    clash p = cc

Edge-dropped :
    (j k : Text) (z : Mark) (zymos rest : Marks)
    → z.status ≡ deleted
    → has k rest ≡ false
    → Edge none (status_at j zymos) (status_at j rest)
    → Edge none (status_at j ((k, z) ∷ zymos)) (status_at j rest)
unfolding get
Edge-dropped j k z zymos rest is_deleted gone e = elim (Bool-cases (text_eq k j)) [
  | inl same ↦
      let is_j = eq_of_text_eq k j same in
      let none_left : get j rest ≡ none = rw (← is_j) (get-of_has k rest gone) in
      rw same (rw is_deleted (rw none_left expires))
  | inr other ↦ rw other e
]

Edge-kept :
    (j k : Text) (z : Mark) (zymos rest : Marks)
    → Edge none (status_at j zymos) (status_at j rest)
    → Edge none (status_at j ((k, z) ∷ zymos)) (status_at j ((k, z) ∷ rest))
unfolding get
Edge-kept j k z zymos rest e = elim (Bool-cases (text_eq k j)) [
  | inl same ↦ rw same stays
  | inr other ↦ rw other e
]

Edge-purge_expired :
    (j : Text) (cutoff : ℤ) (limit : Option ℕ) (zymos : Marks)
    → IsKeyed zymos
    → Edge none (status_at j zymos) (status_at j (purge_expired cutoff limit zymos).0)
unfolding purge_expired
Edge-purge_expired j cutoff (some zero) zymos good = stays
Edge-purge_expired j cutoff none [] good = stays
Edge-purge_expired j cutoff (some (suc n)) [] good = stays
Edge-purge_expired j cutoff none ((k, z) ∷ zymos) (p, d, good) =
    let rest = Edge-purge_expired j cutoff none zymos good in
    elim (Bool-cases (is_purged cutoff z)) [
      | inl old ↦ rw old (
          Edge-dropped j k z zymos _ (purged_deleted cutoff z old)
            (has-purge_expired cutoff none k zymos d) rest)
      | inr young ↦ rw young (Edge-kept j k z zymos _ rest)
    ]
Edge-purge_expired j cutoff (some (suc n)) ((k, z) ∷ zymos) (p, d, good) =
    elim (Bool-cases (is_purged cutoff z)) [
      | inl old ↦ rw old (
          Edge-dropped j k z zymos _ (purged_deleted cutoff z old)
            (has-purge_expired cutoff (some n) k zymos d)
            (Edge-purge_expired j cutoff (some n) zymos good))
      | inr young ↦
          rw young (Edge-kept j k z zymos _ (Edge-purge_expired j cutoff (some (suc n)) zymos good))
    ]

Edge-importuoti_zyma :
    (j : Text) (z : Mark) (zymos : Marks)
    → Edge
        (if text_eq z.job_id j then some z.status else none)
        (status_at j zymos)
        (status_at j (importuoti_zyma z zymos).0)
unfolding importuoti_zyma merged
Edge-importuoti_zyma j z zymos = elim (Bool-cases (text_eq z.job_id j)) [
  | inl same ↦
      rw (status_at-set j z.job_id (merged z (get z.job_id zymos)) zymos) (rw same is_given)
  | inr other ↦ rw (status_at-set j z.job_id (merged z (get z.job_id zymos)) zymos) (rw other stays)
]

-- The facade refines the life of a mark: whatever call is made, the clearing for tests apart, on whatever
-- job, each job's mark stays in its status or goes along one edge of the abstract machine, which begins
-- with `pending` and in which a deleted mark can only expire; but for the import of a mark, which gives
-- its own job the status that it carries, whatever was there, and leaves every other job. The marks
-- stand once, each under its own job.
pub Call-Edge :
    {zymos zymos' : Marks} (j : Text)
    → IsKeyed zymos
    → (call : Call zymos zymos') → Edge (given_by j call) (status_at j zymos) (status_at j zymos')
unfolding claim_for_deletion complete retry release force_resolve
Call-Edge {zymos} j good (marking k reason actor now token) =
    Edge-mark_job j k reason actor now token zymos
Call-Edge {zymos} j good (claiming k reason actor now token) =
    rw (claim_marked-status_at j k token now (mark_job k reason actor now token zymos))
      (Edge-mark_job j k reason actor now token zymos)
Call-Edge {zymos} j good (completing k s completed kind now) = elim (Bool-cases (is_blank k)) [
  | inl blank ↦ rw blank stays
  | inr named ↦
      rw named
        (rw (authoritative-status_at j k (transition k s _ zymos)) (Edge-transition j k s _ zymos))
]
Call-Edge {zymos} j good (retrying k actor now) = elim (Bool-cases (is_blank k)) [
  | inl blank ↦ rw blank stays
  | inr named ↦ rw named (Edge-transition j k pending _ zymos)
]
Call-Edge {zymos} j good (releasing k actor now) = elim (Bool-cases (is_blank k)) [
  | inl blank ↦ rw blank stays
  | inr named ↦ rw named (Edge-override j k (pending ∷ []) failed _ zymos releases)
]
Call-Edge {zymos} j good (resolving k actor completed now) = elim (Bool-cases (is_blank k)) [
  | inl blank ↦ rw blank stays
  | inr named ↦ rw named (Edge-override j k (pending ∷ failed ∷ []) deleted _ zymos forces)
]
Call-Edge {zymos} j good (purging cutoff limit) = Edge-purge_expired j cutoff limit zymos good
Call-Edge {zymos} j good (importing z) = Edge-importuoti_zyma j z zymos
