-- ===== src/Tombstones/Facade/Tests.antt =====
-- Concrete runs of the facade of the erasure marks (backend/utils/deletionTombstones/index.js).
use stenograma.Prelude.{
  ◌+◌, ◌≡◌, ◌⊎◌, refl, false, none, some, [], ◌∷◌, Text, codes, pos, text_eq, arith,
}
use stenograma.Prelude.Map.{get, set, has}
use stenograma.Result.{ok}
use stenograma.Tombstones.{
  pending, deleted, failed, user_request, undefined, known, user, assert_reason, assert_actor_kind,
}
use stenograma.Tombstones.Memory.{
  Mark, Marks, mark, new_mark, insert_mark, purge_expired, importuoti_zyma,
}
use stenograma.Tombstones.Facade.{claim_for_deletion, mark_job, purge_loop}
use stenograma.Tombstones.Facade.Executors.{claim_for_deletion_once}
use stenograma.Tombstones.Safety.Invariant.{IsKeyed}
use stenograma.Tombstones.Facade.Machine.{Edge, status_at, importing}
use stenograma.Tombstones.Facade.Refinement.{Call-Edge}
use stenograma.Tombstones.Facade.Purge.{purge_loop-eq-purge_expired}
use stenograma.Tombstones.Facade.Retention.{
  Purged, purge_expired_marks, IsForgettable, purge_expired_marks-IsForgettable,
}

abbrev a : Text
a = codes "a"

abbrev claimed_mark : Mark
claimed_mark = record {
  job_id = a;
  status = pending;
  reason = user_request;
  actor_kind = none;
  requested_at = 5;
  updated_at = 5;
  completed_at = none;
  attempts = 0;
  last_failure_kind = none;
  claim_token = some (codes "t1");
}

abbrev deleted_mark : Mark
deleted_mark = record claimed_mark { status = deleted; completed_at = some 5; claim_token = none }

claim_for_deletion_once_example :
    claim_for_deletion a (known user_request) (known user) 8 (codes "t2") ((a, claimed_mark) ∷ [])
    ≡ ((a, claimed_mark) ∷ [], ok (some claimed_mark, false))
unfolding claim_for_deletion mark_job mark insert_mark new_mark get set text_eq assert_reason
    assert_actor_kind
claim_for_deletion_once_example =
    claim_for_deletion_once a (codes "t1") (codes "t2") 5 8 undefined (known user_request) undefined
      (known user) [] refl refl refl

purge_loop-eq-purge_expired_example :
    purge_loop 3 (pos 9) 1 0 ((a, deleted_mark) ∷ (codes "b", claimed_mark) ∷ [])
    ≡ some (
      (purge_expired (pos 9) none ((a, deleted_mark) ∷ (codes "b", claimed_mark) ∷ [])).0,
      0 + (purge_expired (pos 9) none ((a, deleted_mark) ∷ (codes "b", claimed_mark) ∷ [])).1,
    )
purge_loop-eq-purge_expired_example =
    purge_loop-eq-purge_expired (pos 9) 3 1 0 ((a, deleted_mark) ∷ (codes "b", claimed_mark) ∷ [])
      (omega arith) (omega arith)

purge_expired_marks-IsForgettable_example :
    (after : Marks) × (p : Purged) × (purge_expired_marks 2
        (some 1000)
        (some 5000)
        (some 9000)
        none
        90000000
        90000000
        ((a, deleted_mark) ∷ [])
      ≡ some (after, ok p))
    × ((get a after ≡ some deleted_mark)
        ⊎ IsForgettable (some 1000) (some 5000) (some 9000) 90000000 90000000 deleted_mark)
unfolding get text_eq
purge_expired_marks-IsForgettable_example =
    purge_expired_marks-IsForgettable 2 (some 1000) (some 5000) (some 9000) none 90000000 90000000
      ((a, deleted_mark) ∷ []) a (omega arith) refl

claimed-IsKeyed : IsKeyed ((a, claimed_mark) ∷ [])
unfolding has
claimed-IsKeyed = (refl, refl, tt)

Call-Edge_example : Edge (some failed) (status_at a ((a, claimed_mark) ∷ [])) (
    status_at a
      (importuoti_zyma (record claimed_mark { status = failed }) ((a, claimed_mark) ∷ [])).0)
unfolding text_eq
Call-Edge_example =
    Call-Edge a claimed-IsKeyed (importing (record claimed_mark { status = failed }))
