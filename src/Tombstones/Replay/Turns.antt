-- ===== src/Tombstones/Replay/Turns.antt =====
-- A turn of a replay undoes no final mark (`replay` of backend/utils/erasureReplay.js).
use stenograma.Prelude.{
  ℕ, ◌≡◌, refl, ◌∙◌, ap, Bool, true, false, Option, none, some, Text, Bool-cases, inl, inr, ltb,
}
use stenograma.Result.{Result, ok, err, Result-cases}
use stenograma.Tombstones.{Status, deleted, status_eq}
use stenograma.Tombstones.Memory.{Mark, Marks, get_mark}
use stenograma.Tombstones.Replay.{
  Answers, Eiga, uzdaryti, close_found, close_absent, replay_absent, replay_present, replay_one,
  has_attempts, is_critical, caught,
}
use stenograma.Tombstones.Replay.Kept.{final_at}
use stenograma.Tombstones.Replay.Closing.{final_at-uzdaryti}

pub caught-zymos : (m : Marks × Result Eiga) → (caught m).0 ≡ m.0
caught-zymos (zymos, err e) = refl
caught-zymos (zymos, ok e) = refl

module _ (c : Bool) (j : Text) (ans : Answers) (now : ℕ) (k : Text) where
  final_at-close_found :
      (kas_nors : Bool) (zymos : Marks) (z : Option Mark)
      → final_at c j zymos ≡ true
      → final_at c j (close_found ans now k kas_nors zymos z).0 ≡ true
  unfolding close_found
  final_at-close_found kas_nors zymos none h = h
  final_at-close_found kas_nors zymos (some z) h = elim (Bool-cases (status_eq z.status deleted)) [
    | inl is_deleted ↦ rw is_deleted h
    | inr other ↦ rw other (elim (Result-cases ans.audit) [
      | inr (e, thrown) ↦ rw thrown h
      | inl (u, written) ↦
          rw written (final_at-uzdaryti c j k z.status now (some kas_nors) _ zymos h)
    ])
  ]

  final_at-replay_absent :
      (zymos : Marks)
      → final_at c j zymos ≡ true
      → final_at c j (replay_absent ans now k zymos).0 ≡ true
  unfolding replay_absent close_absent
  final_at-replay_absent zymos h = elim (Result-cases ans.artefaktai) [
    | inr (e, thrown) ↦ rw thrown h
    | inl (none, unsupported) ↦ rw unsupported h
    | inl (some a, answered) ↦ rw answered (elim (Bool-cases (ltb 0 a.nepavyko)) [
      | inl left ↦ rw left h
      | inr removed ↦ rw removed (elim (Bool-cases (has_attempts a.matyti)) [
        | inr none_seen ↦
            rw none_seen (final_at-close_found (ltb 0 a.pasalinti) zymos (get_mark k zymos) h)
        | inl seen ↦ rw seen (elim (Result-cases ans.bandymai) [
          | inr (e, thrown) ↦ rw thrown h
          | inl (false, kept) ↦ rw kept h
          | inl (true, gone) ↦
              rw gone (final_at-close_found (ltb 0 a.pasalinti) zymos (get_mark k zymos) h)
        ])
      ])
    ])
  ]

  final_at-replay_present :
      (status : Status) (audio : Bool) (zymos : Marks)
      → final_at c j zymos ≡ true
      → final_at c j (replay_present ans now k status audio zymos).0 ≡ true
  unfolding replay_present
  final_at-replay_present status audio zymos h = elim (Result-cases ans.erased) [
    | inr (e, thrown) ↦ rw thrown h
    | inl (outcome, answered) ↦ rw answered (elim (Bool-cases (is_critical outcome)) [
      | inl critical ↦ rw critical h
      | inr done ↦ rw done (elim (Result-cases ans.audit) [
        | inr (e, thrown) ↦ rw thrown h
        | inl (u, written) ↦ rw written (
            ap (λ z. final_at c j z) (caught-zymos (uzdaryti k status now none _ zymos))
            ∙ final_at-uzdaryti c j k status now none _ zymos h)
      ])
    ])
  ]

pub final_at-replay_one :
    (c : Bool) (j : Text) (ans : Answers) (now : ℕ) (zyma : Mark) (zymos : Marks)
    → final_at c j zymos ≡ true
    → final_at c j (replay_one ans now zyma zymos).0 ≡ true
unfolding replay_one
final_at-replay_one c j ans now zyma zymos h = elim (Result-cases ans.job) [
  | inr (e, thrown) ↦ rw thrown h
  | inl (none, absent) ↦ rw absent (final_at-replay_absent c j ans now zyma.job_id zymos h)
  | inl (some audio, present) ↦
      rw present (final_at-replay_present c j ans now zyma.job_id zyma.status audio zymos h)
]
