-- ===== src/Tombstones/Facade/Retention.antt =====
-- The retention of deleted marks (`purgeExpired` of backend/utils/deletionTombstones/index.js): the term, the
-- limit and the purge in batches together.
use stenograma.Prelude.{
  ℕ, zero, suc, ◌+◌, ◌-◌, ◌≤◌, ◌<◌, ◌≡◌, refl, ap, Bool, true, false, ◌&&◌, Option, none, some, [],
  ◌∷◌, Text, text_eq, arith, Bool-cases, Option-cases, inl, inr, ◌⊎◌, ltb, leb, length, max, ℤ, pos,
  negsuc, ltb→lt,
}
use mathlib.Core.Option.{some-injective}
use stenograma.Prelude.Map.{get}
use stenograma.Result.{Result, ok, err, ok-injective}
use stenograma.Tombstones.{Status, pending, deleted, failed, status_eq}
use stenograma.Tombstones.Memory.{Mark, Marks, purge_expired, is_purged, retencijos_riba}
use stenograma.Tombstones.Facade.{
  purge_loop, retention_ms, retention_base, with_issued, safety_margin_ms,
}
use stenograma.Tombstones.Facade.Purge.{purge_loop-eq-purge_expired}

-- `RETENCIJOS_500`.
abbrev pub retencijos_batch : ℕ
retencijos_batch = 500

-- What `purgeExpired` answers.
pub record Purged : Type 0 where
  pub removed : ℕ
  pub skipped : Bool

abbrev pub purged : Option (Marks × ℕ) → Option (Marks × Result Purged)
purged none = none
purged (some (after, pasalinta)) =
    some (after, ok (record { removed = pasalinta; skipped = false }))

abbrev pub purge_below : ℕ → Marks → Result ℤ → Option (Marks × Result Purged)
purge_below fuel zymos (err e) = some (zymos, err e)
purge_below fuel zymos (ok cutoff) = purged (purge_loop fuel cutoff retencijos_batch 0 zymos)

abbrev pub purge_after : ℕ → ℕ → Marks → Option ℕ → Option (Marks × Result Purged)
purge_after fuel now zymos none = some (zymos, ok (record { removed = 0; skipped = true }))
purge_after fuel now zymos (some terminas) =
    purge_below fuel zymos (retencijos_riba (some terminas) now)

-- `purgeExpired(now, env)`, where `issued` is the horizon of the copies after it was read again and
-- `retentionMs` reads the clock itself; `none` when the fuel runs out.
unfoldable pub purge_expired_marks :
    ℕ → Option ℕ → Option ℕ → Option ℕ → Option ℕ → ℕ → ℕ → Marks → Option (Marks × Result Purged)
unfolding retention_ms purge_loop
purge_expired_marks fuel horizontas kopijos issued rankinis clock now zymos =
    purge_after fuel now zymos (retention_ms horizontas kopijos issued rankinis clock)

-- A term that is found is longer, by the margin of a day, than the horizon of the queues and than the
-- retention of backups.
retention_ms-ge :
    (horizontas kopijos issued rankinis : Option ℕ) (now t : ℕ)
    → retention_ms horizontas kopijos issued rankinis now ≡ some t
    → (h : ℕ) × (k : ℕ) × (horizontas ≡ some h)
      × (kopijos ≡ some k)
      × (max h (with_issued k issued now) + safety_margin_ms ≤ t)
unfolding retention_ms retention_base
retention_ms-ge none kopijos issued rankinis now t h = cc
retention_ms-ge (some h) none issued rankinis now t e = cc
retention_ms-ge (some h) (some k) issued rankinis now t e =
    (h, k, refl, refl, base_ge h (with_issued k issued now) rankinis t e)
  where
    base_ge :
        (h k : ℕ) (rankinis : Option ℕ) (t : ℕ)
        → retention_base h k rankinis ≡ some t
        → max h k + safety_margin_ms ≤ t
    base_ge zero k rankinis t e = ground arith
    base_ge (suc h) zero rankinis t e = ground arith
    base_ge (suc h) (suc k) none t e = ground arith
    base_ge (suc h) (suc k) (some r) t e = ground arith

-- A mark that a purge takes.
taken :
    (cutoff : ℤ) (zymos : Marks) (j : Text) {z : Mark}
    → get j zymos ≡ some z
    → (get j (purge_expired cutoff none zymos).0 ≡ some z) ⊎ (is_purged cutoff z ≡ true)
unfolding get purge_expired
taken cutoff [] j h = cc
taken cutoff ((k, w) ∷ zymos) j {z} h = elim (Bool-cases (text_eq k j)) [
  | inl same ↦
      let is = some-injective w z (rw same at h) in
      elim (Bool-cases (is_purged cutoff w)) [
        | inl old ↦ inr (rw (← is) old)
        | inr young ↦ inl (rw young (rw same (ap some is)))
      ]
  | inr other ↦ elim (taken cutoff zymos j (rw other at h)) [
    | inr old ↦ inr old
    | inl there ↦ inl (elim (Bool-cases (is_purged cutoff w)) [
      | inl gone ↦ rw gone there
      | inr young ↦ rw young (rw other there)
    ])
  ]
]

-- A mark that a purge takes is deleted, and older than the term.
old_enough :
    (t now : ℕ) (cutoff : ℤ) (z : Mark)
    → retencijos_riba (some t) now ≡ ok cutoff
    → is_purged cutoff z ≡ true
    → (z.status ≡ deleted) × (z.updated_at + t < now)
unfolding retencijos_riba is_purged
old_enough zero now cutoff z h g = cc
old_enough (suc n) now cutoff z h g = elim (Bool-cases (leb (suc n) now)) [
  | inl reached ↦
      let is : pos (now - suc n) ≡ cutoff = ok-injective _ _ (rw reached at h) in
      let old : (status_eq z.status deleted && ltb z.updated_at (now - suc n)) ≡ true =
        rw (← is) at g in
      let (ended, below) = both (status_eq z.status deleted) _ old in
      let early = ltb→lt _ _ below in (deleted_of z.status ended, omega (arith, early))
  | inr before ↦
      let is : negsuc (n - now) ≡ cutoff = ok-injective _ _ (rw before at h) in
      absurd (clash (status_eq z.status deleted) (rw (← is) at g))
]
  where
    both : (a b : Bool) → (a && b) ≡ true → (a ≡ true) × (b ≡ true)
    both true true h = (refl, refl)
    both true false h = cc
    both false b h = cc

    deleted_of : (x : Status) → status_eq x deleted ≡ true → x ≡ deleted
    deleted_of pending h = cc
    deleted_of deleted h = refl
    deleted_of failed h = cc

    clash : (a : Bool) → (a && false) ≡ true → ⊥
    clash true p = cc
    clash false p = cc

-- When a deleted mark may be forgotten: the time since its last change exceeds, by the margin of a day,
-- the horizon of the queues, the retention of backups, and what is left at `clock` of the life of the
-- copy that was issued for longest.
pub record IsForgettable (horizontas kopijos issued : Option ℕ) (clock now : ℕ) (z : Mark)
    : Type 0 where
  pub is_deleted : z.status ≡ deleted
  pub behind_queues : (h : ℕ) × (horizontas ≡ some h) × (z.updated_at + h + safety_margin_ms < now)
  pub behind_backups : (k : ℕ) × (kopijos ≡ some k) × (z.updated_at + k + safety_margin_ms < now)
  pub behind_copies :
      (issued ≡ none)
      ⊎ ((e : ℕ) × (issued ≡ some e) × (z.updated_at + e + safety_margin_ms < now + clock))

forgettable :
    (horizontas kopijos issued rankinis : Option ℕ) (clock now t : ℕ) (cutoff : ℤ) (z : Mark)
    → retention_ms horizontas kopijos issued rankinis clock ≡ some t
    → retencijos_riba (some t) now ≡ ok cutoff
    → is_purged cutoff z ≡ true
    → IsForgettable horizontas kopijos issued clock now z
forgettable horizontas kopijos issued rankinis clock now t cutoff z term limit old =
    let (h, k, is_h, is_k, long) =
      retention_ms-ge horizontas kopijos issued rankinis clock t term in
    let (is_deleted, early) = old_enough t now cutoff z limit old in
    let (a, b) = within k issued in
    record {
      is_deleted = is_deleted;
      behind_queues = (h, is_h, omega (arith, long, early));
      behind_backups = (k, is_k, omega (arith, long, early, a));
      behind_copies = elim b [
        | inl none_issued ↦ inl none_issued
        | inr (e, is_e, covered) ↦ inr (e, is_e, omega (arith, long, early, covered))
      ];
    }
  where
    within :
        (k : ℕ) (issued : Option ℕ)
        → (k ≤ with_issued k issued clock)
          × ((issued ≡ none)
              ⊎ ((e : ℕ) × (issued ≡ some e) × (e ≤ with_issued k issued clock + clock)))
    within k none = (omega arith, inl refl)
    within k (some e) = (omega arith, inr (e, refl, omega arith))

riba_ok :
    (horizontas kopijos issued rankinis : Option ℕ) (clock now t : ℕ)
    → retention_ms horizontas kopijos issued rankinis clock ≡ some t
    → (cutoff : ℤ) × (retencijos_riba (some t) now ≡ ok cutoff)
unfolding retencijos_riba
riba_ok horizontas kopijos issued rankinis clock now t term =
    let (h, k, is_h, is_k, long) =
      retention_ms-ge horizontas kopijos issued rankinis clock t term in
    positive t (omega (arith, long))
  where
    positive : (t : ℕ) → 0 < t → (cutoff : ℤ) × (retencijos_riba (some t) now ≡ ok cutoff)
    positive zero p = absurd (omega (arith, p))
    positive (suc n) p = (_, refl)

-- No mark is forgotten too early: the purge of the facade ends without an error, with more fuel than
-- marks, and a mark that is there before it is there after it, or it is deleted and the time since its
-- last change exceeds, by the margin of a day, the horizon of the queues, the retention of backups and
-- what is left of the life of the copy that was issued for longest, whatever manual term is set. Where
-- the horizon or the retention is not known no mark goes.
pub purge_expired_marks-IsForgettable :
    (fuel : ℕ) (horizontas kopijos issued rankinis : Option ℕ) (clock now : ℕ) (zymos : Marks)
    (j : Text) {z : Mark}
    → length zymos < fuel
    → get j zymos ≡ some z
    → (after : Marks) × (p : Purged) × (purge_expired_marks fuel horizontas kopijos issued rankinis
          clock now zymos
        ≡ some (after, ok p))
      × ((get j after ≡ some z) ⊎ IsForgettable horizontas kopijos issued clock now z)
unfolding purge_expired_marks
purge_expired_marks-IsForgettable fuel horizontas kopijos issued rankinis clock now zymos j {z}
      enough there =
    elim (Option-cases (retention_ms horizontas kopijos issued rankinis clock)) [
      | inl unknown ↦ (zymos, record { removed = 0; skipped = true }, rw unknown refl, inl there)
      | inr (t, term) ↦
          let (cutoff, limit) = riba_ok horizontas kopijos issued rankinis clock now t term in
          let ends =
            purge_loop-eq-purge_expired cutoff fuel retencijos_batch 0 zymos (omega arith) enough in
          (
            (purge_expired cutoff none zymos).0,
            record { removed = 0 + (purge_expired cutoff none zymos).1; skipped = false },
            rw term (rw limit (rw ends refl)),
            elim (taken cutoff zymos j there) [
              | inl stays ↦ inl stays
              | inr old ↦ inr (
                  forgettable horizontas kopijos issued rankinis clock now t cutoff z term limit
                    old)
            ],
          )
    ]
