-- ===== src/Tombstones/Replay/Closing.antt =====
-- The closing of one mark (`_paruostiUzdarymui` and the ends of the branches of `replay`,
-- backend/utils/erasureReplay.js): it undoes no final mark, and without a failure the mark is deleted.
use stenograma.Prelude.{
  ℕ, ◌≡◌, refl, ◌∙◌, ap, Bool, true, false, Option, none, some, Text, Bool-cases, inl, inr,
}
use stenograma.Result.{Result, Error, ok, err, ok-injective}
use stenograma.Tombstones.{Status, deleted, failed, known, undefined, operator, status_eq}
use stenograma.Tombstones.Memory.{Mark, Marks}
use stenograma.Tombstones.Facade.{retry, complete}
use stenograma.Tombstones.Replay.{
  Eiga, nesekminga, negrizo_i_pending, neuzdaryta, is_pending_mark, is_deleted_mark, answered,
  paruosti_uzdarymui, after_complete, after_paruosti, uzdaryti,
}
use stenograma.Tombstones.Replay.Kept.{
  final_at, final_at-retry, final_at-complete, complete-get_mark,
}

answered-zymos :
    (test : Option Mark → Bool) (m : Marks × Result (Option Mark)) → (answered test m).0 ≡ m.0
answered-zymos test (zymos, err e) = refl
answered-zymos test (zymos, ok z) = refl

after_complete-zymos :
    (good bad : Eiga) (m : Marks × Result Bool) → (after_complete good bad m).0 ≡ m.0
after_complete-zymos good bad (zymos, err e) = refl
after_complete-zymos good bad (zymos, ok true) = refl
after_complete-zymos good bad (zymos, ok false) = refl

module _ (c : Bool) (j : Text) where
  final_at-paruosti_uzdarymui :
      (k : Text) (status : Status) (now : ℕ) (zymos : Marks)
      → final_at c j zymos ≡ true
      → final_at c j (paruosti_uzdarymui k status now zymos).0 ≡ true
  unfolding paruosti_uzdarymui
  final_at-paruosti_uzdarymui k status now zymos h = elim (Bool-cases (status_eq status failed)) [
    | inl has_failed ↦ rw has_failed (
        ap (λ z. final_at c j z)
          (answered-zymos is_pending_mark (retry k (known operator) now zymos))
        ∙ final_at-retry c j k (known operator) now zymos h)
    | inr other ↦ rw other h
  ]

  final_at-after_paruosti :
      (k : Text) (now : ℕ) (rado : Option Bool) (good : Eiga) (m : Marks × Result Bool)
      → final_at c j m.0 ≡ true
      → final_at c j (after_paruosti k now rado good m).0 ≡ true
  final_at-after_paruosti k now rado good (zymos, err e) h = h
  final_at-after_paruosti k now rado good (zymos, ok false) h = h
  final_at-after_paruosti k now rado good (zymos, ok true) h =
      let m = answered is_deleted_mark (complete k deleted (some now) undefined now zymos) in
      ap (λ z. final_at c j z)
        (after_complete-zymos good (nesekminga rado neuzdaryta) m
          ∙ answered-zymos is_deleted_mark (complete k deleted (some now) undefined now zymos))
      ∙ final_at-complete c j k deleted (some now) undefined now zymos h

  pub final_at-uzdaryti :
      (k : Text) (status : Status) (now : ℕ) (rado : Option Bool) (good : Eiga) (zymos : Marks)
      → final_at c j zymos ≡ true
      → final_at c j (uzdaryti k status now rado good zymos).0 ≡ true
  unfolding uzdaryti
  final_at-uzdaryti k status now rado good zymos h =
      final_at-after_paruosti k now rado good (paruosti_uzdarymui k status now zymos)
        (final_at-paruosti_uzdarymui k status now zymos h)

module _ (k : Text) (now : ℕ) (rado : Option Bool) (good : Eiga) where
  completed_closes :
      (m : Marks × Result (Option Mark)) (zymos : Marks) {zymos' : Marks} {e : Eiga}
      → complete k deleted (some now) undefined now zymos ≡ m
      → after_complete good (nesekminga rado neuzdaryta) (answered is_deleted_mark m)
        ≡ (zymos', ok e)
      → e.nesekme ≡ none
      → final_at false k zymos' ≡ true
  completed_closes (z, err x) zymos is h clean = absurd (thrown x _ (ap (λ p. p.1) h))
    where
      thrown : (x : Error) (e : Eiga) → ◌≡◌ {A = Result Eiga} (err x) (ok e) → ⊥
      thrown x e p = cc
  completed_closes (z, ok none) zymos is h clean =
      absurd (failing (ap (λ e. e.nesekme) (ok-injective _ _ (ap (λ p. p.1) h)) ∙ clean))
    where
      failing : some neuzdaryta ≡ none → ⊥
      failing p = cc
  completed_closes (z, ok (some w)) zymos is h clean =
      elim (Bool-cases (status_eq w.status deleted)) [
        | inl is_deleted ↦
            let e = rw is_deleted at h in
            rw (← ap (λ p. p.0) e)
              (rw (complete-get_mark k deleted (some now) undefined now zymos is) is_deleted)
        | inr other ↦ absurd (
            failing
              (ap (λ e. e.nesekme) (ok-injective _ _ (ap (λ p. p.1) (rw other at h))) ∙ clean))
      ]
    where
      failing : some neuzdaryta ≡ none → ⊥
      failing p = cc

  paruosta_closes :
      (m : Marks × Result Bool) {zymos' : Marks} {e : Eiga}
      → after_paruosti k now rado good m ≡ (zymos', ok e)
      → e.nesekme ≡ none
      → final_at false k zymos' ≡ true
  paruosta_closes (z, err x) h clean = absurd (thrown x _ (ap (λ p. p.1) h))
    where
      thrown : (x : Error) (e : Eiga) → ◌≡◌ {A = Result Eiga} (err x) (ok e) → ⊥
      thrown x e p = cc
  paruosta_closes (z, ok false) h clean =
      absurd (failing (ap (λ e. e.nesekme) (ok-injective _ _ (ap (λ p. p.1) h)) ∙ clean))
    where
      failing : some negrizo_i_pending ≡ none → ⊥
      failing p = cc
  paruosta_closes (z, ok true) h clean = completed_closes _ z refl h clean

  pub uzdaryti_closes :
      (status : Status) (zymos : Marks) {zymos' : Marks} {e : Eiga}
      → uzdaryti k status now rado good zymos ≡ (zymos', ok e)
      → e.nesekme ≡ none
      → final_at false k zymos' ≡ true
  unfolding uzdaryti
  uzdaryti_closes status zymos h clean =
      paruosta_closes (paruosti_uzdarymui k status now zymos) h clean
