-- ===== src/Tombstones/Facade/Purge.antt =====
-- The purge in batches (`purgeExpired` of backend/utils/deletionTombstones/index.js) and the term it goes by.
use stenograma.Prelude.{
  ℕ, zero, suc, ◌+◌, ◌≤◌, ◌<◌, ◌≡◌, refl, ◌∙◌, ap, none, some, [], ◌∷◌, arith, Bool-cases, inl, inr,
  ltb, length, ℤ, ltb→lt,
}
use stenograma.Tombstones.Memory.{Marks, purge_expired, is_purged, size}
use stenograma.Tombstones.Safety.Listing.{purge_expired_counts}
use stenograma.Tombstones.Facade.{purge_loop}

module _ (cutoff : ℤ) where
  -- A purge that stops before its limit has taken all there is.
  purge_all :
      (n : ℕ) (zymos : Marks)
      → (purge_expired cutoff (some n) zymos).1 < n
      → ((purge_expired cutoff none zymos).0 ≡ (purge_expired cutoff (some n) zymos).0)
        × ((purge_expired cutoff none zymos).1 ≡ (purge_expired cutoff (some n) zymos).1)
  unfolding purge_expired
  purge_all zero zymos h = absurd (omega arith)
  purge_all (suc n) [] h = (refl, refl)
  purge_all (suc n) ((k, z) ∷ zymos) h = elim (Bool-cases (is_purged cutoff z)) [
    | inl old ↦
        let below : (purge_expired cutoff (some n) zymos).1 + 1 < suc n = rw old at h in
        let (a, b) = purge_all n zymos (omega arith) in rw old (a, omega arith)
    | inr kept ↦
        let below : (purge_expired cutoff (some (suc n)) zymos).1 < suc n = rw kept at h in
        let (a, b) = purge_all (suc n) zymos below in rw kept (ap (λ zs. (k, z) ∷ zs) a, b)
  ]

  -- A purge with a limit, and then one with none, is one with none.
  purge_split :
      (n : ℕ) (zymos : Marks)
      → ((purge_expired cutoff none (purge_expired cutoff (some n) zymos).0).0
          ≡ (purge_expired cutoff none zymos).0)
        × ((purge_expired cutoff (some n) zymos).1
              + (purge_expired cutoff none (purge_expired cutoff (some n) zymos).0).1
            ≡ (purge_expired cutoff none zymos).1)
  unfolding purge_expired
  purge_split zero zymos = (refl, omega arith)
  purge_split (suc n) [] = (refl, omega arith)
  purge_split (suc n) ((k, z) ∷ zymos) = elim (Bool-cases (is_purged cutoff z)) [
    | inl old ↦ let (a, b) = purge_split n zymos in rw old (a, omega arith)
    | inr kept ↦
        let (a, b) = purge_split (suc n) zymos in rw kept (rw kept (ap (λ zs. (k, z) ∷ zs) a, b))
  ]

  purge_size :
      (n : ℕ) (zymos : Marks)
      → length (purge_expired cutoff (some n) zymos).0 + (purge_expired cutoff (some n) zymos).1
        ≡ length zymos
  unfolding size
  purge_size n zymos = (purge_expired_counts cutoff n zymos).1

  -- The loop in batches comes to its end and does what one purge without a limit does, if the batches
  -- are not empty and the fuel exceeds the number of marks.
  pub purge_loop-eq-purge_expired :
      (fuel batch total : ℕ) (zymos : Marks)
      → 0 < batch
      → length zymos < fuel
      → purge_loop fuel cutoff batch total zymos
        ≡ some ((purge_expired cutoff none zymos).0, total + (purge_expired cutoff none zymos).1)
  unfolding purge_loop
  purge_loop-eq-purge_expired zero batch total zymos b h = absurd (omega arith)
  purge_loop-eq-purge_expired (suc fuel) batch total zymos b h =
      elim (Bool-cases (ltb (purge_expired cutoff (some batch) zymos).1 batch)) [
        | inl last ↦ let (a, c) = purge_all batch zymos (ltb→lt _ _ last) in rw last (rw a (rw c))
        | inr full ↦
            let l = purge_size batch zymos in
            let more : batch ≤ (purge_expired cutoff (some batch) zymos).1 = ground arith in
            let (a, c) = purge_split batch zymos in
            let kiek = (purge_expired cutoff (some batch) zymos).1 in
            let after = (purge_expired cutoff (some batch) zymos).0 in
            rw full (
              purge_loop-eq-purge_expired fuel batch (total + kiek) after b (omega arith)
              ∙ rw a (
                  ap some (ap (λ (m : ℕ). ((purge_expired cutoff none zymos).0, m)) (omega arith))))
      ]
