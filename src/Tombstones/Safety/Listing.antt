-- ===== src/Tombstones/Safety/Listing.antt =====
-- What `purgeExpired` takes and what `listUnresolved` shows
-- (backend/utils/deletionTombstones/memoryStore.js).
use stenograma.Prelude.{
  ℕ, zero, suc, ◌+◌, ◌-◌, ◌≤◌, ◌≡◌, Bool, true, false, Option, none, some, List, [], ◌∷◌, Text,
  text_eq, arith, Bool-cases, inl, inr, leb, map, take, filter_by, length, All, ℤ, length-take,
  length-map,
}
use mathlib.Core.Option.{some-injective}
use stenograma.Prelude.Map.{get}
use stenograma.Tombstones.{deleted, status_eq}
use stenograma.Tombstones.Memory.{
  Mark, Marks, purge_expired, is_purged, list_unresolved, is_unresolved, sort_by_age, insert_by_age,
  values, size,
}

purge_spares :
    (cutoff : ℤ) (limit : Option ℕ) (k : Text) (zymos : Marks) {z : Mark}
    → is_purged cutoff z ≡ false
    → get k zymos ≡ some z
    → get k (purge_expired cutoff limit zymos).0 ≡ some z
unfolding purge_expired get
purge_spares cutoff (some zero) k zymos p h = h
purge_spares cutoff none k [] p h = h
purge_spares cutoff (some (suc n)) k [] p h = h
purge_spares cutoff none k ((j, w) ∷ zymos) {z} p h = elim (Bool-cases (text_eq j k)) [
  | inl at ↦ let e = some-injective w z (rw at at h) in rw e (rw p (rw at))
  | inr past ↦ elim (Bool-cases (is_purged cutoff w)) [
    | inl old ↦ rw old (purge_spares cutoff none k zymos p (rw past at h))
    | inr kept ↦ rw kept (rw past (purge_spares cutoff none k zymos p (rw past at h)))
  ]
]
purge_spares cutoff (some (suc n)) k ((j, w) ∷ zymos) {z} p h = elim (Bool-cases (text_eq j k)) [
  | inl at ↦ let e = some-injective w z (rw at at h) in rw e (rw p (rw at))
  | inr past ↦ elim (Bool-cases (is_purged cutoff w)) [
    | inl old ↦ rw old (purge_spares cutoff (some n) k zymos p (rw past at h))
    | inr kept ↦ rw kept (rw past (purge_spares cutoff (some (suc n)) k zymos p (rw past at h)))
  ]
]

-- A mark that is not deleted is never purged, whatever its age: whatever the cutoff and the limit, it
-- stands in the store as before.
pub purge_expired_spares :
    (cutoff : ℤ) (limit : Option ℕ) (k : Text) (zymos : Marks) {z : Mark}
    → status_eq z.status deleted ≡ false
    → get k zymos ≡ some z
    → get k (purge_expired cutoff limit zymos).0 ≡ some z
unfolding is_purged
purge_expired_spares cutoff limit k zymos h there = purge_spares cutoff limit k zymos (rw h) there

-- With a limit a purge takes no more than the limit, and what is left and what was taken add up to the
-- store.
pub purge_expired_counts :
    (cutoff : ℤ) (limit : ℕ) (zymos : Marks)
    → ((purge_expired cutoff (some limit) zymos).1 ≤ limit)
      × (size (purge_expired cutoff (some limit) zymos).0
            + (purge_expired cutoff (some limit) zymos).1
          ≡ size zymos)
unfolding purge_expired size
purge_expired_counts cutoff zero zymos = (omega arith, omega arith)
purge_expired_counts cutoff (suc n) [] = (omega arith, omega arith)
purge_expired_counts cutoff (suc n) ((k, z) ∷ zymos) =
    let (a, b) = purge_expired_counts cutoff n zymos in
    let (c, d) = purge_expired_counts cutoff (suc n) zymos in (ground arith, ground arith)

-- Marks from the oldest request on, none before the time `t`.
abbrev IsSortedFrom : ℕ → List (Mark × ℕ) → Type 0
IsSortedFrom t [] = Unit
IsSortedFrom t ((z, age) ∷ zs) = (t ≤ z.requested_at) × IsSortedFrom z.requested_at zs

abbrev pub IsSorted : List (Mark × ℕ) → Type 0
IsSorted zs = IsSortedFrom 0 zs

module _ (now : ℕ) where
  abbrev with_age : List Mark → List (Mark × ℕ)
  with_age zs = map (λ z. (z, now - z.requested_at)) zs

  insert_sorted :
      (t : ℕ) (z : Mark) (zs : List Mark)
      → t ≤ z.requested_at
      → IsSortedFrom t (with_age zs)
      → IsSortedFrom t (with_age (insert_by_age z zs))
  unfolding insert_by_age
  insert_sorted t z [] l h = (l, tt)
  insert_sorted t z (w ∷ ws) l (a, b) = elim (Bool-cases (leb z.requested_at w.requested_at)) [
    | inl before ↦ rw before (l, (ground arith, b))
    | inr after ↦ rw after (a, insert_sorted w.requested_at z ws (ground arith) b)
  ]

  sort_sorted : (zs : List Mark) → IsSortedFrom 0 (with_age (sort_by_age zs))
  unfolding sort_by_age
  sort_sorted [] = tt
  sort_sorted (z ∷ zs) = insert_sorted 0 z (sort_by_age zs) (omega arith) (sort_sorted zs)

  take_sorted :
      (n t : ℕ) (zs : List Mark)
      → IsSortedFrom t (with_age zs)
      → IsSortedFrom t (with_age (take n zs))
  take_sorted zero t zs h = tt
  take_sorted (suc n) t [] h = tt
  take_sorted (suc n) t (z ∷ zs) (a, b) = (a, take_sorted n z.requested_at zs b)

module _ (p : Mark → Bool) where
  Holds : List Mark → Type 0
  Holds zs = All (λ z. p z ≡ true) zs

  filter_Holds : (zs : List Mark) → Holds (filter_by p zs)
  unfolding Holds
  filter_Holds [] = tt
  filter_Holds (z ∷ zs) = elim (Bool-cases (p z)) [
    | inl passes ↦ rw passes (passes, filter_Holds zs)
    | inr fails ↦ rw fails (filter_Holds zs)
  ]

  insert_Holds : (z : Mark) (zs : List Mark) → p z ≡ true → Holds zs → Holds (insert_by_age z zs)
  unfolding insert_by_age Holds
  insert_Holds z [] a h = (a, tt)
  insert_Holds z (w ∷ ws) a (b, c) = elim (Bool-cases (leb z.requested_at w.requested_at)) [
    | inl before ↦ rw before (a, (b, c))
    | inr after ↦ rw after (b, insert_Holds z ws a c)
  ]

  sort_Holds : (zs : List Mark) → Holds zs → Holds (sort_by_age zs)
  unfolding sort_by_age Holds
  sort_Holds [] h = tt
  sort_Holds (z ∷ zs) (a, h) = insert_Holds z (sort_by_age zs) a (sort_Holds zs h)

  take-Holds : (n : ℕ) (zs : List Mark) → Holds zs → Holds (take n zs)
  unfolding Holds
  take-Holds zero zs h = tt
  take-Holds (suc n) [] h = tt
  take-Holds (suc n) (z ∷ zs) (a, h) = (a, take-Holds n zs h)

  paired :
      (f : Mark → ℕ) (zs : List Mark)
      → Holds zs
      → All (λ (q : Mark × ℕ). p q.0 ≡ true) (map (λ z. (z, f z)) zs)
  unfolding Holds
  paired f [] h = tt
  paired f (z ∷ zs) (a, h) = (a, paired f zs h)

take_at_most : (n : ℕ) (zs : List Mark) → length (take n zs) ≤ n
take_at_most n zs = omega (arith, length-take n zs)

-- The list of unresolved marks holds at most `limit` marks, the oldest request first, and each of them
-- is not deleted and at least `older` milliseconds old.
pub list_unresolved_lem :
    (older limit now : ℕ) (zymos : Marks)
    → IsSorted (list_unresolved older limit now zymos)
      × All
          (λ (q : Mark × ℕ). is_unresolved older now q.0 ≡ true)
          (list_unresolved older limit now zymos)
      × (length (list_unresolved older limit now zymos) ≤ limit)
unfolding list_unresolved
list_unresolved_lem older limit now zymos =
    let p = is_unresolved older now in
    let zs = filter_by p (values zymos) in
    (
      take_sorted now limit 0 (sort_by_age zs) (sort_sorted now zs),
      paired p (λ z. now - z.requested_at) (take limit (sort_by_age zs))
          (take-Holds p limit (sort_by_age zs) (sort_Holds p zs (filter_Holds p (values zymos)))),
      omega (
        arith,
        take_at_most limit (sort_by_age zs),
        length-map {B = Mark × ℕ} (λ z. (z, now - z.requested_at)) (take limit (sort_by_age zs)),
      ),
    )
