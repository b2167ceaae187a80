-- ===== src/Transcript/Dedup/Runs.antt =====
-- The runs that a collapse finds (the two loops of backend/utils/transcriptDedup.js), described apart from
-- how it finds them.
use stenograma.Prelude.{
  ℕ, suc, ◌+◌, ◌≤◌, ◌<◌, ◌≡◌, refl, ap, true, false, List, [], ◌∷◌, ◌++◌, Text, text_eq,
  eq_of_text_eq, text_eq_refl, length, arith, Bool-cases, inl, inr, ◌⊎◌, take,
}
use stenograma.Transcript.Dedup.{run_length, skip, last_of, repeats}

module _ {ℓ} {A : Type ℓ} (key : A → Text) where
  -- The items all have the key, which is not empty.
  abbrev pub AllRepeat : Text → List A → Type 0
  AllRepeat k [] = Unit
  AllRepeat k (x ∷ xs) = (key x ≡ k) × (k ≡ [] → ⊥) × AllRepeat k xs

  -- The first of the items has another key, or the key is empty, or there are no items.
  abbrev pub Breaks : Text → List A → Type 0
  Breaks k [] = Unit
  Breaks k (x ∷ xs) = (key x ≡ k → ⊥) ⊎ (k ≡ [])

  abbrev pub last_item : A → List A → A
  last_item x [] = x
  last_item x (y ∷ ys) = last_item y ys

  -- The items are cut into runs of one key, each as long as it can be. A run of at least `min_run` items
  -- becomes what `replaced` makes of its first item, its last one and its length, and counts as one
  -- collapsed run and as one removed item less than it has; a shorter run stays as it is.
  pub data IsCut (min_run : ℕ) (replaced : A → A → ℕ → List A)
      : List A → List A → ℕ → ℕ → Type ℓ where
    nothing : IsCut min_run replaced [] [] 0 0
    collapsed :
        (x : A) (run rest items : List A) {xs : List A} {runs removed : ℕ}
        → xs ≡ x ∷ (run ++ rest)
        → AllRepeat (key x) run
        → Breaks (key x) rest
        → min_run ≤ length run + 1
        → IsCut min_run replaced rest items runs removed
        → IsCut min_run replaced xs
            (replaced x (last_item x run) (length run + 1) ++ items)
            (runs + 1)
            (removed + length run)
    kept :
        (x : A) (run rest items : List A) {xs : List A} {runs removed : ℕ}
        → xs ≡ x ∷ (run ++ rest)
        → AllRepeat (key x) run
        → Breaks (key x) rest
        → length run + 1 < min_run
        → IsCut min_run replaced rest items runs removed
        → IsCut min_run replaced xs (x ∷ (run ++ items)) runs removed

  repeats-same : (k l : Text) → repeats k l ≡ true → (l ≡ k) × (k ≡ [] → ⊥)
  unfolding text_eq
  repeats-same k l h = elim (Bool-cases (text_eq l k)) [
    | inl same ↦ (eq_of_text_eq l k same, λ blank. clash (rw blank at (rw same at h)))
    | inr other ↦ absurd (clash (rw other at h))
  ]
    where
      clash : false ≡ true → ⊥
      clash p = cc

  repeats-other : (k l : Text) → repeats k l ≡ false → (l ≡ k → ⊥) ⊎ (k ≡ [])
  unfolding text_eq
  repeats-other [] l h = inr refl
  repeats-other (c ∷ cs) l h = inl (λ e. clash (rw (text_eq_refl (c ∷ cs)) at (rw e at h)))
    where
      clash : true ≡ false → ⊥
      clash p = cc

  -- How the inner loop cuts what follows an item of the key.
  pub record IsSplitOff (k : Text) (xs run rest : List A) : Type ℓ where
    pub whole : xs ≡ run ++ rest
    pub taken : take (run_length key k xs) xs ≡ run
    pub skipped : skip key (run_length key k xs) xs ≡ rest
    pub counted : run_length key k xs ≡ length run
    pub last : (x : A) → last_of key x (run_length key k xs) xs ≡ last_item x run
    pub same : AllRepeat k run
    pub breaks : Breaks k rest

  successor : (n : ℕ) → n + 1 ≡ suc n
  successor n = omega arith

  pub run_length-IsSplitOff :
      (k : Text) (xs : List A) → (run : List A) × (rest : List A) × IsSplitOff k xs run rest
  unfolding run_length
  run_length-IsSplitOff k [] = (
    [],
    [],
    record {
      whole = refl;
      taken = refl;
      skipped = refl;
      counted = refl;
      last = λ x. refl;
      same = tt;
      breaks = tt;
    },
  )
  run_length-IsSplitOff k (x ∷ xs) = elim (Bool-cases (repeats k (key x))) [
    | inl again ↦
        let (run, rest, good) = run_length-IsSplitOff k xs in
        let (is_k, filled) = repeats-same k (key x) again in
        (
          x ∷ run,
          rest,
          record {
            whole = ap (λ r. x ∷ r) good.whole;
            taken = rw again (rw (successor (run_length key k xs)) (ap (λ r. x ∷ r) good.taken));
            skipped = rw again (rw (successor (run_length key k xs)) good.skipped);
            counted = rw again (omega (arith, good.counted));
            last = λ y. rw again (rw (successor (run_length key k xs)) (good.last x));
            same = (is_k, filled, good.same);
            breaks = good.breaks;
          },
        )
    | inr other ↦ (
      [],
      x ∷ xs,
      record {
        whole = refl;
        taken = rw other refl;
        skipped = rw other refl;
        counted = rw other refl;
        last = λ y. rw other refl;
        same = tt;
        breaks = repeats-other k (key x) other;
      },
    )
  ]
