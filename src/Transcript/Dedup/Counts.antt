-- ===== src/Transcript/Dedup/Counts.antt =====
-- The loop that collapses repetitions ends, how it cuts the items into runs, and what it counts
-- (backend/utils/transcriptDedup.js).
use stenograma.Prelude.{
  ℕ, zero, suc, ◌+◌, ◌*◌, ◌≤◌, ◌<◌, ◌≡◌, refl, sym, ◌∙◌, ap, some, List, [], ◌∷◌, ◌++◌, Text,
  length, leb, arith, Bool-cases, inl, ◌⊎◌, inr, length-append,
}
use stenograma.Transcript.Dedup.{Collapsed, collapse}
use stenograma.Transcript.Dedup.Runs.{
  IsCut, nothing, collapsed, kept, last_item, run_length-IsSplitOff,
}

-- The items of a collapse, where what stands for a run has `v + 1` items, are accounted for; and without
-- a collapsed run nothing was changed.
pub record IsCollapse {ℓ} {A : Type ℓ} (v : ℕ) (xs : List A) (c : Collapsed A) : Type ℓ where
  pub counted : length c.items + c.removed_items ≡ length xs + c.collapsed_runs * v
  pub untouched : (0 < c.collapsed_runs) ⊎ (c.items ≡ xs)

module _ {ℓ} {A : Type ℓ} (key : A → Text) (min_run : ℕ) (replaced : A → A → ℕ → List A) where
  -- The loop ends: with more fuel than items it returns, whatever a run becomes.
  pub collapse-IsCut :
      (fuel : ℕ) (xs : List A)
      → length xs < fuel
      → (c : Collapsed A) × (collapse key fuel min_run replaced xs ≡ some c)
        × IsCut key min_run replaced xs c.items c.collapsed_runs c.removed_items
  unfolding collapse
  collapse-IsCut zero xs h = absurd (omega (arith, h))
  collapse-IsCut (suc fuel) [] h =
      (record { items = []; collapsed_runs = 0; removed_items = 0 }, refl, nothing)
  collapse-IsCut (suc fuel) (x ∷ xs) h =
      let (run, rest, good) = run_length-IsSplitOff key (key x) xs in
      let whole = ap length good.whole ∙ length-append run rest in
      let (c, is, cut) = collapse-IsCut fuel rest (omega (arith, h, whole)) in
      elim (Bool-cases (leb min_run (length run + 1))) [
        | inl long ↦
            let reached : min_run ≤ length run + 1 = ground arith in
            (
              record {
                items = replaced x (last_item key x run) (length run + 1) ++ c.items;
                collapsed_runs = c.collapsed_runs + 1;
                removed_items = c.removed_items + length run;
              },
              rw good.skipped (rw is (rw (good.last x) (rw good.counted (rw long refl)))),
              collapsed x run rest c.items (ap (λ r. x ∷ r) good.whole) good.same good.breaks
                  reached cut,
            )
        | inr short ↦
            let below : length run + 1 < min_run = ground arith in
            (
              record {
                items = x ∷ (run ++ c.items);
                collapsed_runs = c.collapsed_runs;
                removed_items = c.removed_items;
              },
              rw good.skipped (rw is (rw good.taken (rw good.counted (rw short refl)))),
              kept x run rest c.items (ap (λ r. x ∷ r) good.whole) good.same good.breaks below cut,
            )
      ]

  -- What the runs say of the counts.
  pub IsCut-IsCollapse :
      (v : ℕ)
      → ((first last : A) (n : ℕ) → length (replaced first last n) ≡ v + 1)
      → {xs items : List A} {runs removed : ℕ} → IsCut key min_run replaced xs items runs removed
      → IsCollapse v xs (record { items = items; collapsed_runs = runs; removed_items = removed })
  IsCut-IsCollapse v sizes nothing = record { counted = omega arith; untouched = inr refl }
  IsCut-IsCollapse v sizes (collapsed x run rest items is same breaks long cut) =
      let before = IsCut-IsCollapse v sizes cut in
      let counted = before.counted in
      let a = sizes x (last_item key x run) (length run + 1) in
      let b = length-append (replaced x (last_item key x run) (length run + 1)) items in
      let c = length-append run rest in
      let d = ap length is in
      record { counted = omega (arith, a, b, c, d, counted); untouched = inl (omega arith) }
  IsCut-IsCollapse v sizes (kept x run rest items is same breaks short cut) =
      let before = IsCut-IsCollapse v sizes cut in
      let counted = before.counted in
      let b = length-append run items in
      let c = length-append run rest in
      let d = ap length is in
      record {
        counted = omega (arith, b, c, d, counted);
        untouched = elim before.untouched [
          | inl some_run ↦ inl some_run
          | inr e ↦ inr (ap (λ r. x ∷ (run ++ r)) e ∙ sym is)
        ];
      }
