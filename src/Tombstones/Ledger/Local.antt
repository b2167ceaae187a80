-- ===== src/Tombstones/Ledger/Local.antt =====
-- The marks that the merge of a ledger looks up (`sulieti` of backend/utils/drCoordinator.js): the sorted
-- list of the store's marks, made a map again, has the store's entries.
use stenograma.Prelude.{
  ◌≡◌, refl, sym, ◌∙◌, Bool, Option, none, some, List, [], ◌∷◌, Text, text_eq, Bool-cases,
  Option-cases, inl, inr, if◌then◌else◌, eq_of_text_eq,
}
use stenograma.Prelude.Map.{get, set, get-set, get-of_has}
use stenograma.Tombstones.Memory.{Mark, Marks, values}
use stenograma.Tombstones.Safety.Invariant.{IsKeyed}
use stenograma.Tombstones.Ledger.{insert_by_id, sort_by_id, list_all, by_job}

-- The last mark of a list with the id.
unfoldable find_last : Text → List Mark → Option Mark
find_last k [] = none
find_last k (z ∷ zs) = elim (find_last k zs) [
  | none ↦ if text_eq z.job_id k then some z else none
  | some w ↦ some w
]

abbrev or_else : Option Mark → Option Mark → Option Mark
or_else none r = r
or_else (some z) r = some z

get-by_job :
    (k : Text) (zs : List Mark) (acc : Marks)
    → get k (by_job acc zs) ≡ or_else (find_last k zs) (get k acc)
unfolding by_job find_last
get-by_job k [] acc = refl
get-by_job k (z ∷ zs) acc = elim (Option-cases (find_last k zs)) [
  | inr (w, later) ↦ rw (get-by_job k zs (set z.job_id z acc)) (rw later refl)
  | inl last ↦ elim (Bool-cases (text_eq z.job_id k)) [
    | inl same ↦
        rw (get-by_job k zs (set z.job_id z acc))
          (rw last (rw (get-set z.job_id k z acc) (rw same refl)))
    | inr other ↦
        rw (get-by_job k zs (set z.job_id z acc))
          (rw last (rw (get-set z.job_id k z acc) (rw other refl)))
  ]
]

find_last-∷ :
    (k : Text) (z : Mark) (zs : List Mark)
    → find_last z.job_id zs ≡ none
    → find_last k (z ∷ zs) ≡ (if text_eq z.job_id k then some z else find_last k zs)
unfolding find_last
find_last-∷ k z zs h = elim (Option-cases (find_last k zs)) [
  | inl last ↦ rw last refl
  | inr (v, later) ↦ elim (Bool-cases (text_eq z.job_id k)) [
    | inl same ↦ let e = eq_of_text_eq z.job_id k same in absurd (clash v (sym (rw e at h) ∙ later))
    | inr other ↦ rw later (rw other refl)
  ]
]
  where
    clash : (v : Mark) → none ≡ some v → ⊥
    clash v p = cc

find_last-absent :
    (k : Text) (w : Mark) (ws : List Mark) → find_last k (w ∷ ws) ≡ none → find_last k ws ≡ none
unfolding find_last
find_last-absent k w ws h = elim (Option-cases (find_last k ws)) [
  | inl last ↦ last
  | inr (v, later) ↦ absurd (clash v (rw later at h))
]
  where
    clash : (v : Mark) → some v ≡ none → ⊥
    clash v p = cc

module _ (locale_le : Text → Text → Bool) where
  find_last-insert_by_id :
      (k : Text) (z : Mark) (zs : List Mark)
      → find_last z.job_id zs ≡ none
      → find_last k (insert_by_id locale_le z zs)
        ≡ (if text_eq z.job_id k then some z else find_last k zs)
  unfolding find_last insert_by_id
  find_last-insert_by_id k z [] h = refl
  find_last-insert_by_id k z (w ∷ ws) h = elim (Bool-cases (locale_le z.job_id w.job_id)) [
    | inl before ↦ rw before (find_last-∷ k z (w ∷ ws) h)
    | inr after ↦ rw after (
        rw (find_last-insert_by_id k z ws (find_last-absent z.job_id w ws h))
          (elim (Bool-cases (text_eq z.job_id k)) [
            | inl same ↦ rw same refl
            | inr other ↦ rw other refl
          ]))
  ]

  find_last-list_all :
      (k : Text) (zymos : Marks)
      → IsKeyed zymos
      → find_last k (sort_by_id locale_le (values zymos)) ≡ get k zymos
  unfolding sort_by_id get find_last
  find_last-list_all k [] h = refl
  find_last-list_all k ((j, z) ∷ zymos) (mark, fresh, rest) =
      let own = mark in
      let absent : find_last z.job_id (sort_by_id locale_le (values zymos)) ≡ none =
        rw own (rw (find_last-list_all j zymos rest) (get-of_has j zymos fresh)) in
      rw (find_last-insert_by_id k z (sort_by_id locale_le (values zymos)) absent)
        (rw (find_last-list_all k zymos rest) (rw own refl))

  -- The map that the merge makes of the list of all marks has the store's entries.
  pub get-by_job-list_all :
      (k : Text) (zymos : Marks)
      → IsKeyed zymos
      → get k (by_job [] (list_all locale_le zymos)) ≡ get k zymos
  unfolding list_all get
  get-by_job-list_all k zymos h =
      rw (get-by_job k (sort_by_id locale_le (values zymos)) [])
        (rw (find_last-list_all k zymos h) (or_else_none (get k zymos)))
    where
      or_else_none : (o : Option Mark) → or_else o none ≡ o
      or_else_none none = refl
      or_else_none (some z) = refl
