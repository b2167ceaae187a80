-- ===== src/Tombstones/Ledger/Merge.antt =====
-- What the merge of a ledger into a restored store keeps and establishes (`suliejimoPlanas` of
-- backend/utils/erasureExport.js and `sulieti` of backend/utils/drCoordinator.js).
use stenograma.Prelude.{
  ◌≡◌, refl, sym, ◌∙◌, ap, true, false, Option, none, some, List, [], ◌∷◌, Text, text_eq,
  Bool-cases, Option-cases, inl, inr, if◌then◌else◌, eq_of_text_eq,
}
use mathlib.Core.Option.{some-injective}
use stenograma.Prelude.Map.{get, get-set}
use stenograma.Tombstones.Memory.{Mark, Marks, importuoti_zyma, merged}
use stenograma.Tombstones.Ledger.{
  ar_terminalus, laimi_importuotas, be_claimo, suliejimo_planas, import_all,
}

-- The first mark of the ledger with the id.
unfoldable pub ledger_mark : Text → List Mark → Option Mark
ledger_mark k [] = none
ledger_mark k (z ∷ zs) = if text_eq z.job_id k then some z else ledger_mark k zs

-- The last mark of the ledger with the id.
unfoldable pub last_mark : Text → List Mark → Option Mark
last_mark k [] = none
last_mark k (z ∷ zs) = elim (last_mark k zs) [
  | none ↦ if text_eq z.job_id k then some z else none
  | some w ↦ some w
]

ledger_mark-last_mark :
    (k : Text) (zs : List Mark) → last_mark k zs ≡ none → ledger_mark k zs ≡ none
unfolding last_mark ledger_mark
ledger_mark-last_mark k [] h = refl
ledger_mark-last_mark k (z ∷ zs) h = elim (Option-cases (last_mark k zs)) [
  | inr (w, later) ↦ absurd (clash w (rw later at h))
  | inl last ↦ elim (Bool-cases (text_eq z.job_id k)) [
    | inl same ↦ absurd (clash z (rw same at (rw last at h)))
    | inr other ↦ rw other (ledger_mark-last_mark k zs last)
  ]
]
  where
    clash : (v : Mark) → some v ≡ none → ⊥
    clash v p = cc

-- No two marks of the ledger have one id.
abbrev pub HasDistinctIds : List Mark → Type 0
HasDistinctIds [] = Unit
HasDistinctIds (z ∷ zs) = (ledger_mark z.job_id zs ≡ none) × HasDistinctIds zs

get-importuoti_zyma :
    (k : Text) (z : Mark) (zymos : Marks)
    → get k (importuoti_zyma z zymos).0
      ≡ (if text_eq z.job_id k then some (merged z (get z.job_id zymos)) else get k zymos)
unfolding importuoti_zyma merged
get-importuoti_zyma k z zymos = get-set z.job_id k (merged z (get z.job_id zymos)) zymos

terminal-laimi_importuotas :
    (z w : Mark) → ar_terminalus w.status ≡ true → laimi_importuotas z (some w) ≡ false
unfolding laimi_importuotas
terminal-laimi_importuotas z w h = rw h refl

laimi_importuotas-be_claimo :
    (z : Mark) (o : Option Mark) → laimi_importuotas (be_claimo z).0 o ≡ laimi_importuotas z o
unfolding laimi_importuotas be_claimo
laimi_importuotas-be_claimo z none = refl
laimi_importuotas-be_claimo z (some w) = refl

module _ (k : Text) (vietines : Marks) where
  pub merge_absent :
      (importuotos : List Mark) (zymos : Marks)
      → ledger_mark k importuotos ≡ none
      → get k (import_all (suliejimo_planas importuotos vietines).rasyti zymos) ≡ get k zymos
  unfolding ledger_mark suliejimo_planas import_all be_claimo
  merge_absent [] zymos h = refl
  merge_absent (z ∷ zs) zymos h = elim (Bool-cases (text_eq z.job_id k)) [
    | inl same ↦ absurd (clash z (rw same at h))
    | inr other ↦
        let rest = rw other at h in
        elim (Bool-cases (laimi_importuotas (be_claimo z).0 (get z.job_id vietines))) [
          | inr loses ↦ rw loses (merge_absent zs zymos rest)
          | inl wins ↦ rw wins (
              merge_absent zs (importuoti_zyma (be_claimo z).0 zymos).0 rest
              ∙ (get-importuoti_zyma k (be_claimo z).0 zymos ∙ rw other refl))
        ]
  ]
    where
      clash : (v : Mark) → some v ≡ none → ⊥
      clash v p = cc

  pub merge_terminal :
      (importuotos : List Mark) (zymos : Marks) {w : Mark}
      → get k vietines ≡ some w
      → ar_terminalus w.status ≡ true
      → get k (import_all (suliejimo_planas importuotos vietines).rasyti zymos) ≡ get k zymos
  unfolding suliejimo_planas import_all be_claimo
  merge_terminal [] zymos h t = refl
  merge_terminal (z ∷ zs) zymos {w} h t =
      elim (Bool-cases (laimi_importuotas (be_claimo z).0 (get z.job_id vietines))) [
        | inr loses ↦ rw loses (merge_terminal zs zymos h t)
        | inl wins ↦ elim (Bool-cases (text_eq z.job_id k)) [
          | inl same ↦
              let e = eq_of_text_eq z.job_id k same in
              absurd (
                clash
                  (sym (rw h at (rw e at wins)) ∙ terminal-laimi_importuotas (be_claimo z).0 w t))
          | inr other ↦ rw wins (
              merge_terminal zs (importuoti_zyma (be_claimo z).0 zymos).0 h t
              ∙ (get-importuoti_zyma k (be_claimo z).0 zymos ∙ rw other refl))
        ]
      ]
    where
      clash : true ≡ false → ⊥
      clash p = cc

  pub merge_present :
      (importuotos : List Mark) (zymos : Marks) {z : Mark}
      → HasDistinctIds importuotos
      → ledger_mark k importuotos ≡ some z
      → get k (import_all (suliejimo_planas importuotos vietines).rasyti zymos) ≡ (
          if laimi_importuotas z (get k vietines)
          then some (merged (be_claimo z).0 (get k zymos))
          else get k zymos)
  unfolding ledger_mark suliejimo_planas import_all be_claimo
  merge_present [] zymos d h = cc
  merge_present (w ∷ ws) zymos {z} (fresh, d) h = elim (Bool-cases (text_eq w.job_id k)) [
    | inl same ↦
        let is_k = eq_of_text_eq w.job_id k same in
        let is_z = some-injective w z (rw same at h) in
        let absent : ledger_mark k ws ≡ none = rw (← is_k) fresh in
        rw (← is_z) (elim (Bool-cases (laimi_importuotas (be_claimo w).0 (get w.job_id vietines))) [
          | inr loses ↦
              let lost : laimi_importuotas w (get k vietines) ≡ false =
                sym (laimi_importuotas-be_claimo w (get k vietines)) ∙ rw is_k at loses in
              rw loses (rw lost (merge_absent ws zymos absent))
          | inl wins ↦
              let won : laimi_importuotas w (get k vietines) ≡ true =
                sym (laimi_importuotas-be_claimo w (get k vietines)) ∙ rw is_k at wins in
              rw wins (
                rw won (
                  merge_absent ws (importuoti_zyma (be_claimo w).0 zymos).0 absent
                  ∙ (get-importuoti_zyma k (be_claimo w).0 zymos ∙ rw same (rw is_k refl))))
        ])
    | inr other ↦
        let later = rw other at h in
        elim (Bool-cases (laimi_importuotas (be_claimo w).0 (get w.job_id vietines))) [
          | inr loses ↦ rw loses (merge_present ws zymos d later)
          | inl wins ↦
              let untouched : get k (importuoti_zyma (be_claimo w).0 zymos).0 ≡ get k zymos =
                get-importuoti_zyma k (be_claimo w).0 zymos ∙ rw other refl in
              rw wins (
                merge_present ws (importuoti_zyma (be_claimo w).0 zymos).0 d later
                ∙ rw untouched refl)
        ]
  ]

  -- The last mark of a job leaves its status, if it wins over the local one.
  pub merge_last :
      (importuotos : List Mark) (zymos : Marks) {z : Mark}
      → last_mark k importuotos ≡ some z
      → laimi_importuotas z (get k vietines) ≡ true
      → (r : Mark) × (get k (import_all (suliejimo_planas importuotos vietines).rasyti zymos)
          ≡ some r)
        × (r.status ≡ z.status)
  unfolding last_mark suliejimo_planas import_all be_claimo
  merge_last [] zymos h win = cc
  merge_last (w ∷ ws) zymos {z} h win = elim (Option-cases (last_mark k ws)) [
    | inr (v, later) ↦
        let is = rw later at h in
        let named = later ∙ is in
        elim (Bool-cases (laimi_importuotas (be_claimo w).0 (get w.job_id vietines))) [
          | inr loses ↦ rw loses (merge_last ws zymos named win)
          | inl wins ↦ rw wins (merge_last ws (importuoti_zyma (be_claimo w).0 zymos).0 named win)
        ]
    | inl last ↦ elim (Bool-cases (text_eq w.job_id k)) [
      | inr other ↦ absurd (clash z (rw other at (rw last at h)))
      | inl same ↦
          let is_z = some-injective w z (rw same at (rw last at h)) in
          let is_k = eq_of_text_eq w.job_id k same in
          let wins : laimi_importuotas (be_claimo w).0 (get w.job_id vietines) ≡ true =
            laimi_importuotas-be_claimo w (get w.job_id vietines) ∙ rw is_k (rw is_z win) in
          (
            merged (be_claimo w).0 (get w.job_id zymos),
            rw wins (
                merge_absent ws (importuoti_zyma (be_claimo w).0 zymos).0
                  (ledger_mark-last_mark k ws last)
                ∙ (get-importuoti_zyma k (be_claimo w).0 zymos ∙ rw same refl)),
            unfold merged in (ap (λ (m : Mark). m.status) is_z),
          )
    ]
  ]
    where
      clash : (v : Mark) → none ≡ some v → ⊥
      clash v p = cc
