-- ===== src/Tombstones/Ledger/Repeat.antt =====
-- The merge of a ledger that was interrupted may be run again: a second run of `sulieti`
-- (backend/utils/drCoordinator.js) changes nothing.
use stenograma.Prelude.{
  ℕ, ◌≡◌, refl, sym, ◌∙◌, Bool, true, false, Option, none, some, List, [], ◌∷◌, Text, arith,
  Bool-cases, All, Option-cases, inl, inr, if◌then◌else◌, text_eq, text_eq_refl, eq_of_text_eq, ltb,
}
use stenograma.Prelude.Map.{get, Entries-set}
use stenograma.Tombstones.Memory.{Mark, Marks, importuoti_zyma, merged, record_backup_horizon}
use stenograma.Tombstones.Safety.Invariant.{IsKeyed}
use stenograma.Tombstones.Ledger.{
  ar_terminalus, laimi_importuotas, be_claimo, suliejimo_planas, list_all, by_job, import_all,
  Saugykla, sulieti, horizonto_maksimumas, moves_horizon,
}
use stenograma.Tombstones.Ledger.Local.{get-by_job-list_all}
use stenograma.Tombstones.Ledger.Merge.{ledger_mark, HasDistinctIds}
use stenograma.Tombstones.Ledger.Recovery.{sulieti_found}

import_all-IsKeyed :
    (importuotos : List Mark) (vietines zymos : Marks)
    → IsKeyed zymos
    → IsKeyed (import_all (suliejimo_planas importuotos vietines).rasyti zymos)
unfolding import_all suliejimo_planas be_claimo importuoti_zyma merged
import_all-IsKeyed [] vietines zymos good = good
import_all-IsKeyed (z ∷ zs) vietines zymos good =
    elim (Bool-cases (laimi_importuotas (be_claimo z).0 (get z.job_id vietines))) [
      | inr loses ↦ rw loses (import_all-IsKeyed zs vietines zymos good)
      | inl wins ↦ rw wins (
          import_all-IsKeyed zs vietines (importuoti_zyma (be_claimo z).0 zymos).0 (
            Entries-set (λ k w. w.job_id ≡ k) z.job_id (merged (be_claimo z).0 (get z.job_id zymos))
              zymos refl good))
    ]

-- What holds of the mark that each id finds holds of every mark.
All-ledger_mark :
    (Q : Text → Mark → Type 0) (importuotos : List Mark)
    → HasDistinctIds importuotos
    → ((k : Text) (z : Mark) → ledger_mark k importuotos ≡ some z → Q k z)
    → All (λ (z : Mark). Q z.job_id z) importuotos
unfolding ledger_mark
All-ledger_mark Q [] d h = tt
All-ledger_mark Q (z ∷ zs) (fresh, d) h = (
  h z.job_id z (rw (text_eq_refl z.job_id) refl),
  All-ledger_mark Q zs d (λ k w named. elim (Bool-cases (text_eq z.job_id k)) [
    | inr other ↦ h k w (rw other named)
    | inl same ↦
        let e = eq_of_text_eq z.job_id k same in absurd (clash w (sym (rw e at fresh) ∙ named))
  ]),
)
  where
    clash : (v : Mark) → none ≡ some v → ⊥
    clash v p = cc

nothing_to_write :
    (importuotos : List Mark) (vietines : Marks)
    → All (λ (z : Mark). laimi_importuotas z (get z.job_id vietines) ≡ false) importuotos
    → (suliejimo_planas importuotos vietines).rasyti ≡ []
unfolding suliejimo_planas be_claimo laimi_importuotas
nothing_to_write [] vietines h = refl
nothing_to_write (z ∷ zs) vietines (loses, h) = elim (Option-cases (get z.job_id vietines)) [
  | inl gone ↦ absurd (clash (rw gone at loses))
  | inr (w, there) ↦ rw there (rw (rw there at loses) (nothing_to_write zs vietines h))
]
  where
    clash : true ≡ false → ⊥
    clash p = cc

-- A mark does not win over what the merge with it has left.
loses_after :
    (z : Mark) (o : Option Mark)
    → laimi_importuotas z (if laimi_importuotas z o then some (merged (be_claimo z).0 o) else o)
      ≡ false
loses_after z o = elim (Bool-cases (laimi_importuotas z o)) [
  | inr loses ↦ rw loses loses
  | inl wins ↦ rw wins (again z o)
]
  where
    again :
        (z : Mark) (o : Option Mark) → laimi_importuotas z (some (merged (be_claimo z).0 o)) ≡ false
    again z o =
        unfold laimi_importuotas merged be_claimo in
        elim (Bool-cases (ar_terminalus z.status)) [
          | inl final ↦ rw final refl
          | inr unfinished ↦ rw unfinished (irreflexive z.updated_at)
        ]
      where
        irreflexive : (n : ℕ) → ltb n n ≡ false
        irreflexive n = ground arith

horizon_again :
    (h v : Option ℕ)
    → horizonto_maksimumas h (
        if moves_horizon (horizonto_maksimumas h v) v
        then record_backup_horizon (horizonto_maksimumas h v) v
        else v)
      ≡ (if moves_horizon (horizonto_maksimumas h v) v
          then record_backup_horizon (horizonto_maksimumas h v) v
          else v)
unfolding horizonto_maksimumas record_backup_horizon
horizon_again none none = refl
horizon_again none (some v) = ground arith
horizon_again (some h) none = ground arith
horizon_again (some h) (some v) = ground arith

settled : (h : Option ℕ) → moves_horizon h h ≡ false
settled none = refl
settled (some n) = ground arith

-- The merge may be repeated: where no two marks of the ledger have one id, and the local marks stand
-- once, each under its own job, a second merge of the same ledger plans to write nothing, and leaves the
-- marks and the horizon of the backups as the first one left them.
pub sulieti_again :
    (locale_le : Text → Text → Bool) (importuotos : List Mark) (eksportuotas : Option ℕ)
    (s : Saugykla)
    → IsKeyed s.zymos
    → HasDistinctIds importuotos
    → (first : Saugykla) → (sulieti locale_le importuotos eksportuotas s).0 ≡ first
    → ((sulieti locale_le importuotos eksportuotas first).1.rasyti ≡ [])
      × ((sulieti locale_le importuotos eksportuotas first).0 ≡ first)
unfolding sulieti import_all
sulieti_again locale_le importuotos eksportuotas s good distinct first is_first =
    let vietines = by_job [] (list_all locale_le first.zymos) in
    let good1 : IsKeyed first.zymos =
      rw (← is_first)
        (import_all-IsKeyed importuotos (by_job [] (list_all locale_le s.zymos)) s.zymos good) in
    let losing : (k : Text) (z : Mark)
        → ledger_mark k importuotos ≡ some z
        → laimi_importuotas z (get k vietines) ≡ false =
      λ k z named. rw (get-by_job-list_all locale_le k first.zymos good1) (
        rw (← is_first) (
          rw (sulieti_found locale_le importuotos eksportuotas s k good distinct named)
            (loses_after z (get k s.zymos)))) in
    let empty : (suliejimo_planas importuotos vietines).rasyti ≡ [] =
      nothing_to_write importuotos vietines (
        All-ledger_mark (λ k z. laimi_importuotas z (get k vietines) ≡ false) importuotos distinct
          losing) in
    let same : horizonto_maksimumas eksportuotas first.horizontas ≡ first.horizontas =
      rw (← is_first) (horizon_again eksportuotas s.horizontas) in
    (empty, rw empty (rw same (rw (settled first.horizontas) refl)))
