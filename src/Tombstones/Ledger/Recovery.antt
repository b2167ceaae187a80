-- ===== src/Tombstones/Ledger/Recovery.antt =====
-- What `sulieti` (backend/utils/drCoordinator.js) keeps of a restored store and takes from the ledger.
use stenograma.Prelude.{
  ℕ, ◌≡◌, refl, ◌∙◌, Bool, true, Option, none, some, List, [], Text, Bool-cases, inl, inr, ◌⊎◌, ◌≤◌,
  ◌<◌, min, max, ap, ltb, ltb→lt, false, arith, if◌then◌else◌,
}
use stenograma.Prelude.Map.{get}
use stenograma.Tombstones.{Status, pending, deleted, failed, allowed_transitions}
use stenograma.Tombstones.Memory.{Mark, merged}
use stenograma.Tombstones.Safety.Invariant.{IsKeyed}
use stenograma.Tombstones.Ledger.{
  ar_terminalus, laimi_importuotas, be_claimo, list_all, by_job, Saugykla, sulieti,
}
use stenograma.Tombstones.Ledger.Local.{get-by_job-list_all}
use stenograma.Tombstones.Ledger.Merge.{
  ledger_mark, HasDistinctIds, last_mark, merge_terminal, merge_present, merge_last,
}

module _ (locale_le : Text → Text → Bool) (importuotos : List Mark) (eksportuotas : Option ℕ) where
  -- A job that is deleted in the restored store stays deleted: whatever the ledger says of it, even
  -- more than once, its mark is the same after the merge, if the local marks stand once, each under its
  -- own job.
  pub sulieti_keeps_deleted :
      (s : Saugykla) (k : Text) {z : Mark}
      → IsKeyed s.zymos
      → get k s.zymos ≡ some z
      → z.status ≡ deleted
      → get k (sulieti locale_le importuotos eksportuotas s).0.zymos ≡ some z
  unfolding sulieti ar_terminalus allowed_transitions
  sulieti_keeps_deleted s k {z} good there is_deleted =
      merge_terminal k (by_job [] (list_all locale_le s.zymos)) importuotos s.zymos
        (get-by_job-list_all locale_le k s.zymos good ∙ there) (rw is_deleted refl)
      ∙ there

  -- What the merge makes of a job that the ledger names once, by the code's own rule and record.
  pub sulieti_found :
      (s : Saugykla) (k : Text) {z : Mark}
      → IsKeyed s.zymos
      → HasDistinctIds importuotos
      → ledger_mark k importuotos ≡ some z
      → get k (sulieti locale_le importuotos eksportuotas s).0.zymos ≡ (
          if laimi_importuotas z (get k s.zymos)
          then some (merged (be_claimo z).0 (get k s.zymos))
          else get k s.zymos)
  unfolding sulieti
  sulieti_found s k good distinct named =
      merge_present k (by_job [] (list_all locale_le s.zymos)) importuotos s.zymos distinct named
      ∙ rw (get-by_job-list_all locale_le k s.zymos good) refl

-- The record `r` is the imported `z`, without its token, with the earlier request and the larger number
-- of attempts of `z` and the local `w`.
pub record IsJoined (z w r : Mark) : Type 0 where
  pub same_job : r.job_id ≡ z.job_id
  pub same_status : r.status ≡ z.status
  pub same_reason : r.reason ≡ z.reason
  pub same_actor : r.actor_kind ≡ z.actor_kind
  pub same_update : r.updated_at ≡ z.updated_at
  pub same_completion : r.completed_at ≡ z.completed_at
  pub same_failure : r.last_failure_kind ≡ z.last_failure_kind
  pub no_token : r.claim_token ≡ none
  pub earlier : (r.requested_at ≤ z.requested_at) × (r.requested_at ≤ w.requested_at)
  pub one_request : (r.requested_at ≡ z.requested_at) ⊎ (r.requested_at ≡ w.requested_at)
  pub larger : (z.attempts ≤ r.attempts) × (w.attempts ≤ r.attempts)
  pub one_count : (r.attempts ≡ z.attempts) ⊎ (r.attempts ≡ w.attempts)

-- What becomes of a local mark, if there is one, that meets the imported `z`.
pub data IsMerged (z : Mark) : Option Mark → Option Mark → Type 0 where
  taken : IsMerged z none (some (record z { claim_token = none }))
  kept_deleted : {w : Mark} → w.status ≡ deleted → IsMerged z (some w) (some w)
  kept_newer :
      {w : Mark}
      → (z.status ≡ deleted → ⊥)
      → z.updated_at ≤ w.updated_at
      → IsMerged z (some w) (some w)
  replaced :
      {w r : Mark}
      → (w.status ≡ deleted → ⊥)
      → (z.status ≡ deleted) ⊎ (w.updated_at < z.updated_at)
      → IsJoined z w r
      → IsMerged z (some w) (some r)

merged-IsJoined : (z w : Mark) → IsJoined z w (merged (be_claimo z).0 (some w))
unfolding merged be_claimo
merged-IsJoined z w = record {
  same_job = refl;
  same_status = refl;
  same_reason = refl;
  same_actor = refl;
  same_update = refl;
  same_completion = refl;
  same_failure = refl;
  no_token = refl;
  earlier = (omega arith, omega arith);
  one_request = smaller w.requested_at z.requested_at;
  larger = (omega arith, omega arith);
  one_count = greater w.attempts z.attempts;
}
  where
    smaller : (a b : ℕ) → (min a b ≡ b) ⊎ (min a b ≡ a)
    smaller a b = ground arith

    greater : (a b : ℕ) → (max a b ≡ b) ⊎ (max a b ≡ a)
    greater a b = ground arith

merged-none : (z : Mark) → merged (be_claimo z).0 none ≡ record z { claim_token = none }
unfolding merged be_claimo
merged-none z = ap (λ (n : ℕ). record z { attempts = n; claim_token = none }) (omega arith)

terminal_deleted : (x : Status) → ar_terminalus x ≡ true → x ≡ deleted
unfolding ar_terminalus allowed_transitions
terminal_deleted pending h = cc
terminal_deleted deleted h = refl
terminal_deleted failed h = cc

not_deleted : (x : Status) → ar_terminalus x ≡ false → x ≡ deleted → ⊥
unfolding ar_terminalus allowed_transitions
not_deleted pending h e = cc
not_deleted deleted h e = cc
not_deleted failed h e = cc

laimi_importuotas-IsMerged :
    (z : Mark) (local : Option Mark)
    → IsMerged z local
        (if laimi_importuotas z local then some (merged (be_claimo z).0 local) else local)
unfolding laimi_importuotas
laimi_importuotas-IsMerged z none = rw (merged-none z) taken
laimi_importuotas-IsMerged z (some w) = elim (Bool-cases (ar_terminalus w.status)) [
  | inl final ↦ rw final (kept_deleted (terminal_deleted w.status final))
  | inr unfinished ↦ elim (Bool-cases (ar_terminalus z.status)) [
    | inl ended ↦ rw unfinished (
        rw ended (
          replaced (not_deleted w.status unfinished) (inl (terminal_deleted z.status ended))
            (merged-IsJoined z w)))
    | inr unended ↦ elim (Bool-cases (ltb w.updated_at z.updated_at)) [
      | inl later ↦ rw unfinished (
          rw unended (
            rw later (
              replaced (not_deleted w.status unfinished) (inr (ltb→lt _ _ later))
                (merged-IsJoined z w))))
      | inr earlier ↦
          rw unfinished
            (rw unended (rw earlier (kept_newer (not_deleted z.status unended) (ground arith))))
    ]
  ]
]

-- What the merge makes of a job that the ledger names once, where no job is named twice in it: a local
-- mark that is deleted stays, and so does one at least as new if the imported one is not deleted; in
-- every other case the imported mark is taken, without its token, with the earlier request and the
-- larger number of attempts of the two. The local marks stand once, each under its own job.
pub sulieti-IsMerged :
    (locale_le : Text → Text → Bool) (importuotos : List Mark) (eksportuotas : Option ℕ)
    (s : Saugykla) (k : Text) {z : Mark}
    → IsKeyed s.zymos
    → HasDistinctIds importuotos
    → ledger_mark k importuotos ≡ some z
    → IsMerged z (get k s.zymos) (get k (sulieti locale_le importuotos eksportuotas s).0.zymos)
sulieti-IsMerged locale_le importuotos eksportuotas s k {z} good distinct named =
    rw (sulieti_found locale_le importuotos eksportuotas s k good distinct named)
      (laimi_importuotas-IsMerged z (get k s.zymos))

-- The ledger's erasures arrive: a job that the last of the ledger's marks of it has as deleted has a
-- deleted mark after the merge, whatever was there and even where the ledger names jobs more than once,
-- if the local marks stand once, each under its own job.
pub sulieti_deleted :
    (locale_le : Text → Text → Bool) (importuotos : List Mark) (eksportuotas : Option ℕ)
    (s : Saugykla) (k : Text) {z : Mark}
    → IsKeyed s.zymos
    → last_mark k importuotos ≡ some z
    → z.status ≡ deleted
    → (w : Mark) × (get k (sulieti locale_le importuotos eksportuotas s).0.zymos ≡ some w)
      × (w.status ≡ deleted)
unfolding sulieti laimi_importuotas ar_terminalus allowed_transitions
sulieti_deleted locale_le importuotos eksportuotas s k {z} good named is_deleted =
    let same = get-by_job-list_all locale_le k s.zymos good in
    elim (Bool-cases (laimi_importuotas z (get k s.zymos))) [
      | inl wins ↦
          let (r, there, status) =
            merge_last k (by_job [] (list_all locale_le s.zymos)) importuotos s.zymos named
              (rw same wins) in
          (r, there, status ∙ is_deleted)
      | inr loses ↦
          let (w, there, final) = loses_deleted z (get k s.zymos) is_deleted loses in
          (
            w,
            merge_terminal k (by_job [] (list_all locale_le s.zymos)) importuotos s.zymos
                  (same ∙ there) final
                ∙ there,
            terminal_deleted w.status final,
          )
    ]
  where
    clash : true ≡ false → ⊥
    clash p = cc

    loses_deleted :
        (z : Mark) (local : Option Mark)
        → z.status ≡ deleted
        → laimi_importuotas z local ≡ false
        → (w : Mark) × (local ≡ some w) × (ar_terminalus w.status ≡ true)
    loses_deleted z none e h = absurd (clash h)
    loses_deleted z (some w) e h = elim (Bool-cases (ar_terminalus w.status)) [
      | inl final ↦ (w, refl, final)
      | inr unfinished ↦ absurd (clash (rw e at (rw unfinished at h)))
    ]
