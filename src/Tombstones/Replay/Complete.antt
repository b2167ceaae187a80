-- ===== src/Tombstones/Replay/Complete.antt =====
-- What a replay without failures has done (`replay` of backend/utils/erasureReplay.js).
use stenograma.Prelude.{
  ℕ, ◌≡◌, refl, ◌∙◌, ap, Bool, true, false, ◌&&◌, not, Option, none, some, Text, Bool-cases, inl,
  inr, if◌then◌else◌, ltb,
}
use stenograma.Result.{Result, Error, ok, err, ok-injective, Result-cases}
use stenograma.Tombstones.{Status, deleted, status_eq}
use stenograma.Tombstones.Memory.{Mark, Marks, get_mark}
use stenograma.Tombstones.Replay.{
  Answers, Priezastis, Eiga, nesekminga, close_found, close_absent, replay_absent, replay_present,
  replay_one, has_attempts, is_critical, caught, klaida,
}
use stenograma.Tombstones.Replay.Kept.{is_final, final_at}
use stenograma.Tombstones.Replay.Closing.{uzdaryti_closes}

abbrev pub is_ok_true : Result Bool → Bool
is_ok_true (err e) = false
is_ok_true (ok b) = b

-- The data of a job are gone: its erasure went through, or there was no job, all its artefacts were
-- removed, and the rows of the attempts that were seen.
unfoldable pub data_gone : Answers → Bool
unfolding has_attempts
data_gone ans = elim ans.job [
  | err e ↦ false
  | ok none ↦ elim ans.artefaktai [
    | err e ↦ false
    | ok none ↦ false
    | ok (some a) ↦
        not (ltb 0 a.nepavyko) && (if has_attempts a.matyti then is_ok_true ans.bandymai else true)
  ]
  | ok (some audio) ↦ elim ans.erased [ err e ↦ false | ok o ↦ not (is_critical o) ]
]

-- Whether there was no job.
abbrev pub no_job : Result (Option Bool) → Bool
no_job (err e) = false
no_job (ok none) = true
no_job (ok (some b)) = false

failing :
    {zymos zymos' : Marks} (rado : Option Bool) (p : Priezastis) {e : Eiga}
    → ◌≡◌ {A = Marks × Result Eiga} (zymos, ok (nesekminga rado p)) (zymos', ok e)
    → e.nesekme ≡ none
    → ⊥
failing rado p h clean =
    some_none p (ap (λ e. e.nesekme) (ok-injective _ _ (ap (λ q. q.1) h)) ∙ clean)
  where
    some_none : (p : Priezastis) → some p ≡ none → ⊥
    some_none p h = cc

thrown :
    {zymos zymos' : Marks} (x : Error) {e : Eiga}
    → ◌≡◌ {A = Marks × Result Eiga} (zymos, err x) (zymos', ok e)
    → ⊥
thrown x h = clash x _ (ap (λ q. q.1) h)
  where
    clash : (x : Error) (e : Eiga) → ◌≡◌ {A = Result Eiga} (err x) (ok e) → ⊥
    clash x e h = cc

module _ (ans : Answers) (now : ℕ) (k : Text) where
  close_found_success :
      (kas_nors : Bool) (zymos : Marks) (z : Option Mark) {zymos' : Marks} {e : Eiga}
      → get_mark k zymos ≡ z
      → close_found ans now k kas_nors zymos z ≡ (zymos', ok e)
      → e.nesekme ≡ none
      → final_at true k zymos' ≡ true
  unfolding close_found
  close_found_success kas_nors zymos none there h clean =
      rw (← ap (λ p. p.0) h) (ap (is_final true) there)
  close_found_success kas_nors zymos (some z) {zymos'} there h clean =
      elim (Bool-cases (status_eq z.status deleted)) [
        | inl is_deleted ↦
            rw (← ap (λ p. p.0) (rw is_deleted at h)) (ap (is_final true) there ∙ is_deleted)
        | inr other ↦ elim (Result-cases ans.audit) [
          | inr (x, threw) ↦ absurd (failing _ klaida (rw threw at (rw other at h)) clean)
          | inl (u, written) ↦ weaker (get_mark k zymos') (
              uzdaryti_closes k now (some kas_nors) _ z.status zymos (rw written at (rw other at h))
                clean)
        ]
      ]
    where
      weaker : (o : Option Mark) → is_final false o ≡ true → is_final true o ≡ true
      weaker none h = refl
      weaker (some z) h = h

  replay_absent_success :
      (zymos : Marks) {zymos' : Marks} {e : Eiga}
      → ans.job ≡ ok none
      → replay_absent ans now k zymos ≡ (zymos', ok e)
      → e.nesekme ≡ none
      → (data_gone ans ≡ true) × (final_at true k zymos' ≡ true)
  unfolding replay_absent close_absent data_gone
  replay_absent_success zymos absent h clean = elim (Result-cases ans.artefaktai) [
    | inr (x, threw) ↦ absurd (thrown x (rw threw at h))
    | inl (none, unsupported) ↦ absurd (failing _ _ (rw unsupported at h) clean)
    | inl (some a, answered) ↦
        let h1 = rw answered at h in
        elim (Bool-cases (ltb 0 a.nepavyko)) [
          | inl left ↦ absurd (failing _ _ (rw left at h1) clean)
          | inr removed ↦
              let h2 = rw removed at h1 in
              elim (Bool-cases (has_attempts a.matyti)) [
                | inr none_seen ↦ (
                  rw absent (rw answered (rw removed (rw none_seen refl))),
                  close_found_success (ltb 0 a.pasalinti) zymos (get_mark k zymos) refl
                      (rw none_seen at h2) clean,
                )
                | inl seen ↦
                    let h3 = rw seen at h2 in
                    elim (Result-cases ans.bandymai) [
                      | inr (x, threw) ↦ absurd (thrown x (rw threw at h3))
                      | inl (false, kept) ↦ absurd (failing _ _ (rw kept at h3) clean)
                      | inl (true, gone) ↦ (
                        rw absent (rw answered (rw removed (rw seen (rw gone refl)))),
                        close_found_success (ltb 0 a.pasalinti) zymos (get_mark k zymos) refl
                            (rw gone at h3) clean,
                      )
                    ]
              ]
        ]
  ]

  caught_success :
      (m : Marks × Result Eiga) {zymos' : Marks} {e : Eiga}
      → caught m ≡ (zymos', ok e)
      → e.nesekme ≡ none
      → m ≡ (zymos', ok e)
  caught_success (zymos, err x) h clean = absurd (failing none klaida h clean)
  caught_success (zymos, ok e) h clean = h

  replay_present_success :
      (status : Status) (audio : Bool) (zymos : Marks) {zymos' : Marks} {e : Eiga}
      → ans.job ≡ ok (some audio)
      → replay_present ans now k status audio zymos ≡ (zymos', ok e)
      → e.nesekme ≡ none
      → (data_gone ans ≡ true) × (final_at false k zymos' ≡ true)
  unfolding replay_present data_gone
  replay_present_success status audio zymos present h clean = elim (Result-cases ans.erased) [
    | inr (x, threw) ↦ absurd (failing _ _ (rw threw at h) clean)
    | inl (outcome, answered) ↦
        let h1 = rw answered at h in
        elim (Bool-cases (is_critical outcome)) [
          | inl critical ↦ absurd (failing _ _ (rw critical at h1) clean)
          | inr went ↦ elim (Result-cases ans.audit) [
            | inr (x, threw) ↦ absurd (failing _ _ (rw threw at (rw went at h1)) clean)
            | inl (u, written) ↦ (
              rw present (rw answered (rw went refl)),
              uzdaryti_closes k now none _ status zymos
                  (caught_success _ (rw written at (rw went at h1)) clean) clean,
            )
          ]
        ]
  ]

-- What a replayed mark stands for: its data are gone, and its mark is deleted, or, where there was no
-- job, there is none.
pub record IsReplayed (ans : Answers) (k : Text) (zymos : Marks) : Type 0 where
  pub erased : data_gone ans ≡ true
  pub closed : final_at (no_job ans.job) k zymos ≡ true

pub replay_one_success :
    (ans : Answers) (now : ℕ) (zyma : Mark) (zymos : Marks) {zymos' : Marks} {e : Eiga}
    → replay_one ans now zyma zymos ≡ (zymos', ok e)
    → e.nesekme ≡ none
    → IsReplayed ans zyma.job_id zymos'
unfolding replay_one
replay_one_success ans now zyma zymos h clean = elim (Result-cases ans.job) [
  | inr (x, threw) ↦ absurd (thrown x (rw threw at h))
  | inl (none, absent) ↦
      let (gone, closed) =
        replay_absent_success ans now zyma.job_id zymos absent (rw absent at h) clean in
      record { erased = gone; closed = rw absent closed }
  | inl (some audio, present) ↦
      let (gone, closed) =
        replay_present_success ans now zyma.job_id zyma.status audio zymos present (rw present at h)
          clean in
      record { erased = gone; closed = rw present closed }
]
