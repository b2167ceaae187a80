-- ===== src/Tombstones/Replay.antt =====
-- The replay of a ledger's erasures on a restored store (`replay` of backend/utils/erasureReplay.js), over the
-- marks in memory. What the job store, the erasure of a job and the audit answer for a job is an argument.
mod Tests
mod Kept
mod Closing
mod Turns
pub mod Complete
pub mod Outcome
use stenograma.Prelude.{
  ℕ, Bool, true, false, not, Option, none, some, List, [], ◌∷◌, ◌++◌, Text, ltb, if◌then◌else◌,
  ◌==◌,
}
use stenograma.Result.{Result, ok, err}
use stenograma.Tombstones.{
  Status, pending, deleted, failed, ActorKind, known, undefined, operator, status_eq,
}
use stenograma.Tombstones.Memory.{Mark, Marks, get_mark}
use stenograma.Tombstones.Facade.{retry, complete}
use stenograma.Tombstones.Ledger.{ar_reikia_replay}

-- What `deleteResultArtifacts` answers: how many artefacts it removed and how many it could not, and
-- the attempts of those that it saw.
pub record Artefaktai : Type 0 where
  pub pasalinti : ℕ
  pub nepavyko : ℕ
  pub matyti : List (Option Text)

-- What the other parts answer for one job; `err` where they throw. `job`: whether there is one, and if
-- so whether the removal of its audio is pending. `erased`: what `eraseJob` answers, and whether that is a
-- critical failure.
pub record Answers : Type 0 where
  pub job : Result (Option Bool)
  pub artefaktai : Result (Option Artefaktai)
  pub bandymai : Result Bool
  pub audit : Result (Unit {0})
  pub erased : Result (Option Bool)

-- Why a mark is left open.
pub data Priezastis : Type 0 where
  nepalaiko_artefaktu artefaktai_liko eilutes_liko klaida nepavyko_istrinti : Priezastis
  negrizo_i_pending neuzdaryta : Priezastis

-- What the turn of the loop for one mark pushes: to `istrinta` (`some true`) or `jauNebuvo` (`some
-- false`), to `uzdarytosZymos`, to `audioValymoSkola` and to `nesekmes`.
pub record Eiga : Type 0 where
  pub rado : Option Bool
  pub uzdaryta : Bool
  pub skola : Bool
  pub nesekme : Option Priezastis

abbrev pub nesekminga : Option Bool → Priezastis → Eiga
nesekminga rado p = record { rado = rado; uzdaryta = false; skola = false; nesekme = some p }

abbrev pub is_pending_mark : Option Mark → Bool
is_pending_mark none = false
is_pending_mark (some z) = status_eq z.status pending

abbrev pub is_deleted_mark : Option Mark → Bool
is_deleted_mark none = false
is_deleted_mark (some z) = status_eq z.status deleted

abbrev pub answered : (Option Mark → Bool) → Marks × Result (Option Mark) → Marks × Result Bool
answered test (zymos, err e) = (zymos, err e)
answered test (zymos, ok z) = (zymos, ok (test z))

-- `_paruostiUzdarymui(jobId, status)`.
unfoldable pub paruosti_uzdarymui : Text → Status → ℕ → Marks → Marks × Result Bool
unfolding retry
paruosti_uzdarymui k status now zymos =
    if status_eq status failed
    then answered is_pending_mark (retry k (known operator) now zymos)
    else (zymos, ok true)

abbrev pub after_complete : Eiga → Eiga → Marks × Result Bool → Marks × Result Eiga
after_complete good bad (zymos, err e) = (zymos, err e)
after_complete good bad (zymos, ok true) = (zymos, ok good)
after_complete good bad (zymos, ok false) = (zymos, ok bad)

abbrev pub after_paruosti :
    Text → ℕ → Option Bool → Eiga → Marks × Result Bool → Marks × Result Eiga
after_paruosti k now rado good (zymos, err e) = (zymos, err e)
after_paruosti k now rado good (zymos, ok false) = (zymos, ok (nesekminga rado negrizo_i_pending))
after_paruosti k now rado good (zymos, ok true) =
    after_complete good (nesekminga rado neuzdaryta)
      (answered is_deleted_mark (complete k deleted (some now) undefined now zymos))

-- The mark is prepared and completed; both branches of the loop end so.
unfoldable pub uzdaryti : Text → Status → ℕ → Option Bool → Eiga → Marks → Marks × Result Eiga
unfolding paruosti_uzdarymui complete
uzdaryti k status now rado good zymos =
    after_paruosti k now rado good (paruosti_uzdarymui k status now zymos)

-- `matyti.map((a) => a.attemptId).filter(Boolean).length > 0`.
unfoldable pub has_attempts : List (Option Text) → Bool
has_attempts [] = false
has_attempts (none ∷ rest) = has_attempts rest
has_attempts (some [] ∷ rest) = has_attempts rest
has_attempts (some (c ∷ cs) ∷ rest) = true

abbrev pub without_failure : Option Bool → Bool → Bool → Eiga
without_failure rado uzdaryta skola = record {
  rado = rado;
  uzdaryta = uzdaryta;
  skola = skola;
  nesekme = none;
}

-- The end of the branch without a job, for the mark that is there.
unfoldable pub close_found : Answers → ℕ → Text → Bool → Marks → Option Mark → Marks × Result Eiga
unfolding uzdaryti
close_found ans now k kas_nors zymos none =
    (zymos, ok (without_failure (some kas_nors) false false))
close_found ans now k kas_nors zymos (some esama) =
    if status_eq esama.status deleted
    then (zymos, ok (without_failure (some kas_nors) false false))
    else elim ans.audit [
      | err e ↦ (zymos, ok (nesekminga (some kas_nors) klaida))
      | ok u ↦
          uzdaryti k esama.status now (some kas_nors) (without_failure (some kas_nors) true false)
            zymos
    ]

-- The end of the branch without a job: a mark that is there and not deleted is closed.
unfoldable pub close_absent : Answers → ℕ → Text → Bool → Marks → Marks × Result Eiga
unfolding close_found
close_absent ans now k kas_nors zymos = close_found ans now k kas_nors zymos (get_mark k zymos)

-- The branch of the loop for a job that is not there.
unfoldable pub replay_absent : Answers → ℕ → Text → Marks → Marks × Result Eiga
unfolding close_absent has_attempts
replay_absent ans now k zymos = elim ans.artefaktai [
  | err e ↦ (zymos, err e)
  | ok none ↦ (zymos, ok (nesekminga none nepalaiko_artefaktu))
  | ok (some a) ↦
      if ltb 0 a.nepavyko
      then (zymos, ok (nesekminga none artefaktai_liko))
      else (if has_attempts a.matyti
          then elim ans.bandymai [
            | err e ↦ (zymos, err e)
            | ok false ↦ (zymos, ok (nesekminga none eilutes_liko))
            | ok true ↦ close_absent ans now k (ltb 0 a.pasalinti) zymos
          ]
          else close_absent ans now k (ltb 0 a.pasalinti) zymos)
]

abbrev pub is_critical : Option Bool → Bool
is_critical none = false
is_critical (some b) = b

-- What is thrown inside `try` becomes a failure.
abbrev pub caught : Marks × Result Eiga → Marks × Result Eiga
caught (zymos, err e) = (zymos, ok (nesekminga none klaida))
caught (zymos, ok e) = (zymos, ok e)

-- The branch of the loop for a job that is there.
unfoldable pub replay_present : Answers → ℕ → Text → Status → Bool → Marks → Marks × Result Eiga
unfolding uzdaryti
replay_present ans now k status audio_pending zymos = elim ans.erased [
  | err e ↦ (zymos, ok (nesekminga none klaida))
  | ok outcome ↦
      if is_critical outcome
      then (zymos, ok (nesekminga none nepavyko_istrinti))
      else elim ans.audit [
        | err e ↦ (zymos, ok (nesekminga none klaida))
        | ok u ↦
            caught
              (uzdaryti k status now none (without_failure (some true) false audio_pending) zymos)
      ]
]

-- One turn of the loop for a mark that is replayed.
unfoldable pub replay_one : Answers → ℕ → Mark → Marks → Marks × Result Eiga
unfolding replay_absent replay_present
replay_one ans now zyma zymos = elim ans.job [
  | err e ↦ (zymos, err e)
  | ok none ↦ replay_absent ans now zyma.job_id zymos
  | ok (some audio_pending) ↦ replay_present ans now zyma.job_id zyma.status audio_pending zymos
]

-- What `replay` gathers.
pub record Ataskaita : Type 0 where
  pub zymos : Marks
  pub istrinta : List Text
  pub jau_nebuvo : List Text
  pub uzdarytos_zymos : List Text
  pub audio_valymo_skola : List Text
  pub nesekmes : List (Text × Priezastis)

abbrev pub push_if {ℓ} : {A : Type ℓ} → Bool → A → List A → List A
push_if true x xs = xs ++ (x ∷ [])
push_if false x xs = xs

abbrev pub push_failure :
    Option Priezastis → Text → List (Text × Priezastis) → List (Text × Priezastis)
push_failure none k xs = xs
push_failure (some p) k xs = xs ++ ((k, p) ∷ [])

abbrev pub is_some_bool : Bool → Option Bool → Bool
is_some_bool b none = false
is_some_bool true (some c) = c
is_some_bool false (some c) = not c

unfoldable pub gathered : Text → Marks → Eiga → Ataskaita → Ataskaita
gathered k zymos e b = record {
  zymos = zymos;
  istrinta = push_if (is_some_bool true e.rado) k b.istrinta;
  jau_nebuvo = push_if (is_some_bool false e.rado) k b.jau_nebuvo;
  uzdarytos_zymos = push_if e.uzdaryta k b.uzdarytos_zymos;
  audio_valymo_skola = push_if e.skola k b.audio_valymo_skola;
  nesekmes = push_failure e.nesekme k b.nesekmes;
}

abbrev pub with_eiga : Text → Ataskaita → Marks × Result Eiga → Result Ataskaita
with_eiga k b (zymos, err e) = err e
with_eiga k b (zymos, ok e) = ok (gathered k zymos e b)

abbrev pub or_throw : Result Ataskaita → (Ataskaita → Result Ataskaita) → Result Ataskaita
or_throw (err e) rest = err e
or_throw (ok b) rest = rest b

-- `replay({ zymos })`, from what has been gathered on; `answers` tells what is answered for a job.
unfoldable pub replay : (Text → Answers) → ℕ → List Mark → Ataskaita → Result Ataskaita
unfolding replay_one gathered ar_reikia_replay
replay answers now [] b = ok b
replay answers now (zyma ∷ zs) b =
    if ar_reikia_replay zyma.status
    then or_throw (with_eiga zyma.job_id b (replay_one (answers zyma.job_id) now zyma b.zymos))
        (λ b'. replay answers now zs b')
    else replay answers now zs b
