-- ===== src/Tombstones/Replay/Outcome.antt =====
-- What the whole of a replay without failures has done (`replay` of backend/utils/erasureReplay.js).
use stenograma.Prelude.{
  ℕ, ◌≡◌, refl, sym, ◌∙◌, ap, Bool, true, Option, none, some, List, [], ◌∷◌, Text, All,
}
use stenograma.Result.{Result, ok, err, ok-injective}
use stenograma.Tombstones.{Status, pending, deleted, failed}
use stenograma.Tombstones.Memory.{Mark, Marks}
use stenograma.Tombstones.Ledger.{ar_reikia_replay}
use stenograma.Tombstones.Replay.{
  Answers, Priezastis, Eiga, replay_one, Ataskaita, gathered, with_eiga, or_throw, replay,
  push_failure,
}
use stenograma.Tombstones.Replay.Kept.{final_at}
use stenograma.Tombstones.Replay.Turns.{final_at-replay_one}
use stenograma.Tombstones.Replay.Complete.{IsReplayed, replay_one_success, no_job}

-- A turn of the loop that went on.
record IsTurn (k : Text) (b b1 : Ataskaita) (m : Marks × Result Eiga) : Type 0 where
  eiga : Eiga
  ran : m ≡ (b1.zymos, ok eiga)
  failures : push_failure eiga.nesekme k b.nesekmes ≡ b1.nesekmes

with_eiga-IsTurn :
    (k : Text) (b : Ataskaita) (m : Marks × Result Eiga) {b1 : Ataskaita}
    → with_eiga k b m ≡ ok b1
    → IsTurn k b b1 m
unfolding gathered
with_eiga-IsTurn k b (zymos, err x) h = cc
with_eiga-IsTurn k b (zymos, ok e) {b1} h =
    let same = ok-injective (gathered k zymos e b) b1 h in
    record {
      eiga = e;
      ran = ap (λ z. (z, ok e)) (ap (λ b. b.zymos) same);
      failures = ap (λ b. b.nesekmes) same;
    }

or_throw-eq-ok :
    (m : Result Ataskaita) (rest : Ataskaita → Result Ataskaita) {b' : Ataskaita}
    → or_throw m rest ≡ ok b'
    → (b1 : Ataskaita) × (m ≡ ok b1) × (rest b1 ≡ ok b')
or_throw-eq-ok (err x) rest h = cc
or_throw-eq-ok (ok b1) rest h = (b1, refl, h)

-- Every status is replayed.
always : (s : Status) → ar_reikia_replay s ≡ true
unfolding ar_reikia_replay
always pending = refl
always deleted = refl
always failed = refl

push_failure-eq-nil :
    (o : Option Priezastis) (k : Text) (xs : List (Text × Priezastis))
    → push_failure o k xs ≡ []
    → (o ≡ none) × (xs ≡ [])
push_failure-eq-nil none k xs h = (refl, h)
push_failure-eq-nil (some p) k [] h = cc
push_failure-eq-nil (some p) k (x ∷ xs) h = cc

module _ (answers : Text → Answers) (now : ℕ) where
  first-IsTurn :
      (zyma : Mark) (zs : List Mark) (b : Ataskaita) {b' : Ataskaita}
      → replay answers now (zyma ∷ zs) b ≡ ok b'
      → (b1 : Ataskaita) × IsTurn zyma.job_id b b1
          (replay_one (answers zyma.job_id) now zyma b.zymos)
        × (replay answers now zs b1 ≡ ok b')
  unfolding replay
  first-IsTurn zyma zs b h =
      let (b1, turn, rest) =
        or_throw-eq-ok (with_eiga zyma.job_id b (replay_one (answers zyma.job_id) now zyma b.zymos))
          (λ b1. replay answers now zs b1) (rw (always zyma.status) at h) in
      (b1, with_eiga-IsTurn zyma.job_id b _ turn, rest)

  replay_clean :
      (zs : List Mark) (b : Ataskaita) {b' : Ataskaita}
      → replay answers now zs b ≡ ok b'
      → b'.nesekmes ≡ []
      → b.nesekmes ≡ []
  unfolding replay
  replay_clean [] b {b'} h clean = ap (λ b. b.nesekmes) (ok-injective b b' h) ∙ clean
  replay_clean (zyma ∷ zs) b h clean =
      let (b1, turn, rest) = first-IsTurn zyma zs b h in
      let clean1 = replay_clean zs b1 rest clean in
      (push_failure-eq-nil turn.eiga.nesekme zyma.job_id b.nesekmes (turn.failures ∙ clean1)).1

  replay_keeps :
      (c : Bool) (j : Text) (zs : List Mark) (b : Ataskaita) {b' : Ataskaita}
      → replay answers now zs b ≡ ok b'
      → final_at c j b.zymos ≡ true
      → final_at c j b'.zymos ≡ true
  unfolding replay
  replay_keeps c j [] b {b'} h final = rw (← ok-injective b b' h) final
  replay_keeps c j (zyma ∷ zs) b h final =
      let (b1, turn, rest) = first-IsTurn zyma zs b h in
      replay_keeps c j zs b1 rest (
        sym (ap (λ m. final_at c j m.0) turn.ran)
        ∙ final_at-replay_one c j (answers zyma.job_id) now zyma b.zymos final)

  -- A replay that reports no failure has replayed everything: for every mark of the ledger, whatever its
  -- status, the data of the job are gone, and at the end of the replay its mark in the store is deleted,
  -- or, where the store had no such job, there is none.
  pub replay_complete :
      (zs : List Mark) (b b' : Ataskaita)
      → replay answers now zs b ≡ ok b'
      → b'.nesekmes ≡ []
      → All (λ (z : Mark). IsReplayed (answers z.job_id) z.job_id b'.zymos) zs
  replay_complete [] b b' h clean = tt
  replay_complete (zyma ∷ zs) b b' h clean =
      let (b1, turn, rest) = first-IsTurn zyma zs b h in
      let clean1 = replay_clean zs b1 rest clean in
      let (went, before) =
        push_failure-eq-nil turn.eiga.nesekme zyma.job_id b.nesekmes (turn.failures ∙ clean1) in
      let here = replay_one_success (answers zyma.job_id) now zyma b.zymos turn.ran went in
      (
        record {
          erased = here.erased;
          closed =
              replay_keeps (no_job (answers zyma.job_id).job) zyma.job_id zs b1 rest here.closed;
        },
        replay_complete zs b1 b' rest clean,
      )
