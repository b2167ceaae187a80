-- ===== src/Tombstones/Ledger.antt =====
-- The merge of an exported ledger of erasure marks into a restored store: the plan
-- (backend/utils/erasureExport.js) and the part of `sulieti` that carries it out
-- (backend/utils/drCoordinator.js), over the store of marks in memory.
mod Tests
mod Local
pub mod Merge
pub mod Recovery
pub mod Repeat
pub mod Artefact
use stenograma.Prelude.{
  ℕ, max, Bool, true, false, not, Option, none, some, List, [], ◌∷◌, ◌++◌, map, Text, ltb, ◌==◌,
  if◌then◌else◌, filter_by,
}
use stenograma.Prelude.Map.{get, set}
use stenograma.Tombstones.{
  Status, pending, deleted, failed, allowed_transitions, includes_status, statuses,
}
use stenograma.Tombstones.Memory.{Mark, Marks, importuoti_zyma, record_backup_horizon, values}

-- `arTerminalus(status)`.
unfoldable pub ar_terminalus : Status → Bool
unfolding allowed_transitions
ar_terminalus s = no_exits (allowed_transitions s)
  where
    no_exits : List Status → Bool
    no_exits [] = true
    no_exits (x ∷ xs) = false

-- `terminaliniaiStatusai()`.
unfoldable pub terminaliniai_statusai : List Status
unfolding ar_terminalus
terminaliniai_statusai = filter_by ar_terminalus statuses

-- `laimiImportuotas(importuotas, vietinis)`.
unfoldable pub laimi_importuotas : Mark → Option Mark → Bool
unfolding ar_terminalus
laimi_importuotas importuotas none = true
laimi_importuotas importuotas (some vietinis) =
    if ar_terminalus vietinis.status
    then false
    else (if ar_terminalus importuotas.status
        then true
        else ltb vietinis.updated_at importuotas.updated_at)

abbrev pub is_given : Option Text → Bool
is_given none = false
is_given (some []) = false
is_given (some (c ∷ cs)) = true

-- `beClaimo(irasas)`: the record without its token, and whether it had one (`turejoClaima`).
unfoldable pub be_claimo : Mark → Mark × Bool
be_claimo irasas = (record irasas { claim_token = none }, is_given irasas.claim_token)

-- Why an imported mark is left out: the local one is newer or final, or there was nothing to write.
pub data Priezastis : Type 0 where
  vietine_naujesne nera_ko_rasyti : Priezastis

pub record Planas : Type 0 where
  pub rasyti : List Mark
  pub praleisti : List (Text × Priezastis)
  pub nukirpti_claimai : List Text

abbrev pub priezastis : Option Mark → Priezastis
priezastis none = nera_ko_rasyti
priezastis (some z) = vietine_naujesne

-- `suliejimoPlanas(importuotos, vietines)`.
unfoldable pub suliejimo_planas : List Mark → Marks → Planas
unfolding laimi_importuotas be_claimo
suliejimo_planas [] vietines = record { rasyti = []; praleisti = []; nukirpti_claimai = [] }
suliejimo_planas (zalia ∷ importuotos) vietines =
    let rest = suliejimo_planas importuotos vietines in
    let (importuota, turejo_claima) = be_claimo zalia in
    let vietine = get importuota.job_id vietines in
    let laimi = laimi_importuotas importuota vietine in
    record {
      rasyti = if laimi then importuota ∷ rest.rasyti else rest.rasyti;
      praleisti =
          if laimi
          then rest.praleisti
          else (importuota.job_id, priezastis vietine) ∷ rest.praleisti;
      nukirpti_claimai =
          if turejo_claima
          then importuota.job_id ∷ rest.nukirpti_claimai
          else rest.nukirpti_claimai;
    }

-- `horizontoMaksimumas(eksportuotas, vietinis)`, `none` for what is no finite number.
unfoldable pub horizonto_maksimumas : Option ℕ → Option ℕ → Option ℕ
horizonto_maksimumas none b = b
horizonto_maksimumas (some a) none = some a
horizonto_maksimumas (some a) (some b) = some (max a b)

-- `arReikiaReplay(status)`.
unfoldable pub ar_reikia_replay : Status → Bool
ar_reikia_replay s = includes_status statuses s

-- One step of the stable `sort((a, b) => a.jobId.localeCompare(b.jobId))`, where `locale_le a b` says
-- that `a.localeCompare(b)` is not positive.
unfoldable pub insert_by_id : (Text → Text → Bool) → Mark → List Mark → List Mark
insert_by_id locale_le z [] = z ∷ []
insert_by_id locale_le z (w ∷ ws) =
    let rest = insert_by_id locale_le z ws in
    if locale_le z.job_id w.job_id then z ∷ w ∷ ws else w ∷ rest

unfoldable pub sort_by_id : (Text → Text → Bool) → List Mark → List Mark
unfolding insert_by_id
sort_by_id locale_le [] = []
sort_by_id locale_le (z ∷ zs) = insert_by_id locale_le z (sort_by_id locale_le zs)

-- `listAll()`.
unfoldable pub list_all : (Text → Text → Bool) → Marks → List Mark
unfolding sort_by_id
list_all locale_le zymos = sort_by_id locale_le (values zymos)

-- `new Map(list.map((z) => [z.jobId, z]))`, on top of the entries that are there.
unfoldable pub by_job : Marks → List Mark → Marks
by_job acc [] = acc
by_job acc (z ∷ zs) = by_job (set z.job_id z acc) zs

-- `for (const zyma of planas.rasyti) await tombstones.importuotiZyma(zyma)`.
unfoldable pub import_all : List Mark → Marks → Marks
import_all [] zymos = zymos
import_all (z ∷ zs) zymos = let (after, irasas) = importuoti_zyma z zymos in import_all zs after

-- `horizontas !== null && horizontas !== vietinis`.
abbrev pub moves_horizon : Option ℕ → Option ℕ → Bool
moves_horizon none vietinis = false
moves_horizon (some h) none = true
moves_horizon (some h) (some v) = not (h == v)

-- The two parts of the store that `sulieti` changes: the marks and the horizon of the backups.
pub record Saugykla : Type 0 where
  pub zymos : Marks
  pub horizontas : Option ℕ

-- `sulieti` behind its guards, for the marks and the horizon of the ledger: the store after it, and the
-- plan.
unfoldable pub sulieti : (Text → Text → Bool) → List Mark → Option ℕ → Saugykla → Saugykla × Planas
unfolding suliejimo_planas list_all by_job import_all horizonto_maksimumas
sulieti locale_le importuotos eksportuotas s =
    let planas = suliejimo_planas importuotos (by_job [] (list_all locale_le s.zymos)) in
    let horizontas = horizonto_maksimumas eksportuotas s.horizontas in
    (
      record {
        zymos = import_all planas.rasyti s.zymos;
        horizontas =
            if moves_horizon horizontas s.horizontas
            then record_backup_horizon horizontas s.horizontas
            else s.horizontas;
      },
      planas,
    )
