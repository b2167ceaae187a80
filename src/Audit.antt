-- ===== src/Audit.antt =====
-- The in-memory store of audit rows (backend/utils/auditStore/memoryStore.js). A row is normalized and carries
-- the number that the store's `WeakMap` gives it; a time that `Date.parse` does not read is `none`.
mod Tests
pub mod Rows
mod Ordered
pub mod Paging
use stenograma.Prelude.{
  ℕ, zero, suc, ◌+◌, Bool, true, false, ◌&&◌, ◌||◌, not, Option, none, some, List, [], ◌∷◌, ◌++◌,
  Text, text_eq, ltb, leb, take, length, filter_by, if◌then◌else◌,
}
use stenograma.Result.{Result, ok, err, erasure_barrier, type_error}
use stenograma.Tombstones.Memory.{Marks}
use stenograma.Tombstones.Facade.{is_deleted}

pub record Row : Type 0 where
  pub id : Text
  pub event : Text
  pub request_id : Option Text
  pub subject_id : Option Text
  pub timestamp : Option ℕ
  pub seq : ℕ

-- `eilutes` and `kitasSeq`.
pub record Log : Type 0 where
  pub eilutes : List Row
  pub kitas_seq : ℕ

abbrev pub empty_log : Log
empty_log = record { eilutes = []; kitas_seq = 1 }

-- Whether a text is given and not empty.
abbrev pub is_given : Option Text → Bool
is_given none = false
is_given (some t) = not (text_eq t [])

abbrev pub or_empty : Option Text → Text
or_empty none = []
or_empty (some t) = t

-- `eilutes.find((e) => e.id === id)`.
unfoldable pub find_row : Text → List Row → Option Row
find_row id [] = none
find_row id (e ∷ es) = let rest = find_row id es in if text_eq e.id id then some e else rest

abbrev pub insert_row : Row → Log → Option Row → Log × Result Row
insert_row eilute log (some esama) = (log, ok esama)
insert_row eilute log none =
    let svari = record eilute { seq = log.kitas_seq } in
    (record { eilutes = log.eilutes ++ (svari ∷ []); kitas_seq = log.kitas_seq + 1 }, ok svari)

-- `append(eilute, { jobId })`, over the store of erasure marks.
unfoldable pub append : Row → Option Text → Marks → Log → Log × Result Row
unfolding find_row
append eilute job_id zymos log =
    if is_given job_id && is_given eilute.subject_id && is_deleted (or_empty job_id) zymos
    then (log, err erasure_barrier)
    else insert_row eilute log (find_row eilute.id log.eilutes)

-- `filtruoti(sarasas, { event, requestId })`.
abbrev pub is_value : Option Text → Option Text → Bool
is_value wanted none = false
is_value wanted (some t) = text_eq t (or_empty wanted)

unfoldable pub filtruoti : Option Text → Option Text → List Row → List Row
filtruoti event request_id es =
    filter_by
      (λ e.
        (if is_given event then text_eq e.event (or_empty event) else true)
        && (if is_given request_id then is_value request_id e.request_id else true))
      es

abbrev pub drop_rows : ℕ → List Row → List Row
drop_rows zero es = es
drop_rows (suc n) [] = []
drop_rows (suc n) (e ∷ es) = drop_rows n es

-- `list({ limit, offset, event, requestId })`: the rows and the total.
unfoldable pub list_rows : Option ℕ → ℕ → Option Text → Option Text → Log → List Row × ℕ
unfolding filtruoti
list_rows limit offset event request_id log =
    let found = filtruoti event request_id log.eilutes in
    let rest = drop_rows offset found in
    (elim limit [ none ↦ rest | some n ↦ take n rest ], length found)

abbrev pub includes_subject : List Text → Option Text → Bool
includes_subject [] s = false
includes_subject (t ∷ ts) s = (not (text_eq t []) && is_value (some t) s) || includes_subject ts s

-- `removeBySubject(subjectId)`: the log and the number of rows it has lost.
unfoldable pub remove_by_subject : List Text → Log → Log × ℕ
remove_by_subject subjects log = (
  record log {
    eilutes = filter_by (λ e. not (includes_subject subjects e.subject_id)) log.eilutes;
  },
  length (filter_by (λ e. includes_subject subjects e.subject_id) log.eilutes),
)

-- The conditions of `queryPage`; a bound that is missing or no date sets none.
pub record Query : Type 0 where
  pub action : Option Text
  pub request_id : Option Text
  pub from : Option ℕ
  pub to : Option ℕ
  pub subject_ids : Option (List Text)

abbrev pub is_before : Option ℕ → Option ℕ → Bool
is_before none b = false
is_before (some t) none = false
is_before (some t) (some b) = ltb t b

unfoldable pub any_subject : List Text → Option Text → Bool
any_subject [] s = false
any_subject (t ∷ ts) s = is_value (some t) s || any_subject ts s

-- `tinka(e)`.
unfoldable pub tinka : Query → Row → Bool
unfolding any_subject
tinka q e =
    (if is_given q.action then text_eq e.event (or_empty q.action) else true)
    && (if is_given q.request_id then is_value q.request_id e.request_id else true)
    && elim q.subject_ids [ none ↦ true | some ts ↦ any_subject ts e.subject_id ]
    && not (is_before e.timestamp q.from)
    && not (is_before q.to e.timestamp)

-- One step of the stable `sort((a, b) => b.seq - a.seq)`.
unfoldable pub insert_by_seq : Row → List Row → List Row
insert_by_seq e [] = e ∷ []
insert_by_seq e (f ∷ fs) =
    let rest = insert_by_seq e fs in if leb f.seq e.seq then e ∷ f ∷ fs else f ∷ rest

unfoldable pub sort_by_seq : List Row → List Row
unfolding insert_by_seq
sort_by_seq [] = []
sort_by_seq (e ∷ es) = insert_by_seq e (sort_by_seq es)

-- `afterSeq === null || x.seq < afterSeq`.
abbrev pub is_below : Option ℕ → ℕ → Bool
is_below none t = true
is_below (some s) t = ltb t s

abbrev pub is_after : Option ℕ → Row → Bool
is_after after e = is_below after e.seq

unfoldable pub surikiuoti : Query → Option ℕ → Log → List Row
unfolding tinka sort_by_seq
surikiuoti q after log = filter_by (is_after after) (sort_by_seq (filter_by (tinka q) log.eilutes))

unfoldable pub last_seq : List Row → Option ℕ
last_seq [] = none
last_seq (e ∷ []) = some e.seq
last_seq (e ∷ f ∷ fs) = last_seq (f ∷ fs)

-- A page: its rows and `nextAfterSeq`.
pub record Page : Type 0 where
  pub entries : List Row
  pub next_after_seq : Option ℕ

-- `queryPage({ limit, afterSeq, ... })`; a page of no rows that has a successor has no last row to read.
unfoldable pub query_page : ℕ → Option ℕ → Query → Log → Result Page
unfolding surikiuoti last_seq
query_page limit after q log =
    let puslapis = take (limit + 1) (surikiuoti q after log) in
    if ltb limit (length puslapis)
    then elim (last_seq (take limit puslapis)) [
      | none ↦ err type_error
      | some s ↦ ok (record { entries = take limit puslapis; next_after_seq = some s })
    ]
    else ok (record { entries = puslapis; next_after_seq = none })

-- `countBySubject(subjectId)`.
unfoldable pub count_by_subject : Option Text → Log → ℕ
count_by_subject subject log =
    if is_given subject
    then length (filter_by (λ e. is_value subject e.subject_id) log.eilutes)
    else 0

-- `purgeExpired(cutoff, limit)`, with what is left of the limit, `none` for `Infinity`.
unfoldable pub purge_rows : ℕ → Option ℕ → List Row → List Row × ℕ
purge_rows cutoff (some zero) es = (es, 0)
purge_rows cutoff room [] = ([], 0)
purge_rows cutoff none (e ∷ es) =
    let (rest, n) = purge_rows cutoff none es in
    if is_before e.timestamp (some cutoff) then (rest, n + 1) else (e ∷ rest, n)
purge_rows cutoff (some (suc room)) (e ∷ es) =
    let (taken, m) = purge_rows cutoff (some room) es in
    let (rest, n) = purge_rows cutoff (some (suc room)) es in
    if is_before e.timestamp (some cutoff) then (taken, m + 1) else (e ∷ rest, n)

unfoldable pub purge_expired : ℕ → Option ℕ → Log → Log × ℕ
unfolding purge_rows
purge_expired cutoff limit log =
    let (rest, n) = purge_rows cutoff limit log.eilutes in (record log { eilutes = rest }, n)

-- `purgeAllForPrivacy()`, and `clear()`.
unfoldable pub purge_all_for_privacy : Log → Log × ℕ
purge_all_for_privacy log = (record log { eilutes = [] }, length log.eilutes)
