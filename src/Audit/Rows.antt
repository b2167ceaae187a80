-- ===== src/Audit/Rows.antt =====
-- The order of the audit rows, over every sequence of operations (backend/utils/auditStore/memoryStore.js).
use stenograma.Prelude.{
  ℕ, zero, suc, ◌+◌, ◌<◌, Bool, ◌&&◌, not, Option, none, some, List, [], ◌∷◌, ◌++◌, Text, All,
  filter_by, arith, Bool-cases, inl, inr,
}
use stenograma.Tombstones.Memory.{Marks}
use stenograma.Tombstones.Facade.{is_deleted}
use stenograma.Audit.{
  Row, Log, empty_log, append, insert_row, find_row, is_given, or_empty, remove_by_subject,
  includes_subject, purge_expired, purge_rows, is_before, purge_all_for_privacy,
}

-- The rows come in the order of their numbers.
abbrev pub Ascending : List Row → Type 0
Ascending [] = Unit
Ascending (e ∷ es) = All (λ (f : Row). e.seq < f.seq) es × Ascending es

pub record IsLog (log : Log) : Type 0 where
  pub ascending : Ascending log.eilutes
  pub numbered : All (λ (e : Row). e.seq < log.kitas_seq) log.eilutes

All-append : (P : Row → Type 0) (es : List Row) (e : Row) → All P es → P e → All P (es ++ (e ∷ []))
All-append P [] e h p = (p, tt)
All-append P (f ∷ fs) e (q, h) p = (q, All-append P fs e h p)

All-map : (P Q : Row → Type 0) → ((e : Row) → P e → Q e) → (es : List Row) → All P es → All Q es
All-map P Q f [] h = tt
All-map P Q f (e ∷ es) (p, h) = (f e p, All-map P Q f es h)

pub All-filter_by :
    (P : Row → Type 0) (p : Row → Bool) (es : List Row) → All P es → All P (filter_by p es)
All-filter_by P p [] h = tt
All-filter_by P p (e ∷ es) (q, h) = elim (Bool-cases (p e)) [
  | inl stays ↦ rw stays (q, All-filter_by P p es h)
  | inr gone ↦ rw gone (All-filter_by P p es h)
]

pub Ascending-filter_by :
    (p : Row → Bool) (es : List Row) → Ascending es → Ascending (filter_by p es)
Ascending-filter_by p [] h = tt
Ascending-filter_by p (e ∷ es) (q, h) = elim (Bool-cases (p e)) [
  | inl stays ↦ rw stays (All-filter_by (λ f. e.seq < f.seq) p es q, Ascending-filter_by p es h)
  | inr gone ↦ rw gone (Ascending-filter_by p es h)
]

Ascending-append :
    (es : List Row) (e : Row)
    → All (λ (f : Row). f.seq < e.seq) es
    → Ascending es
    → Ascending (es ++ (e ∷ []))
Ascending-append [] e q h = (tt, tt)
Ascending-append (f ∷ fs) e (lt, q) (r, h) =
    (All-append (λ g. f.seq < g.seq) fs e r lt, Ascending-append fs e q h)

All-purge_rows :
    (P : Row → Type 0) (cutoff : ℕ) (room : Option ℕ) (es : List Row)
    → All P es
    → All P (purge_rows cutoff room es).0
unfolding purge_rows
All-purge_rows P cutoff (some zero) es h = h
All-purge_rows P cutoff none [] h = tt
All-purge_rows P cutoff (some (suc n)) [] h = tt
All-purge_rows P cutoff none (e ∷ es) (p, h) =
    elim (Bool-cases (is_before e.timestamp (some cutoff))) [
      | inl old ↦ rw old (All-purge_rows P cutoff none es h)
      | inr young ↦ rw young (p, All-purge_rows P cutoff none es h)
    ]
All-purge_rows P cutoff (some (suc n)) (e ∷ es) (p, h) =
    elim (Bool-cases (is_before e.timestamp (some cutoff))) [
      | inl old ↦ rw old (All-purge_rows P cutoff (some n) es h)
      | inr young ↦ rw young (p, All-purge_rows P cutoff (some (suc n)) es h)
    ]

Ascending-purge_rows :
    (cutoff : ℕ) (room : Option ℕ) (es : List Row)
    → Ascending es
    → Ascending (purge_rows cutoff room es).0
unfolding purge_rows
Ascending-purge_rows cutoff (some zero) es h = h
Ascending-purge_rows cutoff none [] h = tt
Ascending-purge_rows cutoff (some (suc n)) [] h = tt
Ascending-purge_rows cutoff none (e ∷ es) (q, h) =
    elim (Bool-cases (is_before e.timestamp (some cutoff))) [
      | inl old ↦ rw old (Ascending-purge_rows cutoff none es h)
      | inr young ↦ rw young (
        All-purge_rows (λ f. e.seq < f.seq) cutoff none es q,
        Ascending-purge_rows cutoff none es h,
      )
    ]
Ascending-purge_rows cutoff (some (suc n)) (e ∷ es) (q, h) =
    elim (Bool-cases (is_before e.timestamp (some cutoff))) [
      | inl old ↦ rw old (Ascending-purge_rows cutoff (some n) es h)
      | inr young ↦ rw young (
        All-purge_rows (λ f. e.seq < f.seq) cutoff (some (suc n)) es q,
        Ascending-purge_rows cutoff (some (suc n)) es h,
      )
    ]

insert_row-IsLog : (e : Row) (log : Log) (o : Option Row) → IsLog log → IsLog (insert_row e log o).0
insert_row-IsLog e log (some esama) h = h
insert_row-IsLog e log none h = record {
  ascending =
      Ascending-append log.eilutes (record e { seq = log.kitas_seq }) h.numbered h.ascending;
  numbered =
      All-append (λ f. f.seq < log.kitas_seq + 1) log.eilutes (record e { seq = log.kitas_seq })
        (All-map (λ f. f.seq < log.kitas_seq) (λ f. f.seq < log.kitas_seq + 1)
          (λ f lt. omega (arith, lt)) log.eilutes h.numbered)
        (omega arith);
}

-- One call on the store.
pub data Step (log : Log) : Log → Type 0 where
  appending :
      (e : Row) (job_id : Option Text) (zymos : Marks) → Step log (append e job_id zymos log).0
  removing : (subjects : List Text) → Step log (remove_by_subject subjects log).0
  purging : (cutoff : ℕ) (limit : Option ℕ) → Step log (purge_expired cutoff limit log).0
  clearing : Step log (purge_all_for_privacy log).0

pub data Reachable : Log → Type 0 where
  start : Reachable empty_log
  next : {log log' : Log} → Reachable log → Step log log' → Reachable log'

Step-IsLog : {log log' : Log} → Step log log' → IsLog log → IsLog log'
unfolding append remove_by_subject purge_expired purge_all_for_privacy
Step-IsLog {log} (appending e job_id zymos) h =
    elim (Bool-cases
      (is_given job_id && is_given e.subject_id && is_deleted (or_empty job_id) zymos)) [
        | inl barred ↦ rw barred h
        | inr free ↦ rw free (insert_row-IsLog e log (find_row e.id log.eilutes) h)
      ]
Step-IsLog {log} (removing subjects) h = record {
  ascending =
      Ascending-filter_by (λ e. not (includes_subject subjects e.subject_id)) log.eilutes
        h.ascending;
  numbered =
      All-filter_by (λ e. e.seq < log.kitas_seq) (λ e. not (includes_subject subjects e.subject_id))
        log.eilutes h.numbered;
}
Step-IsLog {log} (purging cutoff limit) h = record {
  ascending = Ascending-purge_rows cutoff limit log.eilutes h.ascending;
  numbered = All-purge_rows (λ e. e.seq < log.kitas_seq) cutoff limit log.eilutes h.numbered;
}
Step-IsLog clearing h = record { ascending = tt; numbered = tt }

-- Whatever is appended, removed and purged, in every order: the rows stand in the order of their numbers,
-- no number stands twice, and the next one is larger than all.
pub Reachable-IsLog : {log : Log} → Reachable log → IsLog log
Reachable-IsLog start = record { ascending = tt; numbered = tt }
Reachable-IsLog (next r s) = Step-IsLog s (Reachable-IsLog r)
