-- ===== src/Audit/Tests.antt =====
-- Concrete audit logs (backend/utils/auditStore/memoryStore.js).
use stenograma.Prelude.{ℕ, ◌≡◌, none, some, [], ◌∷◌, Text, codes, text_eq, arith}
use stenograma.Audit.{
  Row, Log, Query, empty_log, append, remove_by_subject, surikiuoti, tinka, sort_by_seq,
  any_subject,
}
use stenograma.Audit.Rows.{IsLog, Reachable-IsLog, start, next, appending, removing}
use stenograma.Audit.Paging.{all_pages, all_pages_lem}

abbrev row : Text → ℕ → Row
row id n = record {
  id = id;
  event = codes "E";
  request_id = none;
  subject_id = some id;
  timestamp = some n;
  seq = n;
}

abbrev all_rows : Query
all_rows = record { action = none; request_id = none; from = none; to = none; subject_ids = none }

abbrev three : Log
three = record {
  eilutes = row (codes "a") 1 ∷ row (codes "b") 2 ∷ row (codes "c") 3 ∷ [];
  kitas_seq = 4;
}

three-IsLog : IsLog three
three-IsLog = record {
  ascending = ((omega arith, (omega arith, tt)), ((omega arith, tt), (tt, tt)));
  numbered = (omega arith, (omega arith, (omega arith, tt)));
}

Reachable-IsLog_example :
    IsLog
      (remove_by_subject
        (codes "a" ∷ [])
        (append (row (codes "b") 7) none [] (append (row (codes "a") 7) none [] empty_log).0).0).0
Reachable-IsLog_example = Reachable-IsLog (
    next
      (next (next start (appending (row (codes "a") 7) none []))
        (appending (row (codes "b") 7) none []))
      (removing (codes "a" ∷ [])))

all_pages_lem_example : all_pages 4 2 none all_rows three ≡ some (surikiuoti all_rows none three)
unfolding surikiuoti tinka sort_by_seq any_subject text_eq
all_pages_lem_example = all_pages_lem 1 all_rows three three-IsLog 4 none (omega arith)
