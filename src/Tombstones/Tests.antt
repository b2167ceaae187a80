-- ===== src/Tombstones/Tests.antt =====
-- Concrete runs of the store of erasure marks (backend/utils/deletionTombstones/memoryStore.js).
use stenograma.Prelude.{ℕ, refl, none, some, [], ◌∷◌, Text, codes}
use stenograma.Prelude.{text_eq, if◌then◌else◌}
use stenograma.Prelude.Map.{get, set}
use stenograma.Tombstones.{
  pending, deleted, failed, user_request, known, undefined, retryable, allowed_transitions,
  can_transition, allowed_sources, assert_failure_kind, user, status_eq, Status,
}
use stenograma.Tombstones.Memory.{
  Mark, Options, mark, transition, perkelti, moved, next_actor, importuoti_zyma,
}
use stenograma.Tombstones.Safety.{transition-IsMove, IsMove}
use stenograma.Tombstones.Safety.Invariant.{
  Reachable-IsMarks, IsMark, IsMarks, start, next, marking, importing,
}

abbrev a : Text
a = codes "a"

abbrev token : Text
token = codes "t1"

abbrev other_token : Text
other_token = codes "t2"

abbrev plain : ℕ → Options
plain t = record { done_at = none; failure_kind = known retryable; actor = undefined; now = t }

abbrev marked : Mark
marked = record {
  job_id = a;
  status = pending;
  reason = user_request;
  actor_kind = some user;
  requested_at = 5;
  updated_at = 5;
  completed_at = none;
  attempts = 0;
  last_failure_kind = none;
  claim_token = some token;
}

abbrev moved_to : Status → Mark
moved_to s = record {
  job_id = a;
  status = s;
  reason = user_request;
  actor_kind = some user;
  requested_at = 5;
  updated_at = 9;
  completed_at = if status_eq s deleted then some 9 else none;
  attempts = if status_eq s failed then 1 else 0;
  last_failure_kind = if status_eq s failed then some retryable else none;
  claim_token = none;
}

transition-IsMove_example :
    IsMove a failed ((a, marked) ∷ []) ((a, moved_to failed) ∷ []) (moved_to failed)
unfolding transition perkelti moved next_actor allowed_sources can_transition allowed_transitions
    get set text_eq assert_failure_kind
transition-IsMove_example = transition-IsMove a failed (plain 9) ((a, marked) ∷ []) refl

abbrev reclaimed : Mark
reclaimed = record {
  job_id = a;
  status = pending;
  reason = user_request;
  actor_kind = some user;
  requested_at = 5;
  updated_at = 11;
  completed_at = none;
  attempts = 0;
  last_failure_kind = none;
  claim_token = some other_token;
}

imported-IsMark : IsMark a (moved_to deleted)
imported-IsMark = record {
  own_job = refl;
  completed_fits = refl;
  token_fits = refl;
  attempts_fit = refl;
}

Reachable-IsMarks_example :
    IsMarks
      (mark a (known user_request) (known user) 5 token (importuoti_zyma (moved_to deleted) []).0).0
Reachable-IsMarks_example =
    Reachable-IsMarks
      (next (next start (importing (moved_to deleted)))
        (marking a (known user_request) (known user) 5 token))
      (imported-IsMark, tt)
