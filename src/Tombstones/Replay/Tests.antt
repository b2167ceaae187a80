-- ===== src/Tombstones/Replay/Tests.antt =====
-- A concrete replay (backend/utils/erasureReplay.js).
use stenograma.Prelude.{refl, false, none, some, [], ◌∷◌, Text, codes, text_eq, All}
use stenograma.Prelude.Map.{get, set}
use stenograma.Result.{ok, err, type_error}
use stenograma.Tombstones.{
  operator, deleted, failed, user_request, retryable, allowed_transitions, can_transition,
  allowed_sources, assert_actor_kind, assert_failure_kind,
}
use stenograma.Tombstones.Memory.{Mark, transition, perkelti, moved, next_actor, get_mark}
use stenograma.Tombstones.Facade.{retry, complete}
use stenograma.Tombstones.Ledger.{ar_reikia_replay}
use stenograma.Tombstones.Replay.{
  Answers, Ataskaita, replay, replay_one, replay_present, uzdaryti, paruosti_uzdarymui, gathered,
}
use stenograma.Tombstones.Replay.Complete.{IsReplayed}
use stenograma.Tombstones.Replay.Outcome.{replay_complete}

abbrev a : Text
a = codes "a"

abbrev failed_mark : Mark
failed_mark = record {
  job_id = a;
  status = failed;
  reason = user_request;
  actor_kind = none;
  requested_at = 5;
  updated_at = 9;
  completed_at = none;
  attempts = 2;
  last_failure_kind = some retryable;
  claim_token = none;
}

-- The job is there, and its erasure goes through.
abbrev erased : Text → Answers
erased k = record {
  job = ok (some false);
  artefaktai = err type_error;
  bandymai = err type_error;
  audit = ok tt;
  erased = ok (some false);
}

abbrev before : Ataskaita
before = record {
  zymos = (a, failed_mark) ∷ [];
  istrinta = [];
  jau_nebuvo = [];
  uzdarytos_zymos = [];
  audio_valymo_skola = [];
  nesekmes = [];
}

abbrev closed_mark : Mark
closed_mark = record failed_mark {
  status = deleted;
  actor_kind = some operator;
  updated_at = 20;
  completed_at = some 20;
  last_failure_kind = none;
}

abbrev after : Ataskaita
after = record before { zymos = (a, closed_mark) ∷ []; istrinta = a ∷ [] }

replay_complete_example :
    All (λ (z : Mark). IsReplayed (erased z.job_id) z.job_id after.zymos) (failed_mark ∷ [])
unfolding replay replay_one replay_present uzdaryti paruosti_uzdarymui gathered retry complete
    transition perkelti moved next_actor get_mark get set text_eq ar_reikia_replay allowed_sources
    can_transition allowed_transitions assert_actor_kind assert_failure_kind
replay_complete_example = replay_complete erased 20 (failed_mark ∷ []) before after refl refl
