-- ===== src/Tombstones/Memory.antt =====
-- The in-memory store of erasure marks (backend/utils/deletionTombstones/memoryStore.js). The map `zymos`
-- is passed in and returned; the clock and the random tokens are arguments. Times are whole
-- milliseconds.
use stenograma.Prelude.{
  ℕ, zero, suc, ◌+◌, ◌-◌, max, min, Bool, true, false, ◌&&◌, not, Option, none, some, List, [], ◌∷◌,
  map, Text, text_eq, codes, leb, length, take, filter_by, ℤ, pos, negsuc, ltb_ℤ, if◌then◌else◌,
}
use stenograma.Prelude.Map.{Map, get, set}
use stenograma.Result.{Result, ok, err, range_error}
use stenograma.Tombstones.{
  Status, pending, deleted, failed, Reason, ActorKind, FailureKind, Given, undefined, status_eq,
  includes_status, assert_reason, assert_actor_kind, assert_failure_kind, allowed_sources,
}

pub record Mark : Type 0 where
  pub job_id : Text
  pub status : Status
  pub reason : Reason
  pub actor_kind : Option ActorKind
  pub requested_at : ℕ
  pub updated_at : ℕ
  pub completed_at : Option ℕ
  pub attempts : ℕ
  pub last_failure_kind : Option FailureKind
  pub claim_token : Option Text

abbrev pub Marks : Type 0
Marks = Map Mark

-- `!jobId`.
abbrev pub is_blank : Text → Bool
is_blank k = text_eq k (codes "")

unfoldable pub new_mark : Text → Reason → Option ActorKind → ℕ → Text → Mark
new_mark k reason actor now token = record {
  job_id = k;
  status = pending;
  reason = reason;
  actor_kind = actor;
  requested_at = now;
  updated_at = now;
  completed_at = none;
  attempts = 0;
  last_failure_kind = none;
  claim_token = some token;
}

-- A mark, and whether the caller is the one that carries the erasure out.
abbrev pub Claim : Type 0
Claim = Option (Mark × Bool)

-- The part of `mark` behind the two assertions: an existing mark wins.
unfoldable pub insert_mark :
    Text → Reason → Option ActorKind → ℕ → Text → Marks → Option Mark → Marks × Claim
unfolding new_mark
insert_mark k reason actor now token zymos (some esamas) = (zymos, some (esamas, false))
insert_mark k reason actor now token zymos none =
    let irasas = new_mark k reason actor now token in (set k irasas zymos, some (irasas, true))

abbrev pub mark_checked :
    Text → ℕ → Text → Marks → Result Reason → Result (Option ActorKind) → Marks × Result Claim
mark_checked k now token zymos (err e) a = (zymos, err e)
mark_checked k now token zymos (ok r) (err e) = (zymos, err e)
mark_checked k now token zymos (ok r) (ok a) =
    let (after, claim) = insert_mark k r a now token zymos (get k zymos) in (after, ok claim)

-- `mark(jobId, { reason, actorKind, now })`.
unfoldable pub mark :
    Text → Given Reason → Given ActorKind → ℕ → Text → Marks → Marks × Result Claim
unfolding insert_mark
mark k reason actor now token zymos =
    if is_blank k
    then (zymos, ok none)
    else mark_checked k now token zymos (assert_reason reason) (assert_actor_kind actor)

-- The options of a transition.
pub record Options : Type 0 where
  pub done_at : Option ℕ
  pub failure_kind : Given FailureKind
  pub actor : Given ActorKind
  pub now : ℕ

-- `completedAt || now`.
abbrev pub or_now : Option ℕ → ℕ → ℕ
or_now none now = now
or_now (some zero) now = now
or_now (some (suc n)) now = suc n

-- The actor of the mark after a transition; an actor that is not given leaves it.
unfoldable pub next_actor : Given ActorKind → Option ActorKind → Result (Option ActorKind)
next_actor undefined old = ok old
next_actor g old = assert_actor_kind g

-- The changes to the record, behind the validation.
unfoldable pub moved : Mark → Status → Options → Option ActorKind → Mark
moved irasas to o a = record {
  job_id = irasas.job_id;
  status = to;
  reason = irasas.reason;
  actor_kind = a;
  requested_at = irasas.requested_at;
  updated_at = o.now;
  completed_at = if status_eq to deleted then some (or_now o.done_at o.now) else none;
  attempts = if status_eq to failed then irasas.attempts + 1 else irasas.attempts;
  last_failure_kind =
      if status_eq to failed
      then assert_failure_kind o.failure_kind
      else (if status_eq to pending then none else irasas.last_failure_kind);
  claim_token = none;
}

abbrev pub moved_found :
    Text
    → Status
    → Options
    → Marks
    → Mark
    → Result (Option ActorKind)
    → Marks × Result (Option Mark)
moved_found k to o zymos irasas (err e) = (zymos, err e)
moved_found k to o zymos irasas (ok a) = let z = moved irasas to o a in (set k z zymos, ok (some z))

abbrev pub perkelti_found :
    Text → List Status → Status → Options → Marks → Option Mark → Marks × Result (Option Mark)
perkelti_found k from to o zymos none = (zymos, ok none)
perkelti_found k from to o zymos (some irasas) =
    if includes_status from irasas.status
    then moved_found k to o zymos irasas (next_actor o.actor irasas.actor_kind)
    else (zymos, ok none)

-- `_perkelti(jobId, from, to, options)`.
unfoldable pub perkelti :
    Text → List Status → Status → Options → Marks → Marks × Result (Option Mark)
perkelti k from to o zymos = perkelti_found k from to o zymos (get k zymos)

-- `transition(jobId, to, options)`.
unfoldable pub transition : Text → Status → Options → Marks → Marks × Result (Option Mark)
unfolding perkelti
transition k to o zymos = perkelti k (allowed_sources to) to o zymos

-- `transitionOverride(jobId, from, to, options)`.
unfoldable pub transition_override :
    Text → List Status → Status → Options → Marks → Marks × Result (Option Mark)
unfolding perkelti
transition_override k from to o zymos = perkelti k from to o zymos

-- `get(jobId)`.
unfoldable pub get_mark : Text → Marks → Option Mark
get_mark k zymos = if is_blank k then none else get k zymos

-- `claimRetry(jobId)`: the conditions on the mark.
unfoldable pub may_claim : Mark → Bool
may_claim irasas = status_eq irasas.status pending && is_free irasas.claim_token
  where
    is_free : Option Text → Bool
    is_free none = true
    is_free (some t) = false

unfoldable pub claimed : Mark → Text → ℕ → Mark
claimed irasas token now = record {
  job_id = irasas.job_id;
  status = irasas.status;
  reason = irasas.reason;
  actor_kind = irasas.actor_kind;
  requested_at = irasas.requested_at;
  updated_at = now;
  completed_at = irasas.completed_at;
  attempts = irasas.attempts;
  last_failure_kind = irasas.last_failure_kind;
  claim_token = some token;
}

abbrev pub claim_found : Text → Text → ℕ → Marks → Option Mark → Marks × Option Mark
claim_found k token now zymos none = (zymos, none)
claim_found k token now zymos (some irasas) =
    if may_claim irasas
    then (let z = claimed irasas token now in (set k z zymos, some z))
    else (zymos, none)

unfoldable pub claim_retry : Text → Text → ℕ → Marks → Marks × Option Mark
unfolding may_claim claimed
claim_retry k token now zymos =
    if is_blank k then (zymos, none) else claim_found k token now zymos (get k zymos)

-- `importuotiZyma(irasas)`: the record merged with the one that is there.
unfoldable pub merged : Mark → Option Mark → Mark
merged irasas esamas = record {
  job_id = irasas.job_id;
  status = irasas.status;
  reason = irasas.reason;
  actor_kind = irasas.actor_kind;
  requested_at = elim esamas [
    | none ↦ irasas.requested_at
    | some z ↦ min z.requested_at irasas.requested_at
  ];
  updated_at = irasas.updated_at;
  completed_at = irasas.completed_at;
  attempts = max (elim esamas [ none ↦ 0 | some z ↦ z.attempts ]) irasas.attempts;
  last_failure_kind = irasas.last_failure_kind;
  claim_token = none;
}

unfoldable pub importuoti_zyma : Mark → Marks → Marks × Mark
unfolding merged
importuoti_zyma irasas zymos =
    let naujas = merged irasas (get irasas.job_id zymos) in (set naujas.job_id naujas zymos, naujas)

abbrev pub values : Marks → List Mark
values [] = []
values ((k, z) ∷ zymos) = z ∷ values zymos

-- One step of the stable `sort((a, b) => a.requestedAt - b.requestedAt)`.
unfoldable pub insert_by_age : Mark → List Mark → List Mark
insert_by_age z [] = z ∷ []
insert_by_age z (w ∷ ws) =
    let rest = insert_by_age z ws in
    if leb z.requested_at w.requested_at then z ∷ w ∷ ws else w ∷ rest

unfoldable pub sort_by_age : List Mark → List Mark
unfolding insert_by_age
sort_by_age [] = []
sort_by_age (z ∷ zs) = insert_by_age z (sort_by_age zs)

-- `z.status !== DELETED && z.requestedAt <= now - olderThanMs`.
unfoldable pub is_unresolved : ℕ → ℕ → Mark → Bool
is_unresolved older now z = not (status_eq z.status deleted) && leb (z.requested_at + older) now

-- `listUnresolved({ olderThanMs, limit, now })`: each mark with its age.
unfoldable pub list_unresolved : ℕ → ℕ → ℕ → Marks → List (Mark × ℕ)
unfolding sort_by_age is_unresolved
list_unresolved older limit now zymos =
    map (λ z. (z, now - z.requested_at))
      (take limit (sort_by_age (filter_by (is_unresolved older now) (values zymos))))

-- `recordBackupHorizon(expiresAtMs)`, `none` for a number that is not finite.
unfoldable pub record_backup_horizon : Option ℕ → Option ℕ → Option ℕ
record_backup_horizon none horizontas = horizontas
record_backup_horizon (some e) none = some (max 0 e)
record_backup_horizon (some e) (some h) = some (max h e)

-- `retencijosRiba(terminasMs, now)`, `none` for a term that is no finite number.
unfoldable pub retencijos_riba : Option ℕ → ℕ → Result ℤ
retencijos_riba none now = err range_error
retencijos_riba (some zero) now = err range_error
retencijos_riba (some (suc n)) now =
    ok (if leb (suc n) now then pos (now - suc n) else negsuc (n - now))

-- The deleted marks older than the limit.
unfoldable pub is_purged : ℤ → Mark → Bool
is_purged cutoff z = status_eq z.status deleted && ltb_ℤ (pos z.updated_at) cutoff

-- `purgeExpired(cutoffMs, limit)`: the loop with what is left of the limit, `none` for `Infinity`.
unfoldable pub purge_expired : ℤ → Option ℕ → Marks → Marks × ℕ
unfolding is_purged
purge_expired cutoff (some zero) zymos = (zymos, 0)
purge_expired cutoff room [] = ([], 0)
purge_expired cutoff none ((k, z) ∷ zymos) =
    let (kept, n) = purge_expired cutoff none zymos in
    if is_purged cutoff z then (kept, n + 1) else ((k, z) ∷ kept, n)
purge_expired cutoff (some (suc room)) ((k, z) ∷ zymos) =
    let (taken, m) = purge_expired cutoff (some room) zymos in
    let (kept, n) = purge_expired cutoff (some (suc room)) zymos in
    if is_purged cutoff z then (taken, m + 1) else ((k, z) ∷ kept, n)

unfoldable pub size : Marks → ℕ
size zymos = length zymos

unfoldable pub clear : Marks → Marks
clear zymos = []
