-- ===== src/Tombstones/Facade.antt =====
-- The facade over the store of erasure marks (backend/utils/deletionTombstones/index.js) in its memory mode,
-- and the operator's actions on marks (backend/services/erasureMarkService.js). What the revival
-- horizon of the queues, the retention of backups and the environment say are arguments.
mod Tests
pub mod Machine
pub mod Refinement
pub mod Purge
pub mod Retention
pub mod Executors
use stenograma.Prelude.{
  ℕ, zero, suc, ◌+◌, ◌-◌, ◌*◌, Bool, true, false, not, Option, none, some, List, [], ◌∷◌, Text, ltb,
  max, ℤ, map, if◌then◌else◌,
}
use stenograma.Result.{Result, ok, err, ◌>>=◌, erasure_barrier}
use stenograma.Tombstones.{
  Status, pending, deleted, failed, Reason, user_request, ActorKind, operator, FailureKind,
  executor_lost, Given, undefined, null, known, status_eq,
}
use stenograma.Tombstones.Memory.{
  Mark, Marks, Options, Claim, is_blank, mark, transition, transition_override, get_mark,
  claim_retry, purge_expired, retencijos_riba, record_backup_horizon, list_unresolved,
}

-- `{ reason = USER_REQUEST }`.
abbrev pub or_user_request : Given Reason → Given Reason
or_user_request undefined = known user_request
or_user_request g = g

-- `{ actorKind = OPERATOR }`.
abbrev pub or_operator : Given ActorKind → Given ActorKind
or_operator undefined = known operator
or_operator g = g

-- `mark(jobId, { reason, actorKind })`.
unfoldable pub mark_job :
    Text → Given Reason → Given ActorKind → ℕ → Text → Marks → Marks × Result Claim
mark_job k reason actor now token zymos = mark k (or_user_request reason) actor now token zymos

abbrev pub authoritative : Text → Marks × Result (Option Mark) → Marks × Result (Option Mark)
authoritative k (zymos, err e) = (zymos, err e)
authoritative k (zymos, ok (some z)) = (zymos, ok (some z))
authoritative k (zymos, ok none) = (zymos, ok (get_mark k zymos))

-- `complete(jobId, status, { completedAt, failureKind })`: the mark that was moved, or the one that is
-- there.
unfoldable pub complete :
    Text → Status → Option ℕ → Given FailureKind → ℕ → Marks → Marks × Result (Option Mark)
complete k s done kind now zymos =
    if is_blank k
    then (zymos, ok none)
    else authoritative k (
        transition k s
          (record { done_at = done; failure_kind = kind; actor = undefined; now = now }) zymos)

-- `retry(jobId, { actorKind })`.
unfoldable pub retry : Text → Given ActorKind → ℕ → Marks → Marks × Result (Option Mark)
retry k actor now zymos =
    if is_blank k
    then (zymos, ok none)
    else transition k pending
        (record { done_at = none; failure_kind = undefined; actor = or_operator actor; now = now })
        zymos

-- `release(jobId, { actorKind })`.
unfoldable pub release : Text → Given ActorKind → ℕ → Marks → Marks × Result (Option Mark)
release k actor now zymos =
    if is_blank k
    then (zymos, ok none)
    else transition_override k (pending ∷ []) failed
        (record {
          done_at = none;
          failure_kind = known executor_lost;
          actor = or_operator actor;
          now = now;
        })
        zymos

-- `forceResolve(jobId, { actorKind, completedAt })`.
unfoldable pub force_resolve :
    Text → Given ActorKind → Option ℕ → ℕ → Marks → Marks × Result (Option Mark)
force_resolve k actor done now zymos =
    if is_blank k
    then (zymos, ok none)
    else transition_override k (pending ∷ failed ∷ []) deleted
        (record { done_at = done; failure_kind = undefined; actor = or_operator actor; now = now })
        zymos

-- `isDeleted(jobId)`, which is `isBarred(jobId)`.
unfoldable pub is_deleted : Text → Marks → Bool
is_deleted k zymos = elim (get_mark k zymos) [ none ↦ false | some z ↦ true ]

-- `isConfirmedDeleted(jobId)`.
unfoldable pub is_confirmed_deleted : Text → Marks → Bool
is_confirmed_deleted k zymos = elim (get_mark k zymos) [
  | none ↦ false
  | some z ↦ status_eq z.status deleted
]

-- `assertNotBarred(klientas, jobId)`.
unfoldable pub assert_not_barred : Text → Marks → Result (Unit {0})
assert_not_barred k zymos = elim (get_mark k zymos) [ none ↦ ok tt | some z ↦ err erasure_barrier ]

-- A mark, and whether the caller carries the erasure out (`vykdytojas`).
abbrev pub Executor : Type 0
Executor = Option Mark × Bool

abbrev pub claim_taken : Mark → Marks × Option Mark → Marks × Result Executor
claim_taken z (zymos, none) = (zymos, ok (some z, false))
claim_taken z (zymos, some taken) = (zymos, ok (some taken, true))

abbrev pub claim_marked : Text → Text → ℕ → Marks × Result Claim → Marks × Result Executor
claim_marked k token now (zymos, err e) = (zymos, err e)
claim_marked k token now (zymos, ok none) = (zymos, ok (none, false))
claim_marked k token now (zymos, ok (some (z, true))) = (zymos, ok (some z, true))
claim_marked k token now (zymos, ok (some (z, false))) =
    if status_eq z.status pending
    then claim_taken z (claim_retry k token now zymos)
    else (zymos, ok (some z, false))

-- `claimForDeletion(jobId, { reason, actorKind })`; the token is drawn once, by whichever call writes it.
unfoldable pub claim_for_deletion :
    Text → Given Reason → Given ActorKind → ℕ → Text → Marks → Marks × Result Executor
unfolding mark_job
claim_for_deletion k reason actor now token zymos =
    claim_marked k token now (mark_job k reason actor now token zymos)

-- `SAFETY_MARGIN_MS`.
abbrev pub safety_margin_ms : ℕ
safety_margin_ms = 86400000

-- The part of `retentionMs` behind the reading of its three sizes, in milliseconds.
unfoldable pub retention_base : ℕ → ℕ → Option ℕ → Option ℕ
retention_base zero kopijos rankinis = none
retention_base (suc h) zero rankinis = none
retention_base (suc h) (suc k) none = some (max (suc h) (suc k) + safety_margin_ms)
retention_base (suc h) (suc k) (some r) =
    let base = max (suc h) (suc k) + safety_margin_ms in some (if ltb base r then r else base)

abbrev pub with_issued : ℕ → Option ℕ → ℕ → ℕ
with_issued kopijos none now = kopijos
with_issued kopijos (some h) now = max kopijos (h - now)

-- `retentionMs(env)`: the revival horizon and the retention of backups, `none` where reading them
-- throws; the horizon of the copies that were issued; and the manual term.
unfoldable pub retention_ms : Option ℕ → Option ℕ → Option ℕ → Option ℕ → ℕ → Option ℕ
unfolding retention_base
retention_ms none kopijos issued rankinis now = none
retention_ms (some h) none issued rankinis now = none
retention_ms (some h) (some k) issued rankinis now =
    retention_base h (with_issued k issued now) rankinis

-- The loop of `purgeExpired`, with the number removed so far; `none` when the fuel runs out.
unfoldable pub purge_loop : ℕ → ℤ → ℕ → ℕ → Marks → Option (Marks × ℕ)
purge_loop zero cutoff batch total zymos = none
purge_loop (suc fuel) cutoff batch total zymos =
    let (after, kiek) = purge_expired cutoff (some batch) zymos in
    let rest = purge_loop fuel cutoff batch (total + kiek) after in
    if ltb kiek batch then some (after, total + kiek) else rest

-- What an action of the operator answers: that there is no mark, that its status forbids the action,
-- or the status after it and whether it changed.
pub data Outcome : Type 0 where
  no_mark : Outcome
  wrong_status : Status → Outcome
  done : Bool → Status → Outcome

abbrev pub outcome_of : Status → Marks × Result (Option Mark) → Marks × Result Outcome
outcome_of s (zymos, err e) = (zymos, err e)
outcome_of s (zymos, ok none) = (zymos, ok (done false s))
outcome_of s (zymos, ok (some z)) = (zymos, ok (done true z.status))

abbrev pub on_mark :
    Option Mark
    → Marks
    → (Mark → Bool)
    → (Mark → Marks × Result (Option Mark))
    → Marks × Result Outcome
on_mark none zymos allowed act = (zymos, ok no_mark)
on_mark (some z) zymos allowed act =
    if allowed z then outcome_of z.status (act z) else (zymos, ok (wrong_status z.status))

-- `retryMark(jobId)`.
unfoldable pub retry_mark : Text → ℕ → Marks → Marks × Result Outcome
unfolding retry
retry_mark k now zymos =
    on_mark (get_mark k zymos) zymos (λ z. status_eq z.status failed)
      (λ z. retry k (known operator) now zymos)

-- `releaseMark(jobId)`.
unfoldable pub release_mark : Text → ℕ → Marks → Marks × Result Outcome
unfolding release
release_mark k now zymos =
    on_mark (get_mark k zymos) zymos (λ z. status_eq z.status pending)
      (λ z. release k (known operator) now zymos)

-- `forceResolveMark(jobId)`.
unfoldable pub force_resolve_mark : Text → ℕ → Marks → Marks × Result Outcome
unfolding force_resolve
force_resolve_mark k now zymos =
    on_mark (get_mark k zymos) zymos (λ z. not (status_eq z.status deleted))
      (λ z. force_resolve k (known operator) none now zymos)
