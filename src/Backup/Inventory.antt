-- ===== src/Backup/Inventory.antt =====
-- The life of an artefact and what is derived from what (backend/utils/artefactInventory.js).
use stenograma.Prelude.{
  ℕ, zero, suc, ◌≡◌, refl, Bool, false, ◌||◌, Option, none, some, List, [], ◌∷◌, Text, text_eq,
  if◌then◌else◌, ◌==◌,
}
use stenograma.Result.{
  Result, ok, err, guard, invalid_lifecycle_transition, unknown_artefact_type,
  artefact_without_owner,
}
use stenograma.Backup.{
  ArtefactType, Persistence, type_id, type_persistence, derived_from, types_by_id, source_audio,
  transcript, protocol, upload_temp, conversion_temp, transcript_redacted, export_redacted,
  export_original, queue_record, job_record, audit_entry,
}

-- `LIFECYCLE_STATES`.
pub data LifecycleState : Type 0 where
  active pending_deletion deleted : LifecycleState
  deletion_failed_retryable deletion_failed_permanent : LifecycleState

abbrev pub state_code : LifecycleState → ℕ
state_code active = 0
state_code pending_deletion = 1
state_code deleted = 2
state_code deletion_failed_retryable = 3
state_code deletion_failed_permanent = 4

abbrev pub includes_state : List LifecycleState → LifecycleState → Bool
includes_state [] s = false
includes_state (t ∷ ts) s = state_code t == state_code s || includes_state ts s

-- `ALLOWED_TRANSITIONS`.
unfoldable pub allowed_transitions : LifecycleState → List LifecycleState
allowed_transitions active = pending_deletion ∷ []
allowed_transitions pending_deletion =
    deleted ∷ deletion_failed_retryable ∷ deletion_failed_permanent ∷ []
allowed_transitions deletion_failed_retryable =
    pending_deletion ∷ deleted ∷ deletion_failed_permanent ∷ []
allowed_transitions deleted = []
allowed_transitions deletion_failed_permanent = []

-- `canTransition(from, to)`; `none` is a state that is missing or unknown.
unfoldable pub can_transition : Option LifecycleState → Option LifecycleState → Bool
unfolding allowed_transitions
can_transition none to = false
can_transition (some from) none = false
can_transition (some from) (some to) = includes_state (allowed_transitions from) to

-- `assertTransition(from, to)`.
unfoldable pub assert_transition : Option LifecycleState → Option LifecycleState → Result (Unit {0})
unfolding can_transition
assert_transition from to = guard (can_transition from to) invalid_lifecycle_transition

pub record ArtefactRecord : Type 0 where
  pub type : Text
  pub owner_id : Text
  pub persistence : Persistence
  pub source_artefact_id : Option Text
  pub state : LifecycleState
  pub retention_deadline : Option ℕ
  pub deleted_at : Option ℕ
  pub failure_reason : Option Text

-- `createRecord({ type, ownerId, sourceArtefactId, retentionDeadline })`; the kind of owner is the
-- same for every type.
unfoldable pub create_record : Text → Text → Option Text → Option ℕ → Result ArtefactRecord
unfolding types_by_id type_id type_persistence
create_record type owner_id source deadline = elim (types_by_id type) [
  | none ↦ err unknown_artefact_type
  | some definition ↦
      if text_eq owner_id []
      then err artefact_without_owner
      else ok (record {
        type = type_id definition;
        owner_id = owner_id;
        persistence = type_persistence definition;
        source_artefact_id = source;
        state = active;
        retention_deadline = deadline;
        deleted_at = none;
        failure_reason = none;
      })
]

-- The loop of `derivationChain`, with the chain built so far; `none` when the fuel runs out.
unfoldable pub chain_loop : ℕ → Option ArtefactType → List Text → Option (List Text)
unfolding type_id derived_from
chain_loop zero current chain = none
chain_loop (suc fuel) none chain = some chain
chain_loop (suc fuel) (some t) chain = chain_loop fuel (derived_from t) (type_id t ∷ chain)

-- `derivationChain(typeId)`.
unfoldable pub derivation_chain : ℕ → Text → Option (List Text)
unfolding chain_loop types_by_id
derivation_chain fuel id = chain_loop fuel (types_by_id id) []

-- A chain of texts from a type without an origin to the type, each derived from the one before it;
-- the list is the chain read from its end.
pub data Derivation : ArtefactType → List Text → Type 0 where
  root : {t : ArtefactType} → derived_from t ≡ none → Derivation t (type_id t ∷ [])
  derived :
      {t s : ArtefactType} {chain : List Text}
      → derived_from t ≡ some s
      → Derivation s chain
      → Derivation t (type_id t ∷ chain)

abbrev pub reversed : List Text → List Text → List Text
reversed [] acc = acc
reversed (x ∷ xs) acc = reversed xs (x ∷ acc)

-- The chain of a type ends: five turns of the loop are enough for every type of the inventory, and what
-- it answers is the chain from the type's first origin to the type.
pub derivation_chain_lem :
    (id : Text) (fuel : ℕ) (t : ArtefactType)
    → types_by_id id ≡ some t
    → (chain : List Text) × Derivation t chain
      × (derivation_chain (suc (suc (suc (suc (suc fuel))))) id ≡ some (reversed chain []))
unfolding derivation_chain chain_loop derived_from
derivation_chain_lem id fuel source_audio h = (_, root refl, rw h refl)
derivation_chain_lem id fuel upload_temp h = (_, root refl, rw h refl)
derivation_chain_lem id fuel conversion_temp h =
    (_, derived refl (root {t = source_audio} refl), rw h refl)
derivation_chain_lem id fuel transcript h =
    (_, derived refl (root {t = source_audio} refl), rw h refl)
derivation_chain_lem id fuel transcript_redacted h =
    (_, derived refl (derived {t = transcript} refl (root {t = source_audio} refl)), rw h refl)
derivation_chain_lem id fuel protocol h =
    (_, derived refl (derived {t = transcript} refl (root {t = source_audio} refl)), rw h refl)
derivation_chain_lem id fuel export_redacted h = (
  _,
  derived refl
      (derived {t = protocol} refl (derived {t = transcript} refl (root {t = source_audio} refl))),
  rw h refl,
)
derivation_chain_lem id fuel export_original h = (
  _,
  derived refl
      (derived {t = protocol} refl (derived {t = transcript} refl (root {t = source_audio} refl))),
  rw h refl,
)
derivation_chain_lem id fuel queue_record h = (_, root refl, rw h refl)
derivation_chain_lem id fuel job_record h = (_, root refl, rw h refl)
derivation_chain_lem id fuel audit_entry h = (_, root refl, rw h refl)
