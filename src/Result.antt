-- ===== src/Result.antt =====
-- Exceptions as values: the codes of `JobPhaseError` (backend/utils/jobPhase.js), and the errors that
-- backend/utils/jobStore/common.js, backend/utils/deletionTombstones/states.js, the backup's modules and
-- backend/utils/erasureExport.js throw.
use stenograma.Prelude.{◌≡◌, refl, ◌⊎◌, inl, inr, Bool, true, false}

pub data Error : Type 0 where
  job_already_terminal unknown_source_status unknown_job_type invalid_status_phase : Error
  phase_not_allowed_for_type invalid_progress progress_invariant illegal_transition : Error
  not_terminal illegal_terminal_transition completed_requires_result : Error
  invalid_version type_error range_error erasure_barrier syntax_error : Error
  invalid_lifecycle_transition unknown_artefact_type artefact_without_owner : Error
  backup_manifest_invalid backup_key_invalid backup_manifest_required : Error
  backup_encryption_disabled backup_encryption_format backup_format_unsupported : Error
  backup_encryption_too_large backup_decryption_failed : Error
  erasure_deployment_unknown erasure_encryption_disabled erasure_ledger_too_large : Error
  erasure_manifest_invalid erasure_decryption_failed erasure_checksum_mismatch : Error
  erasure_ledger_kind_mismatch erasure_ledger_version erasure_ledger_malformed : Error
  erasure_foreign_ledger : Error

-- What a call throws, or what it returns.
pub data Result {ℓ} (R : Type ℓ) : Type ℓ where
  err : Error → Result R
  ok : R → Result R

-- `if (!test) throw code`.
abbrev pub guard : Bool → Error → Result (Unit {0})
guard false code = err code
guard true code = ok tt

pub guard-eq-ok : (t : Bool) (code : Error) → guard t code ≡ ok tt → t ≡ true
guard-eq-ok true code h = refl
guard-eq-ok false code h = cc

-- A statement and what follows it; a throw leaves the rest out.
infixl 5 ◌>>=◌ ◌>>◌
abbrev pub ◌>>=◌ {κ ℓ} : {S : Type κ} {R : Type ℓ} → Result S → (S → Result R) → Result R
err code >>= rest = err code
ok s >>= rest = rest s

abbrev pub ◌>>◌ {ℓ} : {R : Type ℓ} → Result (Unit {0}) → Result R → Result R
err code >> rest = err code
ok u >> rest = rest

-- Inversion of what has returned.
pub >>-eq-ok {ℓ} :
    {B : Type ℓ} (m : Result (Unit {0})) (k : Result B) {b : B}
    → (m >> k) ≡ ok b
    → (m ≡ ok tt) × (k ≡ ok b)
>>-eq-ok (ok tt) k h = (refl, h)
>>-eq-ok (err e) k h = cc

pub guard->>-eq-ok {ℓ} :
    {B : Type ℓ} (t : Bool) (e : Error) (k : Result B) {b : B}
    → (guard t e >> k) ≡ ok b
    → (t ≡ true) × (k ≡ ok b)
guard->>-eq-ok true e k h = (refl, h)
guard->>-eq-ok false e k h = cc

pub >>=-eq-ok {κ ℓ} :
    {S : Type κ} {R : Type ℓ} {r : R} (m : Result S) (rest : S → Result R)
    → (m >>= rest) ≡ ok r
    → (s : S) × (m ≡ ok s) × (rest s ≡ ok r)
>>=-eq-ok (err code) rest e = cc
>>=-eq-ok (ok s) rest e = (s, refl, e)

pub ok-injective {ℓ} : {A : Type ℓ} (a b : A) → ok a ≡ ok b → a ≡ b
ok-injective a b h = cc

pub Result-cases {ℓ} :
    {A : Type ℓ} (m : Result A) → ((a : A) × (m ≡ ok a)) ⊎ ((e : Error) × (m ≡ err e))
Result-cases (ok a) = inl (a, refl)
Result-cases (err e) = inr (e, refl)
