-- ===== src/Job/Patch/Protected.antt =====
-- What no patch can change, and the version that every patch moves on by one
-- (`applyPatch` of backend/utils/jobStore/common.js).
use stenograma.Prelude.{ℕ, ◌+◌, ◌≤◌, ◌<◌, ◌≡◌, refl, ◌∙◌, false, Option, none, some, arith}
use stenograma.Result.{ok, err, invalid_version}
use stenograma.Value.{Value, num, int, add_one}
use stenograma.Job.{
  Key, Obj, field, map_option, or_else, id, schema_version, owner_id, owner_kind, tenant_id,
  idempotency_key, created_at, created_at_old, status, version, result,
}
use stenograma.Job.Normalize.{normalize_field_value, kanoniniai_laukai, has_key, versijos_lubos}
use stenograma.Job.Normalize.Facts.{
  normalize_job-eq-ok, normalized_other, normalized_at, IsCanonical, normalize_job-IsCanonical,
  normalize_job-int, normalize_job_refused,
}
use stenograma.Job.Patch.{patch_fields, stamp_times, sync_errors, apply_patch, version_plus_one}

-- The object that `applyPatch` hands to `normalizeJob`.
abbrev patched : Obj → Obj → ℕ → Obj
patched job patch now = sync_errors patch (stamp_times job patch now (patch_fields job patch now))

-- The value that a kept field has in the result: the record's, and the patch's only where the record
-- has no such field.
abbrev pub KeptField : Key → Obj → Obj → Obj → Type 0
KeptField k job patch r = r k ≡ or_else (job k) (patch k)

-- The fields that no patch changes.
pub record Protected (job patch r : Obj) : Type 0 where
  pub same_id : r id ≡ some (field id job)
  pub same_owner_id : KeptField owner_id job patch r
  pub same_owner_kind : KeptField owner_kind job patch r
  pub same_tenant : KeptField tenant_id job patch r
  pub same_intent : KeptField idempotency_key job patch r
  pub same_created_at : KeptField created_at job patch r
  pub same_created_at_old : KeptField created_at_old job patch r
  pub same_era :
      r schema_version ≡ map_option (normalize_field_value schema_version) (job schema_version)

or_else_twice : (a b : Option Value) → or_else a (or_else b a) ≡ or_else a b
or_else_twice none none = refl
or_else_twice none (some v) = refl
or_else_twice (some v) b = refl

patched_kept :
    (k : Key) (job patch : Obj) (now : ℕ) {r : Obj}
    → has_key kanoniniai_laukai k ≡ false
    → patched job patch now k ≡ or_else (job k) (or_else (patch k) (job k))
    → apply_patch job patch now ≡ ok r
    → KeptField k job patch r
unfolding apply_patch
patched_kept k job patch now h kept e =
    let (accepted, same) = normalize_job-eq-ok _ e in
    rw (← same) (normalized_other _ k h ∙ kept ∙ or_else_twice (job k) (patch k))

patched_id : (job patch : Obj) (now : ℕ) → patched job patch now id ≡ some (field id job)
unfolding patch_fields stamp_times sync_errors
patched_id job patch now = refl

patched_era :
    (job patch : Obj) (now : ℕ) → patched job patch now schema_version ≡ job schema_version
unfolding patch_fields stamp_times sync_errors
patched_era job patch now = refl

patched_version :
    (job patch : Obj) (now : ℕ)
    → patched job patch now version ≡ some (version_plus_one (field version job))
unfolding patch_fields stamp_times sync_errors
patched_version job patch now = refl

module _ (job patch : Obj) (now : ℕ) {r : Obj} (done : apply_patch job patch now ≡ ok r) where
  kept_id : r id ≡ some (field id job)
  unfolding apply_patch
  kept_id =
      let (accepted, same) = normalize_job-eq-ok _ done in
      rw (← same) (normalized_other _ id refl ∙ patched_id job patch now)

  kept_era :
      r schema_version ≡ map_option (normalize_field_value schema_version) (job schema_version)
  unfolding apply_patch
  kept_era =
      let (accepted, same) = normalize_job-eq-ok _ done in
      rw (← same) (normalized_at _ schema_version refl ∙ rw (patched_era job patch now))

  -- Whatever a patch holds, its result has the record's identifier, and of the owner, the owner's
  -- kind, the tenant, the idempotency key and the two creation times the value that the record has;
  -- only where the record lacks such a field does the patch's value stand. The era is the record's,
  -- read as a number, and is absent where the record has none.
  pub apply_patch-Protected : Protected job patch r
  unfolding patch_fields stamp_times sync_errors
  apply_patch-Protected = record {
    same_id = kept_id;
    same_owner_id = patched_kept owner_id job patch now refl refl done;
    same_owner_kind = patched_kept owner_kind job patch now refl refl done;
    same_tenant = patched_kept tenant_id job patch now refl refl done;
    same_intent = patched_kept idempotency_key job patch now refl refl done;
    same_created_at = patched_kept created_at job patch now refl refl done;
    same_created_at_old = patched_kept created_at_old job patch now refl refl done;
    same_era = kept_era;
  }

  pub apply_patch-IsCanonical : IsCanonical r
  unfolding apply_patch
  apply_patch-IsCanonical = normalize_job-IsCanonical _ done

version_plus_one-int : (n : ℕ) → version_plus_one (num (int n)) ≡ num (int (n + 1))
unfolding version_plus_one add_one
version_plus_one-int n = refl

next_version :
    (job patch : Obj) (now n : ℕ)
    → job version ≡ some (num (int n))
    → patched job patch now version ≡ some (num (int (n + 1)))
next_version job patch now n e = patched_version job patch now ∙ rw e (rw (version_plus_one-int n))

-- A record whose version is below the ceiling accepts every patch, and its version grows by exactly
-- one, whatever version the patch itself carries.
pub apply_patch_next :
    (job patch : Obj) (now n : ℕ)
    → job version ≡ some (num (int n))
    → n < versijos_lubos
    → (r : Obj) × (apply_patch job patch now ≡ ok r) × (r version ≡ some (num (int (n + 1))))
unfolding apply_patch
apply_patch_next job patch now n e h =
    normalize_job-int _ (n + 1) (next_version job patch now n e) (omega arith) (omega arith)

-- A record at the ceiling refuses every patch.
pub apply_patch_full :
    (job patch : Obj) (now n : ℕ)
    → job version ≡ some (num (int n))
    → versijos_lubos ≤ n
    → apply_patch job patch now ≡ err invalid_version
unfolding apply_patch
apply_patch_full job patch now n e h =
    normalize_job_refused _ (n + 1) (next_version job patch now n e) (omega arith)

-- A status or result that the patch carries is the patched record's.
pub apply_patch-outcome :
    (job patch : Obj) (now : ℕ) {r : Obj}
    → apply_patch job patch now ≡ ok r
    → (r status ≡ or_else (patch status) (job status))
      × (r result ≡ or_else (patch result) (job result))
unfolding apply_patch patch_fields stamp_times sync_errors
apply_patch-outcome job patch now done =
    let (accepted, same) = normalize_job-eq-ok _ done in
    (rw (← same) (normalized_other _ status refl), rw (← same) (normalized_other _ result refl))
