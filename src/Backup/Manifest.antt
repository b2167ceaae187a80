-- ===== src/Backup/Manifest.antt =====
-- The manifest of a backup (backend/utils/backupManifest.js). A field that is missing or `null` is
-- `none`; the sizes of an entry are what `Number` makes of them.
use stenograma.Prelude.{
  ℕ, ◌≡◌, refl, Bool, true, false, ◌&&◌, ◌||◌, not, Option, none, some, List, [], ◌∷◌, Text,
  text_eq, ◌*◌, ◌+◌, if◌then◌else◌, Bool-cases, inl, inr,
}
use stenograma.Value.{Number}
use stenograma.Result.{Result, ok, err, ok-injective, backup_manifest_invalid}
use stenograma.Backup.{is_included, included_types, retention_days, backup_format_version}

-- One entry of `contents`; a type that is no text is `none`.
pub record Entry : Type 0 where
  pub type : Option Text
  pub count : Number
  pub bytes : Number

-- `contents`: missing, something else than an array, or an array, whose entries are objects.
pub data Contents : Type 0 where
  missing not_array : Contents
  entries : List Entry → Contents

pub record Policy : Type 0 where
  pub format_version : ℕ
  pub included_types : List Text
  pub retention_days : ℕ

pub record Manifest : Type 0 where
  pub format_version : Option ℕ
  pub application_version : Option Text
  pub created_at : Option Text
  pub policy : Option Policy
  pub contents : Contents
  pub checksum : Option Text
  pub encrypted : Option Bool
  pub encryption_algorithm : Option Text
  pub snapshot_time : Option Text
  pub excluded_in_flight_jobs : Option ℕ
  pub expires_at : Option Text

-- `policySnapshot(env)`, without the reasons of what is left out.
unfoldable pub policy_snapshot : Option ℕ → Policy
unfolding retention_days included_types
policy_snapshot retention = record {
  format_version = backup_format_version;
  included_types = included_types;
  retention_days = retention_days retention;
}

-- `!isIncluded(entry.type)`.
abbrev pub is_forbidden : Entry → Bool
is_forbidden e = elim e.type [ none ↦ true | some t ↦ not (is_included t) ]

abbrev pub any_forbidden : List Entry → Bool
any_forbidden [] = false
any_forbidden (e ∷ es) = is_forbidden e || any_forbidden es

abbrev pub is_absent {ℓ} : {A : Type ℓ} → Option A → Bool
is_absent none = true
is_absent (some a) = false

-- The language's dates: the texts that `Date.parse` reads, and `toISOString` of an instant.
module _ (is_date : Text → Bool) (iso : ℕ → Text) where
  -- `createManifest({ contents, checksum, env })`, for an array of entries.
  unfoldable pub create_manifest : Text → ℕ → Option ℕ → List Entry → Text → Result Manifest
  unfolding policy_snapshot
  create_manifest application_version now retention contents checksum =
      if text_eq checksum []
      then err backup_manifest_invalid
      else (if any_forbidden contents
          then err backup_manifest_invalid
          else (let policy = policy_snapshot retention in
              ok (record {
                format_version = some policy.format_version;
                application_version = some application_version;
                created_at = some (iso now);
                policy = some policy;
                contents = entries contents;
                checksum = some checksum;
                encrypted = none;
                encryption_algorithm = none;
                snapshot_time = none;
                excluded_in_flight_jobs = none;
                expires_at = some (iso (now + policy.retention_days * 86400000));
              })))

  -- `trūksta privalomo lauko`: the test of `REQUIRED_FIELDS`.
  unfoldable pub lacks_required : Manifest → Bool
  lacks_required m =
      is_absent m.format_version
      || is_absent m.application_version
      || is_absent m.created_at
      || is_absent m.policy
      || elim m.contents [ missing ↦ true | not_array ↦ false | entries es ↦ false ]
      || is_absent m.checksum

  abbrev pub bad_contents : Contents → Bool
  bad_contents missing = true
  bad_contents not_array = true
  bad_contents (entries es) = any_forbidden es

  -- A date that is given and not empty, and is none.
  abbrev pub bad_expiry : Option Text → Bool
  bad_expiry none = false
  bad_expiry (some t) = not (text_eq t []) && not (is_date t)

  -- `validateManifest(manifest).valid`; `none` is a manifest that is no object.
  unfoldable pub validate_manifest : Option Manifest → Bool
  unfolding lacks_required
  validate_manifest none = false
  validate_manifest (some m) =
      if lacks_required m
      then false
      else (not (bad_contents m.contents)
          && elim m.created_at [ none ↦ false | some t ↦ is_date t ]
          && not (bad_expiry m.expires_at))

  -- A manifest that `createManifest` has made is valid, whatever its contents, its checksum and its term
  -- are, if the language reads the dates that it writes.
  pub validate_manifest-create_manifest :
      ((t : ℕ) → is_date (iso t) ≡ true)
      → (application_version : Text) (now : ℕ) (retention : Option ℕ) (contents : List Entry)
        (checksum : Text) {m : Manifest}
      → create_manifest application_version now retention contents checksum ≡ ok m
      → validate_manifest (some m) ≡ true
  unfolding create_manifest validate_manifest lacks_required policy_snapshot
  validate_manifest-create_manifest dates version now retention contents checksum {m} h =
      elim (Bool-cases (text_eq checksum [])) [
        | inl blank ↦ absurd (thrown m (rw blank at h))
        | inr summed ↦ elim (Bool-cases (any_forbidden contents)) [
          | inl refused ↦ absurd (thrown m (rw refused at (rw summed at h)))
          | inr allowed ↦
              let is_m = ok-injective _ m (rw allowed at (rw summed at h)) in
              rw (← is_m) (
                rw allowed (
                  rw (dates now) (rw (dates (now + retention_days retention * 86400000)) (late _))))
        ]
      ]
    where
      thrown : (m : Manifest) → err backup_manifest_invalid ≡ ok m → ⊥
      thrown m p = cc

      late : (t : Bool) → (true && not (not t && false)) ≡ true
      late true = refl
      late false = refl

  -- The checksum that the manifest carries is the one that it was made with.
  pub checksum-create_manifest :
      (application_version : Text) (now : ℕ) (retention : Option ℕ) (contents : List Entry)
      (checksum : Text) {m : Manifest}
      → create_manifest application_version now retention contents checksum ≡ ok m
      → m.checksum ≡ some checksum
  unfolding create_manifest
  checksum-create_manifest version now retention contents checksum {m} h =
      elim (Bool-cases (text_eq checksum [])) [
        | inl blank ↦ absurd (thrown m (rw blank at h))
        | inr summed ↦ elim (Bool-cases (any_forbidden contents)) [
          | inl refused ↦ absurd (thrown m (rw refused at (rw summed at h)))
          | inr allowed ↦ rw (← ok-injective _ m (rw allowed at (rw summed at h))) refl
        ]
      ]
    where
      thrown : (m : Manifest) → err backup_manifest_invalid ≡ ok m → ⊥
      thrown m p = cc
