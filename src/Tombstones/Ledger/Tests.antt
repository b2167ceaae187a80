-- ===== src/Tombstones/Ledger/Tests.antt =====
-- Concrete merges of a ledger (backend/utils/drCoordinator.js), and an artefact
-- (backend/utils/erasureExport.js).
use stenograma.Prelude.{
  ◌≡◌, refl, true, none, some, [], ◌∷◌, ◌++◌, Text, codes, text_eq, inr, text_lt,
}
use stenograma.Prelude.Map.{get, has}
use stenograma.Result.{ok}
use stenograma.Tombstones.{deleted, failed, user_request, retryable}
use stenograma.Tombstones.Memory.{Mark}
use stenograma.Tombstones.Safety.Invariant.{IsKeyed}
use stenograma.Tombstones.Ledger.{Saugykla, sulieti}
use stenograma.Tombstones.Ledger.Merge.{ledger_mark, last_mark}
use stenograma.Tombstones.Ledger.Recovery.{
  sulieti_keeps_deleted, IsMerged, sulieti-IsMerged, sulieti_deleted,
}
use stenograma.Tombstones.Ledger.Repeat.{sulieti_again}
use stenograma.Backup.{retention_days}
use stenograma.Backup.Manifest.{Manifest, entries, policy_snapshot, create_manifest}
use stenograma.Backup.Encryption.{
  Envelope, Aad, sealed, encrypt, read_key, from_hex, hex_digit, manifest_aad, manifest_aad_v2,
  canonical_contents, canonical_entries, sort_by_type, is_enabled,
}
use stenograma.Backup.Ideal.{
  ideal_cipher, ideal_cipher-IsCipher, old_key, new_key, before_rotation, after_rotation, twelve,
}
use stenograma.Tombstones.Ledger.Artefact.{
  Zurnalas, Platform, publish, sudaryti_artefakta, perskaityti_artefakta, antraste_baitais,
}
use stenograma.Tombstones.Ledger.Artefact.RoundTrip.{
  IsPlatform, perskaityti_artefakta-sudaryti_artefakta,
}

abbrev a : Text
a = codes "a"

abbrev local_mark : Mark
local_mark = record {
  job_id = a;
  status = failed;
  reason = user_request;
  actor_kind = none;
  requested_at = 5;
  updated_at = 9;
  completed_at = none;
  attempts = 2;
  last_failure_kind = some retryable;
  claim_token = none;
}

abbrev ledger_deleted : Mark
ledger_deleted = record {
  job_id = a;
  status = deleted;
  reason = user_request;
  actor_kind = none;
  requested_at = 6;
  updated_at = 8;
  completed_at = some 8;
  attempts = 1;
  last_failure_kind = none;
  claim_token = none;
}

abbrev store : Saugykla
store = record { zymos = (a, local_mark) ∷ []; horizontas = some 40 }

abbrev deleted_store : Saugykla
deleted_store = record { zymos = (a, ledger_deleted) ∷ []; horizontas = none }

store_IsKeyed : IsKeyed store.zymos
unfolding has
store_IsKeyed = (refl, refl, tt)

deleted_store_IsKeyed : IsKeyed deleted_store.zymos
unfolding has
deleted_store_IsKeyed = (refl, refl, tt)

sulieti_keeps_deleted_example :
    get a (sulieti text_lt (local_mark ∷ local_mark ∷ []) none deleted_store).0.zymos
    ≡ some ledger_deleted
unfolding get text_eq
sulieti_keeps_deleted_example =
    sulieti_keeps_deleted text_lt (local_mark ∷ local_mark ∷ []) none deleted_store a
      deleted_store_IsKeyed refl refl

sulieti-IsMerged_example :
    IsMerged ledger_deleted
      (get a store.zymos)
      (get a (sulieti text_lt (ledger_deleted ∷ []) (some 50) store).0.zymos)
unfolding ledger_mark text_eq
sulieti-IsMerged_example =
    sulieti-IsMerged text_lt (ledger_deleted ∷ []) (some 50) store a store_IsKeyed (refl, tt) refl

sulieti_deleted_example :
    (w : Mark) × (get a (sulieti text_lt (local_mark ∷ ledger_deleted ∷ []) (some 50) store).0.zymos
      ≡ some w)
    × (w.status ≡ deleted)
unfolding last_mark text_eq
sulieti_deleted_example =
    sulieti_deleted text_lt (local_mark ∷ ledger_deleted ∷ []) (some 50) store a store_IsKeyed refl
      refl

sulieti_again_example :
    ((sulieti text_lt
        (ledger_deleted ∷ [])
        (some 50)
        (sulieti text_lt (ledger_deleted ∷ []) (some 50) store).0).1.rasyti
      ≡ [])
    × ((sulieti text_lt
          (ledger_deleted ∷ [])
          (some 50)
          (sulieti text_lt (ledger_deleted ∷ []) (some 50) store).0).0
        ≡ (sulieti text_lt (ledger_deleted ∷ []) (some 50) store).0)
unfolding ledger_mark text_eq
sulieti_again_example =
    sulieti_again text_lt (ledger_deleted ∷ []) (some 50) store store_IsKeyed (refl, tt)
      (sulieti text_lt (ledger_deleted ∷ []) (some 50) store).0 refl

abbrev exported : Zurnalas
exported = record {
  deployment_id = some (codes "d");
  saltinis = none;
  eksportuota_ms = 20;
  horizontas = some 40;
  zymos = some (ledger_deleted ∷ []);
}

-- A platform whose JSON knows one ledger.
abbrev platform : Platform
platform = record {
  to_json = λ z. codes "{}";
  of_json = λ t. some exported;
  utf8 = λ t. t;
  of_utf8 = λ bytes. bytes;
  sha256 = λ t. codes "0";
  is_date = λ t. true;
  iso = λ t. codes "0";
}

platform-IsPlatform : IsPlatform platform exported
platform-IsPlatform = record {
  json_read = refl;
  utf8_read = refl;
  utf8_filled = λ c cs. (c, cs, refl);
  dates = λ t. refl;
}

abbrev manifest : Manifest
manifest = record {
  format_version = some 1;
  application_version = some (codes "1");
  created_at = some (codes "0");
  policy = some (policy_snapshot none);
  contents = entries [];
  checksum = some (codes "0");
  encrypted = some true;
  encryption_algorithm = some (codes "aes-256-gcm-v2");
  snapshot_time = some (codes "0");
  excluded_in_flight_jobs = some 0;
  expires_at = some (codes "0");
}

abbrev aad : Aad
aad = record {
  application_version = some (codes "1");
  contents = [];
  encrypted = some true;
  encryption_algorithm = some (codes "aes-256-gcm-v2");
  excluded_in_flight_jobs = some 0;
  format_version = some 1;
  snapshot_time = some (codes "0");
}

abbrev envelope : Envelope
envelope = sealed text_lt ideal_cipher old_key aad twelve (antraste_baitais ++ codes "{}")

perskaityti_artefakta-sudaryti_artefakta_example :
    perskaityti_artefakta text_lt ideal_cipher platform manifest envelope after_rotation
    ≡ ok exported
unfolding sudaryti_artefakta publish create_manifest policy_snapshot retention_days encrypt read_key
    from_hex hex_digit manifest_aad manifest_aad_v2 canonical_contents canonical_entries
    sort_by_type text_eq ideal_cipher is_enabled antraste_baitais
perskaityti_artefakta-sudaryti_artefakta_example =
    perskaityti_artefakta-sudaryti_artefakta text_lt ideal_cipher ideal_cipher-IsCipher platform
      (record exported { eksportuota_ms = 3 }) (ledger_deleted ∷ []) before_rotation after_rotation
      (codes "1") 20 none twelve manifest envelope old_key (some new_key) (some old_key)
      platform-IsPlatform refl refl refl refl refl refl refl (inr refl)
