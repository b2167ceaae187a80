-- ===== src/Backup/Tests.antt =====
-- Concrete backups under the ideal cipher (backend/utils/backupEncryption.js and
-- backend/utils/artefactInventory.js).
use stenograma.Prelude.{
  ℕ, ◌≡◌, refl, Bool, true, none, some, List, [], ◌∷◌, codes, text_eq, text_lt, inr,
}
use stenograma.Result.{ok}
use stenograma.Backup.Manifest.{Manifest, entries}
use stenograma.Backup.Encryption.{
  Envelope, Aad, sealed, encrypt, decrypt, read_key, from_hex, hex_digit, manifest_aad,
  manifest_aad_v2, canonical_contents, canonical_entries, sort_by_type,
}
use stenograma.Backup.Encryption.Fields.{IsBoundTo, decrypt_authentic}
use stenograma.Backup.Encryption.Rotation.{decrypt-encrypt}
use stenograma.Backup.Ideal.{
  ideal_cipher, ideal_cipher-IsCipher, old_key, new_key, before_rotation, after_rotation, twelve,
}

abbrev manifest : Manifest
manifest = record {
  format_version = some 1;
  application_version = none;
  created_at = none;
  policy = none;
  contents = entries [];
  checksum = some (codes "0");
  encrypted = some true;
  encryption_algorithm = none;
  snapshot_time = none;
  excluded_in_flight_jobs = some 0;
  expires_at = none;
}

abbrev aad : Aad
aad = record {
  application_version = none;
  contents = [];
  encrypted = some true;
  encryption_algorithm = none;
  excluded_in_flight_jobs = some 0;
  format_version = some 1;
  snapshot_time = none;
}

abbrev plaintext : List ℕ
plaintext = 7 ∷ []

abbrev envelope : Envelope
envelope = sealed text_lt ideal_cipher old_key aad twelve plaintext

opened :
    (b : Bool) × (decrypt text_lt ideal_cipher after_rotation (some manifest) envelope
      ≡ ok (plaintext, b))
unfolding encrypt read_key from_hex hex_digit manifest_aad manifest_aad_v2 canonical_contents
    canonical_entries sort_by_type text_eq ideal_cipher
opened =
    decrypt-encrypt text_lt ideal_cipher ideal_cipher-IsCipher before_rotation after_rotation
      manifest twelve [] 7 envelope old_key (some new_key) (some old_key) refl refl refl refl refl
      refl (inr refl)

decrypt-encrypt_example :
    (b : Bool) × (decrypt text_lt ideal_cipher after_rotation (some manifest) envelope
      ≡ ok (7 ∷ [], b))
unfolding encrypt read_key from_hex hex_digit manifest_aad manifest_aad_v2 canonical_contents
    canonical_entries sort_by_type text_eq ideal_cipher
decrypt-encrypt_example =
    decrypt-encrypt text_lt ideal_cipher ideal_cipher-IsCipher before_rotation after_rotation
      manifest twelve [] 7 envelope old_key (some new_key) (some old_key) refl refl refl refl refl
      refl (inr refl)

decrypt_authentic_example : (plaintext ≡ plaintext) × IsBoundTo manifest manifest
unfolding encrypt read_key from_hex hex_digit manifest_aad manifest_aad_v2 canonical_contents
    canonical_entries sort_by_type text_eq
decrypt_authentic_example =
    decrypt_authentic text_lt ideal_cipher ideal_cipher-IsCipher before_rotation after_rotation
      manifest manifest twelve plaintext plaintext opened.0 envelope refl opened.1
