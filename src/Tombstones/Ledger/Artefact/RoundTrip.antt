-- ===== src/Tombstones/Ledger/Artefact/RoundTrip.antt =====
-- An exported ledger is read back as what it was (`sudarytiArtefakta` and `perskaitytiArtefakta` of
-- backend/utils/erasureExport.js).
use stenograma.Prelude.{
  ℕ, ◌*◌, ◌≡◌, refl, ◌∙◌, ap, Bool, true, false, Option, some, List, [], ◌∷◌, ◌++◌, Text, text_eq,
  text_eq_refl, codes, length, Bool-cases, inl, inr, ◌⊎◌, ltb,
}
use stenograma.Result.{Result, Error, ok, err, ok-injective, >>=-eq-ok}
use stenograma.Backup.Manifest.{
  Manifest, create_manifest, validate_manifest, lacks_required, validate_manifest-create_manifest,
  checksum-create_manifest,
}
use stenograma.Backup.Encryption.{
  Cipher, Env, Envelope, is_filled, is_enabled, encrypt, read_key, max_ciphertext_bytes, or_empty,
}
use stenograma.Backup.Encryption.Authentic.{IsCipher}
use stenograma.Backup.Encryption.Rotation.{decrypt-encrypt}
use stenograma.Tombstones.Memory.{Mark}
use stenograma.Tombstones.Ledger.Artefact.{
  Zurnalas, Platform, publish, sudaryti_artefakta, perskaityti_artefakta, antraste_baitais,
  antraste, read_content, blank_line, header_lines, split_lines, max_zurnalo_bytes, is_text,
}

-- What the platform is documented to do with a ledger: its JSON is read back, and behind the header it is
-- text that UTF-8 carries; a text that is not empty has bytes, and dates that are written can be read.
pub record IsPlatform (platform : Platform) (z : Zurnalas) : Type 0 where
  pub json_read : platform.of_json (platform.to_json z) ≡ some z
  pub utf8_read :
      platform.of_utf8 (platform.utf8 (antraste_baitais ++ platform.to_json z))
      ≡ antraste_baitais ++ platform.to_json z
  pub utf8_filled :
      (c : ℕ) (cs : Text) → (b : ℕ) × (bytes : List ℕ) × (platform.utf8 (c ∷ cs) ≡ b ∷ bytes)
  pub dates : (t : ℕ) → platform.is_date (platform.iso t) ≡ true

header_read :
    (json : Text)
    → blank_line (antraste_baitais ++ json) ≡ some (antraste ++ (10 ∷ codes "v1"), json)
unfolding antraste_baitais blank_line
header_read json = refl

module _ (platform : Platform) (z : Zurnalas) (laws : IsPlatform platform z) where
  read_content_lem :
      (locale_le : Text → Text → Bool) (cipher : Cipher) {zs : List Mark}
      → z.zymos ≡ some zs
      → read_content locale_le cipher platform (antraste_baitais ++ platform.to_json z) ≡ ok z
  unfolding header_lines split_lines text_eq
  read_content_lem locale_le cipher marks =
      rw (header_read (platform.to_json z)) (rw (laws.json_read) (simp marks refl))

-- The manifest that the export publishes.
abbrev published : Platform → ℕ → Manifest → Manifest
published platform now made = record made {
  encrypted = some true;
  encryption_algorithm = some (codes "aes-256-gcm-v2");
  snapshot_time = some (platform.iso now);
  excluded_in_flight_jobs = some 0;
}

module _ (locale_le : Text → Text → Bool) (cipher : Cipher) (platform : Platform) where
  -- What the export has done.
  publish-eq-ok :
      (env : Env) (version : Text) (now : ℕ) (retention : Option ℕ) (iv : List ℕ) (plaintext : Text)
      {manifest : Manifest} {e : Envelope}
      → publish locale_le cipher platform env version now retention iv plaintext ≡ ok (manifest, e)
      → (made : Manifest) × (create_manifest platform.is_date platform.iso version now retention []
            (platform.sha256 plaintext)
          ≡ ok made)
        × (published platform now made ≡ manifest)
        × (encrypt locale_le cipher env
              (some (published platform now made))
              iv
              (platform.utf8 plaintext)
            ≡ ok e)
  unfolding publish
  publish-eq-ok env version now retention iv plaintext h =
      let (made, made_by, h1) =
        >>=-eq-ok
          (create_manifest platform.is_date platform.iso version now retention []
            (platform.sha256 plaintext))
          _ h in
      let (envelope, sealed_by, h2) =
        >>=-eq-ok
          (encrypt locale_le cipher env (some (published platform now made)) iv
            (platform.utf8 plaintext))
          _ h1 in
      let same = ok-injective _ _ h2 in
      (made, made_by, ap (λ p. p.0) same, sealed_by ∙ ap (λ p. ok p.1) same)

  published_of :
      (z : Zurnalas) (env : Env) (version : Text) (now : ℕ) (retention : Option ℕ) (iv : List ℕ)
      {manifest : Manifest} {e : Envelope}
      → sudaryti_artefakta locale_le cipher platform z env version now retention iv
        ≡ ok (manifest, e)
      → publish locale_le cipher platform env version now retention iv
          (antraste_baitais ++ platform.to_json (record z { eksportuota_ms = now }))
        ≡ ok (manifest, e)
  unfolding sudaryti_artefakta
  published_of z env version now retention iv {manifest} {e} h =
      let plaintext = antraste_baitais ++ platform.to_json (record z { eksportuota_ms = now }) in
      elim (Bool-cases (is_filled z.deployment_id)) [
        | inr unknown ↦ absurd (thrown _ (manifest, e) (rw unknown at h))
        | inl deployed ↦ elim (Bool-cases (is_enabled env)) [
          | inr disabled ↦ absurd (thrown _ (manifest, e) (rw disabled at (rw deployed at h)))
          | inl enabled ↦
              elim (Bool-cases (ltb max_zurnalo_bytes (length (platform.utf8 plaintext)))) [
                | inl large ↦
                    absurd (thrown _ (manifest, e) (rw large at (rw enabled at (rw deployed at h))))
                | inr fits ↦ rw fits at (rw enabled at (rw deployed at h))
              ]
        ]
      ]
    where
      thrown :
          (code : Error) (p : Manifest × Envelope)
          → ◌≡◌ {A = Result (Manifest × Envelope)} (err code) (ok p)
          → ⊥
      thrown code p h = cc

has_bytes :
    (platform : Platform) (z : Zurnalas) (laws : IsPlatform platform z) (json : Text)
    → (b : ℕ) × (bytes : List ℕ) × (platform.utf8 (antraste_baitais ++ json) ≡ b ∷ bytes)
unfolding antraste_baitais
has_bytes platform z laws json = laws.utf8_filled _ _

module _ (locale_le : Text → Text → Bool) (cipher : Cipher) (sealing : IsCipher cipher)
    (platform : Platform) where
  -- An exported ledger is read back: the artefact that the export published, under a key that is still
  -- the current or the previous one, is read as the ledger that was exported, with the time of the
  -- export, if the random bytes are twelve and the ciphertext is within its limit.
  pub perskaityti_artefakta-sudaryti_artefakta :
      (z : Zurnalas) (zs : List Mark) (env env' : Env) (version : Text) (now : ℕ)
      (retention : Option ℕ) (iv : List ℕ) (manifest : Manifest) (e : Envelope) (key : List ℕ)
      (current previous : Option (List ℕ))
      → IsPlatform platform (record z { eksportuota_ms = now })
      → z.zymos ≡ some zs
      → length iv ≡ 12
      → sudaryti_artefakta locale_le cipher platform z env version now retention iv
        ≡ ok (manifest, e)
      → ltb (max_ciphertext_bytes * 4) (length (or_empty e.ciphertext) * 3) ≡ false
      → read_key env.current ≡ ok (some key)
      → read_key env'.current ≡ ok current
      → read_key env'.previous ≡ ok previous
      → (current ≡ some key) ⊎ (previous ≡ some key)
      → perskaityti_artefakta locale_le cipher platform manifest e env'
        ≡ ok (record z { eksportuota_ms = now })
  unfolding perskaityti_artefakta
  perskaityti_artefakta-sudaryti_artefakta z zs env env' version now retention iv manifest e key
        current previous laws marks size h small known reads reads' either =
      let exported = record z { eksportuota_ms = now } in
      let plaintext = antraste_baitais ++ platform.to_json exported in
      let (made, made_by, is_manifest, sealed_by) =
        publish-eq-ok locale_le cipher platform env version now retention iv plaintext
          (published_of locale_le cipher platform z env version now retention iv h) in
      let (b, bytes, are) = has_bytes platform exported laws (platform.to_json exported) in
      let (by_previous, opened) =
        decrypt-encrypt locale_le cipher sealing env env' (published platform now made) iv bytes b e
          key current previous size (rw are at sealed_by) small known reads reads' either in
      let back : platform.of_utf8 (b ∷ bytes) ≡ plaintext = rw (← are) (laws.utf8_read) in
      let valid : validate_manifest platform.is_date platform.iso
            (some (published platform now made))
          ≡ true =
        published_valid made (
          validate_manifest-create_manifest platform.is_date platform.iso laws.dates version now
            retention [] (platform.sha256 plaintext) made_by) in
      let summed : is_text (platform.sha256 plaintext) made.checksum ≡ true =
        rw
          (checksum-create_manifest platform.is_date platform.iso version now retention []
            (platform.sha256 plaintext) made_by)
          (text_eq_refl (platform.sha256 plaintext)) in
      rw (← is_manifest) (
        rw valid (
          rw opened
            (rw back (rw summed (read_content_lem platform exported laws locale_le cipher marks)))))
    where
      published_valid :
          (made : Manifest)
          → validate_manifest platform.is_date platform.iso (some made) ≡ true
          → validate_manifest platform.is_date platform.iso (some (published platform now made))
            ≡ true
      published_valid made valid = unfold validate_manifest lacks_required in valid
