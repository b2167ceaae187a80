-- ===== src/Backup/Encryption/Authentic.antt =====
-- What the encryption of backups promises (`encrypt` and `decrypt` of backend/utils/backupEncryption.js).
use stenograma.Prelude.{
  ℕ, ◌+◌, ◌*◌, ◌≡◌, refl, sym, ◌∙◌, ap, Bool, false, Option, none, some, List, [], ◌∷◌, Text,
  text_eq, arith, length, inl, inr, ◌⊎◌, ltb,
}
use mathlib.Core.Option.{some-injective}
use stenograma.Result.{Error, ok, err, ok-injective, Result-cases, >>=-eq-ok}
use stenograma.Backup.Manifest.{Manifest}
use stenograma.Backup.Encryption.{
  Cipher, Aad, Env, Envelope, sealed, encrypt, encrypt_with, decrypt, decrypt_with, try_key,
  read_key, manifest_aad, first_opened, assert_envelope_shape, max_ciphertext_bytes, format,
  or_empty,
}

-- What AES-GCM and base64 are used for, as an ideal: what was sealed is opened by the same key under the
-- same authenticated text and, as no tag is ever forged, by nothing else (a real tag of 16 bytes promises
-- that but for a chance too small to meet); the ciphertext has the size of the plaintext, the tag has 16
-- bytes, and base64 is undone and is not empty for bytes that are not.
pub record IsCipher (cipher : Cipher) : Type 0 where
  pub opens :
      (key iv : List ℕ) (aad : Aad) (plaintext : List ℕ)
      → cipher.unseal key iv
          (cipher.seal key iv aad plaintext).1
          aad
          (cipher.seal key iv aad plaintext).0
        ≡ some plaintext
  pub authentic :
      (key key' iv : List ℕ) (aad aad' : Aad) (plaintext other : List ℕ)
      → cipher.unseal key' iv
          (cipher.seal key iv aad plaintext).1
          aad'
          (cipher.seal key iv aad plaintext).0
        ≡ some other
      → (key ≡ key') × (aad ≡ aad')
  pub same_size :
      (key iv : List ℕ) (aad : Aad) (plaintext : List ℕ)
      → length (cipher.seal key iv aad plaintext).0 ≡ length plaintext
  pub tag_size :
      (key iv : List ℕ) (aad : Aad) (plaintext : List ℕ)
      → length (cipher.seal key iv aad plaintext).1 ≡ 16
  pub undone : (bytes : List ℕ) → cipher.from_base64 (cipher.to_base64 bytes) ≡ bytes
  pub filled : (b : ℕ) (bytes : List ℕ) → text_eq (cipher.to_base64 (b ∷ bytes)) [] ≡ false

module _ (locale_le : Text → Text → Bool) (cipher : Cipher) (laws : IsCipher cipher) where
  filled_of_length :
      (bytes : List ℕ) (n : ℕ) → length bytes ≡ n + 1 → text_eq (cipher.to_base64 bytes) [] ≡ false
  filled_of_length [] n h = absurd (omega (arith, h))
  filled_of_length (b ∷ bytes) n h = laws.filled b bytes

  pub sealed_shape :
      (key : List ℕ) (aad : Aad) (iv : List ℕ) (p : ℕ) (plaintext : List ℕ)
      → length iv ≡ 12
      → ltb
          (max_ciphertext_bytes * 4)
          (length (or_empty (sealed locale_le cipher key aad iv (p ∷ plaintext)).ciphertext) * 3)
        ≡ false
      → assert_envelope_shape locale_le cipher (sealed locale_le cipher key aad iv (p ∷ plaintext))
        ≡ ok tt
  unfolding assert_envelope_shape text_eq
  sealed_shape key aad iv p plaintext size small =
      let text = p ∷ plaintext in
      rw (filled_of_length iv 11 size) (
        rw (filled_of_length (cipher.seal key iv aad text).1 15 (laws.tag_size key iv aad text)) (
          rw
            (filled_of_length (cipher.seal key iv aad text).0 (length plaintext)
              (laws.same_size key iv aad text ∙ omega arith))
            (rw small (
              rw (laws.undone iv) (
                rw size (
                  rw (laws.undone (cipher.seal key iv aad text).1)
                    (rw (laws.tag_size key iv aad text) refl)))))))

  -- What `encrypt` has done.
  pub encrypted_as :
      (env : Env) (m : Manifest) (iv plaintext : List ℕ) {e : Envelope}
      → encrypt locale_le cipher env (some m) iv plaintext ≡ ok e
      → (key : List ℕ) × (aad : Aad) × (read_key env.current ≡ ok (some key))
        × (manifest_aad locale_le m format ≡ ok aad)
        × (sealed locale_le cipher key aad iv plaintext ≡ e)
  unfolding encrypt
  encrypted_as env m iv plaintext {e} h =
      let (key, known, with_key) =
        >>=-eq-ok (read_key env.current) (λ key. encrypt_with locale_le cipher key m iv plaintext)
          h in
      some_key key known with_key
    where
      some_key :
          (key : Option (List ℕ))
          → read_key env.current ≡ ok key
          → encrypt_with locale_le cipher key m iv plaintext ≡ ok e
          → (key : List ℕ) × (aad : Aad) × (read_key env.current ≡ ok (some key))
            × (manifest_aad locale_le m format ≡ ok aad)
            × (sealed locale_le cipher key aad iv plaintext ≡ e)
      some_key none known h = cc
      some_key (some key) known h =
          let (aad, selected, made) =
            >>=-eq-ok (manifest_aad locale_le m format)
              (λ aad. ok (sealed locale_le cipher key aad iv plaintext)) h in
          (key, aad, known, selected, ok-injective _ e made)

  -- What the key `k` makes of a sealed envelope.
  pub try_key-sealed :
      (key iv plaintext k : List ℕ) (m : Manifest) (aad aad' : Aad)
      → manifest_aad locale_le m format ≡ ok aad'
      → try_key locale_le cipher (some k) m (sealed locale_le cipher key aad iv plaintext)
        ≡ cipher.unseal k iv
            (cipher.seal key iv aad plaintext).1
            aad'
            (cipher.seal key iv aad plaintext).0
  unfolding try_key
  try_key-sealed key iv plaintext k m aad aad' selected =
      rw (try_key, selected)
        (rw (laws.undone iv) (
          rw (laws.undone (cipher.seal key iv aad plaintext).1)
            (rw (laws.undone (cipher.seal key iv aad plaintext).0) refl)))

  try_key_thrown :
      (k : List ℕ) (m : Manifest) (e : Envelope) (code : Error)
      → manifest_aad locale_le m (or_empty e.format) ≡ err code
      → try_key locale_le cipher (some k) m e ≡ none
  unfolding try_key
  try_key_thrown k m e code thrown = rw (try_key, thrown) refl

  -- What a key opens of a sealed envelope: its plaintext, if the key and the authenticated text are the
  -- ones that it was sealed with.
  pub try_key_opened :
      (key iv plaintext : List ℕ) (m : Manifest) (aad : Aad) (k : Option (List ℕ)) {other : List ℕ}
      → try_key locale_le cipher k m (sealed locale_le cipher key aad iv plaintext) ≡ some other
      → (other ≡ plaintext) × (manifest_aad locale_le m format ≡ ok aad)
  unfolding try_key
  try_key_opened key iv plaintext m aad none {other} h = absurd (nothing other h)
    where
      nothing : (x : List ℕ) → none ≡ some x → ⊥
      nothing x p = cc
  try_key_opened key iv plaintext m aad (some k) {other} h =
      elim (Result-cases (manifest_aad locale_le m format)) [
        | inr (code, thrown) ↦ absurd (
            nothing other (
              sym (try_key_thrown k m (sealed locale_le cipher key aad iv plaintext) code thrown)
              ∙ h))
        | inl (aad', selected) ↦
            let opened = sym (try_key-sealed key iv plaintext k m aad aad' selected) ∙ h in
            let (same_key, same_aad) = laws.authentic key k iv aad aad' plaintext other opened in
            (
              some-injective other plaintext (
                  sym (rw (← same_aad) at (rw (← same_key) at opened))
                  ∙ laws.opens key iv aad plaintext),
              selected ∙ ap ok (sym same_aad),
            )
      ]
    where
      nothing : (x : List ℕ) → none ≡ some x → ⊥
      nothing x p = cc

  -- What was opened, by one key or the other.
  first_opened-eq-ok :
      (c p : Option (List ℕ)) {other : List ℕ} {b : Bool}
      → first_opened locale_le cipher c p ≡ ok (other, b)
      → (c ≡ some other) ⊎ (p ≡ some other)
  first_opened-eq-ok (some x) p h = inl (ap some (ap (λ q. q.0) (ok-injective _ _ h)))
  first_opened-eq-ok none (some x) h = inr (ap some (ap (λ q. q.0) (ok-injective _ _ h)))
  first_opened-eq-ok none none h = cc

  decrypted_by :
      (env : Env) (m : Manifest) (e : Envelope) {other : List ℕ} {b : Bool}
      → decrypt locale_le cipher env (some m) e ≡ ok (other, b)
      → (k : Option (List ℕ)) × (try_key locale_le cipher k m e ≡ some other)
  unfolding decrypt
  decrypted_by env m e {other} {b} h =
      let (shape, fits, h1) = >>=-eq-ok (assert_envelope_shape locale_le cipher e) _ h in
      let (current, known, h2) = >>=-eq-ok (read_key env.current) _ h1 in
      let (previous, known', h3) = >>=-eq-ok (read_key env.previous) _ h2 in
      by_keys current previous h3
    where
      either :
          (c p : Option (List ℕ))
          → first_opened locale_le cipher
              (try_key locale_le cipher c m e)
              (try_key locale_le cipher p m e)
            ≡ ok (other, b)
          → (k : Option (List ℕ)) × (try_key locale_le cipher k m e ≡ some other)
      either c p h = elim (first_opened-eq-ok _ _ h) [ inl x ↦ (c, x) | inr x ↦ (p, x) ]

      by_keys :
          (c p : Option (List ℕ))
          → decrypt_with locale_le cipher c p m e ≡ ok (other, b)
          → (k : Option (List ℕ)) × (try_key locale_le cipher k m e ≡ some other)
      by_keys none none h = cc
      by_keys none (some p) h = either none (some p) h
      by_keys (some c) p h = either (some c) p h

  -- What comes out of an encrypted backup is what went in, under one and the same authenticated text.
  pub decrypted_under :
      (env env' : Env) (m m' : Manifest) (iv plaintext other : List ℕ) (b : Bool) (e : Envelope)
      → encrypt locale_le cipher env (some m) iv plaintext ≡ ok e
      → decrypt locale_le cipher env' (some m') e ≡ ok (other, b)
      → (other ≡ plaintext)
        × (aad : Aad) × (manifest_aad locale_le m format ≡ ok aad)
        × (manifest_aad locale_le m' format ≡ ok aad)
  decrypted_under env env' m m' iv plaintext other b e h g =
      let (key, aad, known, selected, made) = encrypted_as env m iv plaintext h in
      let (k, opened) = decrypted_by env' m' e g in
      let (same, aad_same) = try_key_opened key iv plaintext m' aad k (rw (← made) at opened) in
      (same, aad, selected, aad_same)
