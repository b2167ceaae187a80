-- ===== src/Backup/Encryption/Rotation.antt =====
-- Backups after a change of the key (`decrypt` of backend/utils/backupEncryption.js).
use stenograma.Prelude.{
  Text, ℕ, ◌*◌, ◌≡◌, refl, sym, ◌∙◌, Bool, true, false, Option, none, some, List, ◌∷◌, length,
  Option-cases, inl, inr, ◌⊎◌, ltb,
}
use mathlib.Core.Option.{some-injective}
use stenograma.Result.{ok, ok-injective}
use stenograma.Backup.Manifest.{Manifest}
use stenograma.Backup.Encryption.{
  Cipher, Env, Envelope, encrypt, decrypt, decrypt_with, try_key, read_key, assert_envelope_shape,
  max_ciphertext_bytes, or_empty,
}
use stenograma.Backup.Encryption.Authentic.{
  IsCipher, sealed_shape, encrypted_as, try_key-sealed, try_key_opened,
}

module _ (locale_le : Text → Text → Bool) (cipher : Cipher) where
  decrypt_checked :
      (env : Env) (m : Manifest) (e : Envelope) (current previous : Option (List ℕ))
      → assert_envelope_shape locale_le cipher e ≡ ok tt
      → read_key env.current ≡ ok current
      → read_key env.previous ≡ ok previous
      → decrypt locale_le cipher env (some m) e ≡ decrypt_with locale_le cipher current previous m e
  unfolding decrypt
  decrypt_checked env m e current previous shape reads reads' =
      rw (decrypt, shape, reads, reads') refl

  decrypt_with_opens :
      (key : List ℕ) (m : Manifest) (e : Envelope) (c p : Option (List ℕ)) (plaintext : List ℕ)
      → (c ≡ some key) ⊎ (p ≡ some key)
      → try_key locale_le cipher (some key) m e ≡ some plaintext
      → ((k : Option (List ℕ)) (other : List ℕ)
          → try_key locale_le cipher k m e ≡ some other
          → other ≡ plaintext)
      → (b : Bool) × (decrypt_with locale_le cipher c p m e ≡ ok (plaintext, b))
  unfolding try_key
  decrypt_with_opens key m e none none plaintext (inl is) opens only = cc
  decrypt_with_opens key m e none none plaintext (inr is) opens only = cc
  decrypt_with_opens key m e none (some y) plaintext (inl is) opens only = cc
  decrypt_with_opens key m e none (some y) plaintext (inr is) opens only =
      (true, rw is (rw opens refl))
  decrypt_with_opens key m e (some x) p plaintext either opens only =
      elim (Option-cases (try_key locale_le cipher (some x) m e)) [
        | inr (other, opened) ↦ (false, rw opened (rw (only (some x) other opened) refl))
        | inl shut ↦ elim either [
          | inl is ↦ absurd (clash plaintext (sym (rw is at shut) ∙ opens))
          | inr is ↦ (true, rw shut (rw is (rw opens refl)))
        ]
      ]
    where
      clash : (t : List ℕ) → none ≡ some t → ⊥
      clash t p = cc

module _ (locale_le : Text → Text → Bool) (cipher : Cipher) (laws : IsCipher cipher) where
  -- A backup outlives one change of the key: what was encrypted under a key is opened under the same
  -- manifest while that key is the current or the previous one, if the plaintext is not empty, the
  -- random bytes are twelve and the ciphertext is within its limit.
  pub decrypt-encrypt :
      (env env' : Env) (m : Manifest) (iv plaintext : List ℕ) (p : ℕ) (e : Envelope) (key : List ℕ)
      (current previous : Option (List ℕ))
      → length iv ≡ 12
      → encrypt locale_le cipher env (some m) iv (p ∷ plaintext) ≡ ok e
      → ltb (max_ciphertext_bytes * 4) (length (or_empty e.ciphertext) * 3) ≡ false
      → read_key env.current ≡ ok (some key)
      → read_key env'.current ≡ ok current
      → read_key env'.previous ≡ ok previous
      → (current ≡ some key) ⊎ (previous ≡ some key)
      → (b : Bool) × (decrypt locale_le cipher env' (some m) e ≡ ok (p ∷ plaintext, b))
  decrypt-encrypt env env' m iv plaintext p e key current previous size h small known reads reads'
        either =
      let (k, aad, known', selected, made) =
        encrypted_as locale_le cipher laws env m iv (p ∷ plaintext) h in
      let same = some-injective k key (ok-injective _ _ (sym known' ∙ known)) in
      let shape =
        sealed_shape locale_le cipher laws k aad iv p plaintext size (rw (← made) at small) in
      let opens =
        try_key-sealed locale_le cipher laws k iv (p ∷ plaintext) k m aad aad selected
        ∙ laws.opens k iv aad (p ∷ plaintext) in
      let (b, answered) =
        decrypt_with_opens locale_le cipher key m e current previous (p ∷ plaintext) either
          (rw (← made) (rw (← same) opens))
          (λ c other opened.
            (try_key_opened locale_le cipher laws k iv (p ∷ plaintext) m aad c
              (rw (← made) at opened)).0) in
      (
        b,
        decrypt_checked locale_le cipher env' m e current previous (rw (← made) shape) reads reads'
            ∙ answered,
      )
