-- ===== src/Backup/Encryption.antt =====
-- The encryption of backups (backend/utils/backupEncryption.js). AES-256-GCM, base64 and the order of
-- `localeCompare` are parameters; bytes are numbers, and the environment's two keys are arguments.
pub mod Authentic
pub mod Fields
pub mod Rotation
use stenograma.Prelude.{
  ℕ, zero, suc, ◌+◌, ◌-◌, ◌*◌, ◌≡◌, refl, Bool, true, false, ◌&&◌, ◌||◌, not, Option, none, some,
  List, [], ◌∷◌, ◌++◌, map, Text, text_eq, codes, filter_by, leb, ltb, length, ℤ, pos, ◌==◌,
  if◌then◌else◌,
}
use stenograma.Value.{Number, finite}
use stenograma.Result.{
  Result, ok, err, ◌>>=◌, backup_manifest_invalid, backup_key_invalid, backup_manifest_required,
  backup_encryption_disabled, backup_encryption_format, backup_format_unsupported,
  backup_encryption_too_large, backup_decryption_failed,
}
use stenograma.Backup.Manifest.{Entry, Contents, missing, not_array, entries, Manifest}

-- `/[0-9a-fA-F]/` and what the digit stands for.
unfoldable pub hex_digit : ℕ → Option ℕ
hex_digit c =
    if leb 48 c && leb c 57
    then some (c - 48)
    else (if leb 97 c && leb c 102
        then some (c - 87)
        else (if leb 65 c && leb c 70 then some (c - 55) else none))

-- `Buffer.from(value, "hex")`, `none` unless the text consists of pairs of digits.
unfoldable pub from_hex : Text → Option (List ℕ)
unfolding hex_digit
from_hex [] = some []
from_hex (c ∷ []) = none
from_hex (c ∷ d ∷ cs) = pair (hex_digit c) (hex_digit d) (from_hex cs)
  where
    pair : Option ℕ → Option ℕ → Option (List ℕ) → Option (List ℕ)
    pair (some a) (some b) (some bytes) = some ((a * 16 + b) ∷ bytes)
    pair _ _ _ = none

-- `_readKey(value)`: an empty value is no key, and a key has 64 digits.
unfoldable pub read_key : Option Text → Result (Option (List ℕ))
unfolding from_hex
read_key none = ok none
read_key (some []) = ok none
read_key (some (c ∷ cs)) =
    if length (c ∷ cs) == 64
    then elim (from_hex (c ∷ cs)) [ none ↦ err backup_key_invalid | some key ↦ ok (some key) ]
    else err backup_key_invalid

-- `BACKUP_ENCRYPTION_KEY` and `BACKUP_ENCRYPTION_KEY_PREVIOUS`.
pub record Env : Type 0 where
  pub current : Option Text
  pub previous : Option Text

-- `isEnabled(env)`.
unfoldable pub is_enabled : Env → Bool
is_enabled env = elim env.current [ none ↦ false | some v ↦ not (text_eq v []) ]

-- The text that is authenticated writes the selected fields of the manifest as JSON in the order of
-- their names; it is represented by what it writes.
pub record Aad : Type 0 where
  pub application_version : Option Text
  pub contents : List (Text × ℕ × ℕ)
  pub encrypted : Option Bool
  pub encryption_algorithm : Option Text
  pub excluded_in_flight_jobs : Option ℕ
  pub format_version : Option ℕ
  pub snapshot_time : Option Text

-- `Number.isInteger(n) && n >= 0`.
abbrev pub natural : Number → Option ℕ
natural (finite (pos n) zero) = some n
natural _ = none

abbrev pub canonical_sizes : Text → Option ℕ → Option ℕ → Result (Text × ℕ × ℕ)
canonical_sizes t (some count) (some bytes) = ok (t, count, bytes)
canonical_sizes t _ _ = err backup_manifest_invalid

unfoldable pub canonical_entry : Entry → Result (Text × ℕ × ℕ)
canonical_entry e = elim e.type [
  | none ↦ err backup_manifest_invalid
  | some t ↦
      if text_eq t []
      then err backup_manifest_invalid
      else canonical_sizes t (natural e.count) (natural e.bytes)
]

unfoldable pub canonical_entries : List Entry → Result (List (Text × ℕ × ℕ))
unfolding canonical_entry
canonical_entries [] = ok []
canonical_entries (e ∷ es) = do
  first ← canonical_entry e
  rest ← canonical_entries es
  ok (first ∷ rest)

-- `FORMAT`, and the names whose entry of `UNSUPPORTED_FORMATS` is not `undefined`: the one that it has
-- and those that every object inherits.
abbrev pub format : Text
format = codes "v2"

abbrev pub unsupported_formats : List Text
unsupported_formats =
    codes "v1"
    ∷ codes "constructor"
    ∷ codes "hasOwnProperty"
    ∷ codes "isPrototypeOf"
    ∷ codes "propertyIsEnumerable"
    ∷ codes "toLocaleString"
    ∷ codes "toString"
    ∷ codes "valueOf"
    ∷ codes "__proto__"
    ∷ codes "__defineGetter__"
    ∷ codes "__defineSetter__"
    ∷ codes "__lookupGetter__"
    ∷ codes "__lookupSetter__"
    ∷ []

abbrev pub includes_text : List Text → Text → Bool
includes_text [] t = false
includes_text (u ∷ us) t = text_eq u t || includes_text us t

-- An envelope; a field that is no text is `none`.
pub record Envelope : Type 0 where
  pub format : Option Text
  pub iv : Option Text
  pub auth_tag : Option Text
  pub ciphertext : Option Text

abbrev pub is_filled : Option Text → Bool
is_filled none = false
is_filled (some t) = not (text_eq t [])

abbrev pub or_empty : Option Text → Text
or_empty none = []
or_empty (some t) = t

-- `IV_BYTES`, the size of the tag and `MAX_CIPHERTEXT_BYTES`.
abbrev pub iv_bytes : ℕ
iv_bytes = 12

abbrev pub tag_bytes : ℕ
tag_bytes = 16

abbrev pub max_ciphertext_bytes : ℕ
max_ciphertext_bytes = 2147483648

module _ (locale_le : Text → Text → Bool) where
  -- One step of the stable `sort((a, b) => a.type.localeCompare(b.type))`.
  unfoldable pub insert_by_type : Text × ℕ × ℕ → List (Text × ℕ × ℕ) → List (Text × ℕ × ℕ)
  insert_by_type e [] = e ∷ []
  insert_by_type e (f ∷ fs) =
      let rest = insert_by_type e fs in if locale_le e.0 f.0 then e ∷ f ∷ fs else f ∷ rest

  unfoldable pub sort_by_type : List (Text × ℕ × ℕ) → List (Text × ℕ × ℕ)
  unfolding insert_by_type
  sort_by_type [] = []
  sort_by_type (e ∷ es) = insert_by_type e (sort_by_type es)

  -- `_canonicalContents(value)`.
  unfoldable pub canonical_contents : Contents → Result (List (Text × ℕ × ℕ))
  unfolding canonical_entries sort_by_type
  canonical_contents missing = err backup_manifest_invalid
  canonical_contents not_array = err backup_manifest_invalid
  canonical_contents (entries es) = do
    kanoniniai ← canonical_entries es
    ok (sort_by_type kanoniniai)

  -- `manifestAadV2(manifest)`.
  unfoldable pub manifest_aad_v2 : Manifest → Result Aad
  unfolding canonical_contents
  manifest_aad_v2 m = do
    contents ← canonical_contents m.contents
    ok (record {
      application_version = m.application_version;
      contents = contents;
      encrypted = m.encrypted;
      encryption_algorithm = m.encryption_algorithm;
      excluded_in_flight_jobs = m.excluded_in_flight_jobs;
      format_version = m.format_version;
      snapshot_time = m.snapshot_time;
    })

  -- `manifestAad(manifest, format)`.
  unfoldable pub manifest_aad : Manifest → Text → Result Aad
  unfolding manifest_aad_v2
  manifest_aad m f = if text_eq f format then manifest_aad_v2 m else err backup_encryption_format

-- `aes-256-gcm` with its tag, and base64.
pub record Cipher : Type 0 where
  pub seal : List ℕ → List ℕ → Aad → List ℕ → List ℕ × List ℕ
  pub unseal : List ℕ → List ℕ → List ℕ → Aad → List ℕ → Option (List ℕ)
  pub to_base64 : List ℕ → Text
  pub from_base64 : Text → List ℕ

module _ (locale_le : Text → Text → Bool) (cipher : Cipher) where
  abbrev pub sealed : List ℕ → Aad → List ℕ → List ℕ → Envelope
  sealed key aad iv plaintext =
      let (ciphertext, tag) = cipher.seal key iv aad plaintext in
      record {
        format = some format;
        iv = some (cipher.to_base64 iv);
        auth_tag = some (cipher.to_base64 tag);
        ciphertext = some (cipher.to_base64 ciphertext);
      }

  abbrev pub encrypt_with : Option (List ℕ) → Manifest → List ℕ → List ℕ → Result Envelope
  encrypt_with none m iv plaintext = err backup_encryption_disabled
  encrypt_with (some key) m iv plaintext = do
    aad ← manifest_aad locale_le m format
    ok (sealed key aad iv plaintext)

  -- `encrypt(plaintext, { env, manifest })`, with the random bytes `iv`.
  unfoldable pub encrypt : Env → Option Manifest → List ℕ → List ℕ → Result Envelope
  unfolding read_key manifest_aad
  encrypt env none iv plaintext = err backup_manifest_required
  encrypt env (some m) iv plaintext = do key ← read_key env.current; encrypt_with key m iv plaintext

  -- `_assertEnvelopeShape(envelope)`, for an object.
  unfoldable pub assert_envelope_shape : Envelope → Result (Unit {0})
  assert_envelope_shape e =
      if not (elim e.format [ none ↦ false | some f ↦ text_eq f format ])
      then (if elim e.format [ none ↦ false | some f ↦ includes_text unsupported_formats f ]
          then err backup_format_unsupported
          else err backup_encryption_format)
      else (if not (is_filled e.iv && is_filled e.auth_tag && is_filled e.ciphertext)
          then err backup_encryption_format
          else (if ltb (max_ciphertext_bytes * 4) (length (or_empty e.ciphertext) * 3)
              then err backup_encryption_too_large
              else (if not (length (cipher.from_base64 (or_empty e.iv)) == iv_bytes)
                  then err backup_encryption_format
                  else (if not (length (cipher.from_base64 (or_empty e.auth_tag)) == tag_bytes)
                      then err backup_encryption_format
                      else ok tt))))

  -- One candidate of the loop of `decrypt`; what its body throws is caught.
  unfoldable pub try_key : Option (List ℕ) → Manifest → Envelope → Option (List ℕ)
  unfolding manifest_aad
  try_key none m e = none
  try_key (some key) m e = elim (manifest_aad locale_le m (or_empty e.format)) [
    | err code ↦ none
    | ok aad ↦
        cipher.unseal key (cipher.from_base64 (or_empty e.iv))
          (cipher.from_base64 (or_empty e.auth_tag)) aad
          (cipher.from_base64 (or_empty e.ciphertext))
  ]

  abbrev pub first_opened : Option (List ℕ) → Option (List ℕ) → Result (List ℕ × Bool)
  first_opened (some plaintext) _ = ok (plaintext, false)
  first_opened none (some plaintext) = ok (plaintext, true)
  first_opened none none = err backup_decryption_failed

  abbrev pub decrypt_with :
      Option (List ℕ) → Option (List ℕ) → Manifest → Envelope → Result (List ℕ × Bool)
  decrypt_with none none m e = err backup_encryption_disabled
  decrypt_with current previous m e = first_opened (try_key current m e) (try_key previous m e)

  -- `decrypt(envelope, { env, manifest })`: the plaintext, and whether the previous key opened it.
  unfoldable pub decrypt : Env → Option Manifest → Envelope → Result (List ℕ × Bool)
  unfolding assert_envelope_shape read_key try_key
  decrypt env manifest e = do
    shape ← assert_envelope_shape e
    m ← elim manifest [ none ↦ err backup_manifest_required | some m ↦ ok m ]
    current ← read_key env.current
    previous ← read_key env.previous
    decrypt_with current previous m e
