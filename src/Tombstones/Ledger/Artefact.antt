-- ===== src/Tombstones/Ledger/Artefact.antt =====
-- The ledger of erasure marks as an encrypted artefact (`sudarytiArtefakta`, `perskaitytiArtefakta` and
-- `patikrintiKilme` of backend/utils/erasureExport.js). JSON, UTF-8, SHA-256 and the dates of the platform
-- are parameters.
pub mod RoundTrip
use stenograma.Prelude.{
  ℕ, zero, suc, Bool, true, false, ◌&&◌, ◌||◌, not, Option, none, some, List, [], ◌∷◌, ◌++◌, Text,
  text_eq, codes, length, ltb, ◌==◌, if◌then◌else◌,
}
use stenograma.Result.{
  Result, ok, err, ◌>>=◌, erasure_deployment_unknown, erasure_encryption_disabled,
  erasure_ledger_too_large, erasure_manifest_invalid, erasure_decryption_failed,
  erasure_checksum_mismatch, erasure_ledger_kind_mismatch, erasure_ledger_version,
  erasure_ledger_malformed, erasure_foreign_ledger,
}
use stenograma.Backup.Manifest.{Manifest, create_manifest, validate_manifest}
use stenograma.Backup.Encryption.{Cipher, Env, Envelope, is_filled, is_enabled, encrypt, decrypt}
use stenograma.Tombstones.Memory.{Mark}

-- `ANTRASTE`, `ANTRASTES_VERSIJA` and `MAX_ZURNALO_BYTES`; a line ends with the code unit 10.
abbrev pub antraste : Text
antraste = codes "STENOGRAMA-ERASURE-LEDGER"

abbrev pub antrastes_versija : Text
antrastes_versija = codes "v1"

abbrev pub max_zurnalo_bytes : ℕ
max_zurnalo_bytes = 33554432

-- `_antrasteBaitais()`.
unfoldable pub antraste_baitais : Text
antraste_baitais = antraste ++ (10 ∷ antrastes_versija) ++ (10 ∷ 10 ∷ [])

-- What the artefact says; a list of marks that is no array is `none`.
pub record Zurnalas : Type 0 where
  pub deployment_id : Option Text
  pub saltinis : Option Text
  pub eksportuota_ms : ℕ
  pub horizontas : Option ℕ
  pub zymos : Option (List Mark)

pub record Platform : Type 0 where
  pub to_json : Zurnalas → Text
  pub of_json : Text → Option Zurnalas
  pub utf8 : Text → List ℕ
  pub of_utf8 : List ℕ → Text
  pub sha256 : Text → Text
  pub is_date : Text → Bool
  pub iso : ℕ → Text

-- `text.indexOf("\n\n")`, as the text in front of it and the text behind it.
unfoldable pub blank_line : Text → Option (Text × Text)
blank_line [] = none
blank_line (c ∷ []) = none
blank_line (c ∷ d ∷ cs) =
    let rest = blank_line (d ∷ cs) in
    if c == 10 && d == 10
    then some ([], cs)
    else elim rest [ none ↦ none | some (before, after) ↦ some (c ∷ before, after) ]

-- `text.split("\n")`: the first line and the others.
unfoldable pub split_lines : Text → Text × List Text
split_lines [] = ([], [])
split_lines (c ∷ cs) =
    let (line, lines) = split_lines cs in if c == 10 then ([], line ∷ lines) else (c ∷ line, lines)

-- `antraste[0]` and `antraste[1]` of the lines in front of the blank one.
unfoldable pub header_lines : Option (Text × Text) → Option Text × Option Text
unfolding split_lines
header_lines none = (none, none)
header_lines (some (before, after)) =
    let (line, lines) = split_lines before in
    (some line, elim lines [ [] ↦ none | l ∷ ls ↦ some l ])

abbrev pub is_text : Text → Option Text → Bool
is_text t none = false
is_text t (some u) = text_eq u t

abbrev pub parsed : Option Zurnalas → Result Zurnalas
parsed none = err erasure_ledger_malformed
parsed (some z) = elim z.zymos [ none ↦ err erasure_ledger_malformed | some zs ↦ ok z ]

module _ (locale_le : Text → Text → Bool) (cipher : Cipher) (platform : Platform) where
  -- The part of `sudarytiArtefakta` behind its checks: the manifest and the envelope of the text.
  unfoldable pub publish : Env → Text → ℕ → Option ℕ → List ℕ → Text → Result (Manifest × Envelope)
  unfolding create_manifest encrypt
  publish env version now retention iv plaintext = do
    made ←
        create_manifest platform.is_date platform.iso version now retention []
          (platform.sha256 plaintext)
    let manifest = record made {
      encrypted = some true;
      encryption_algorithm = some (codes "aes-256-gcm-v2");
      snapshot_time = some (platform.iso now);
      excluded_in_flight_jobs = some 0;
    }
    envelope ← encrypt locale_le cipher env (some manifest) iv (platform.utf8 plaintext)
    ok (manifest, envelope)

  -- `sudarytiArtefakta(...)`, with the version of the application, the instant and the random bytes.
  unfoldable pub sudaryti_artefakta :
      Zurnalas → Env → Text → ℕ → Option ℕ → List ℕ → Result (Manifest × Envelope)
  unfolding antraste_baitais is_enabled publish
  sudaryti_artefakta z env version now retention iv =
      let plaintext = antraste_baitais ++ platform.to_json (record z { eksportuota_ms = now }) in
      if not (is_filled z.deployment_id)
      then err erasure_deployment_unknown
      else (if not (is_enabled env)
          then err erasure_encryption_disabled
          else (if ltb max_zurnalo_bytes (length (platform.utf8 plaintext))
              then err erasure_ledger_too_large
              else publish env version now retention iv plaintext))

  abbrev pub read_content : Text → Result Zurnalas
  read_content plaintext =
      let riba = blank_line plaintext in
      let (pirma, antra) = header_lines riba in
      if not (is_text antraste pirma)
      then err erasure_ledger_kind_mismatch
      else (if not (is_text antrastes_versija antra)
          then err erasure_ledger_version
          else parsed (elim riba [ none ↦ none | some (before, after) ↦ platform.of_json after ]))

  abbrev pub decrypted : Result (List ℕ × Bool) → Result Text
  decrypted (err code) = err erasure_decryption_failed
  decrypted (ok (bytes, by_previous)) = ok (platform.of_utf8 bytes)

  -- `perskaitytiArtefakta({ envelope, manifest, env })`.
  unfoldable pub perskaityti_artefakta : Manifest → Envelope → Env → Result Zurnalas
  unfolding validate_manifest decrypt blank_line header_lines
  perskaityti_artefakta manifest envelope env =
      if not (validate_manifest platform.is_date platform.iso (some manifest))
      then err erasure_manifest_invalid
      else (do
        plaintext ← decrypted (decrypt locale_le cipher env (some manifest) envelope)
        (if not (is_text (platform.sha256 plaintext) manifest.checksum)
            then err erasure_checksum_mismatch
            else read_content plaintext))

-- `patikrintiKilme(zurnalas, bazesDeploymentId)`.
unfoldable pub patikrinti_kilme : Zurnalas → Option Text → Result Text
patikrinti_kilme z bazes = known (given z.deployment_id) (given bazes)
  where
    given : Option Text → Option Text
    given none = none
    given (some t) = if text_eq t [] then none else some t

    known : Option Text → Option Text → Result Text
    known (some a) (some b) = if text_eq a b then ok b else err erasure_foreign_ledger
    known _ _ = err erasure_deployment_unknown
