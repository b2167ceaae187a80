-- ===== src/Backup/Encryption/Fields.antt =====
-- The fields of the manifest that an encrypted backup binds (`AUTHENTICATED_MANIFEST_FIELDS`, `manifestAadV2`
-- and `decrypt` of backend/utils/backupEncryption.js).
use mathlib.Core.List.Perm
use mathlib.Core.List.{Perm}
use stenograma.Prelude.{
  ℕ, zero, suc, ◌≡◌, refl, sym, ◌∙◌, ap, Bool, Option, none, some, List, [], ◌∷◌, Text, text_eq,
  pos, negsuc, Bool-cases, Option-cases, inl, inr,
}
use mathlib.Core.Option.{some-injective}
use stenograma.Value.{Number, nan, infinite, finite}
use stenograma.Result.{ok, err, ok-injective, >>=-eq-ok, ◌>>=◌, backup_manifest_invalid}
use stenograma.Backup.Manifest.{Entry, Contents, missing, not_array, entries, Manifest}
use stenograma.Backup.Encryption.{
  Cipher, Aad, Env, Envelope, encrypt, decrypt, manifest_aad, manifest_aad_v2, canonical_entry,
  canonical_entries, canonical_contents, canonical_sizes, natural, insert_by_type, sort_by_type,
  format,
}
use stenograma.Backup.Encryption.Authentic.{IsCipher, decrypted_under}

-- One line of the authenticated contents: a type with its two sizes.
abbrev pub Line : Type 0
Line = Text × ℕ × ℕ

-- The entries have these types and these whole sizes.
abbrev pub IsListed : List Entry → List Line → Type 0
IsListed [] [] = Unit
IsListed [] (x ∷ xs) = ⊥
IsListed (e ∷ es) [] = ⊥
IsListed (e ∷ es) ((t, count, bytes) ∷ xs) =
    (e.type ≡ some t)
    × (e.count ≡ finite (pos count) zero)
    × (e.bytes ≡ finite (pos bytes) zero)
    × IsListed es xs

-- Two manifests agree in every authenticated field; in `contents` up to the order of the entries.
pub record IsBoundTo (m m' : Manifest) : Type 0 where
  pub same_format : m'.format_version ≡ m.format_version
  pub same_version : m'.application_version ≡ m.application_version
  pub same_encrypted : m'.encrypted ≡ m.encrypted
  pub same_algorithm : m'.encryption_algorithm ≡ m.encryption_algorithm
  pub same_snapshot : m'.snapshot_time ≡ m.snapshot_time
  pub same_jobs : m'.excluded_in_flight_jobs ≡ m.excluded_in_flight_jobs
  pub same_contents :
      (es es' : List Entry) × (xs ys : List Line) × (m.contents ≡ entries es)
      × (m'.contents ≡ entries es')
      × IsListed es xs
      × IsListed es' ys
      × Perm ys xs

natural_of : (n : Number) (k : ℕ) → natural n ≡ some k → n ≡ finite (pos k) zero
natural_of nan k h = cc
natural_of (infinite b) k h = cc
natural_of (finite (negsuc a) zero) k h = cc
natural_of (finite (negsuc a) (suc d)) k h = cc
natural_of (finite (pos a) (suc d)) k h = cc
natural_of (finite (pos a) zero) k h = ap (λ (n : ℕ). finite (pos n) zero) (some-injective a k h)

canonical_sizes-eq-ok :
    (t : Text) (count bytes : Option ℕ) (x : Line)
    → canonical_sizes t count bytes ≡ ok x
    → (t ≡ x.0) × (count ≡ some (x.1)) × (bytes ≡ some (x.2))
canonical_sizes-eq-ok t none none x h = cc
canonical_sizes-eq-ok t none (some b) x h = cc
canonical_sizes-eq-ok t (some a) none x h = cc
canonical_sizes-eq-ok t (some a) (some b) x h =
    let is = ok-injective _ x h in
    (ap (λ y. y.0) is, ap (λ y. some (y.1)) is, ap (λ y. some (y.2)) is)

canonical_entry-eq-ok :
    (e : Entry) (x : Line)
    → canonical_entry e ≡ ok x
    → (e.type ≡ some (x.0))
      × (e.count ≡ finite (pos (x.1)) zero)
      × (e.bytes ≡ finite (pos (x.2)) zero)
unfolding canonical_entry
canonical_entry-eq-ok e x h = elim (Option-cases e.type) [
  | inl no_type ↦ absurd (thrown x (rw no_type at h))
  | inr (t, is_t) ↦
      let with_type = rw is_t at h in
      elim (Bool-cases (text_eq t [])) [
        | inl blank ↦ absurd (thrown x (rw blank at with_type))
        | inr filled ↦
            let (same, count, bytes) =
              canonical_sizes-eq-ok t (natural e.count) (natural e.bytes) x
                (rw filled at with_type) in
            (is_t ∙ ap some same, natural_of e.count _ count, natural_of e.bytes _ bytes)
      ]
]
  where
    thrown : (x : Line) → err backup_manifest_invalid ≡ ok x → ⊥
    thrown x p = cc

canonical_entries-IsListed :
    (es : List Entry) (xs : List Line) → canonical_entries es ≡ ok xs → IsListed es xs
unfolding canonical_entries
canonical_entries-IsListed [] [] h = tt
canonical_entries-IsListed [] (x ∷ xs) h = absurd (clash (ok-injective _ _ h))
  where
    clash : [] ≡ x ∷ xs → ⊥
    clash p = cc
canonical_entries-IsListed (e ∷ es) xs h =
    let (y, is_y, more) =
      >>=-eq-ok (canonical_entry e) (λ first. canonical_entries es >>= (λ rest. ok (first ∷ rest)))
        h in
    let (ys, is_ys, all) = >>=-eq-ok (canonical_entries es) (λ rest. ok (y ∷ rest)) more in
    let (type, count, bytes) = canonical_entry-eq-ok e y is_y in
    rw (← ok-injective _ _ all) (type, count, bytes, canonical_entries-IsListed es ys is_ys)

module _ (locale_le : Text → Text → Bool) where
  insert_by_type-perm : (x : Line) (xs : List Line) → Perm (insert_by_type locale_le x xs) (x ∷ xs)
  unfolding insert_by_type
  insert_by_type-perm x [] = Perm.refl (x ∷ [])
  insert_by_type-perm x (y ∷ ys) = elim (Bool-cases (locale_le x.0 y.0)) [
    | inl before ↦ rw before (Perm.refl (x ∷ y ∷ ys))
    | inr after ↦ rw after (Perm.trans (Perm.cons y (insert_by_type-perm x ys)) (Perm.swap x y ys))
  ]

  sort_by_type-perm : (xs : List Line) → Perm (sort_by_type locale_le xs) xs
  unfolding sort_by_type
  sort_by_type-perm [] = Perm.refl []
  sort_by_type-perm (x ∷ xs) =
      Perm.trans (insert_by_type-perm x (sort_by_type locale_le xs))
        (Perm.cons x (sort_by_type-perm xs))

  -- What the authenticated text tells of a manifest.
  pub manifest_aad-eq-ok :
      (m : Manifest) (aad : Aad)
      → manifest_aad locale_le m format ≡ ok aad
      → (es : List Entry) × (xs : List Line) × (m.contents ≡ entries es)
        × IsListed es xs
        × (aad ≡ record {
          application_version = m.application_version;
          contents = sort_by_type locale_le xs;
          encrypted = m.encrypted;
          encryption_algorithm = m.encryption_algorithm;
          excluded_in_flight_jobs = m.excluded_in_flight_jobs;
          format_version = m.format_version;
          snapshot_time = m.snapshot_time;
        })
  unfolding manifest_aad manifest_aad_v2 canonical_contents text_eq
  manifest_aad-eq-ok m aad h =
      let (lines, is_lines, made) = >>=-eq-ok (canonical_contents locale_le m.contents) _ h in
      let (es, xs, is_es, listed, sorted) = of_contents m.contents lines is_lines in
      (es, xs, is_es, listed, sym (ok-injective _ aad made) ∙ rw sorted refl)
    where
      of_contents :
          (c : Contents) (lines : List Line)
          → canonical_contents locale_le c ≡ ok lines
          → (es : List Entry) × (xs : List Line) × (c ≡ entries es)
            × IsListed es xs
            × (lines ≡ sort_by_type locale_le xs)
      of_contents missing lines h = cc
      of_contents not_array lines h = cc
      of_contents (entries es) lines h =
          let (xs, is_xs, sorted) = >>=-eq-ok (canonical_entries es) _ h in
          (es, xs, refl, canonical_entries-IsListed es xs is_xs, sym (ok-injective _ lines sorted))

  manifest_aad-IsBoundTo :
      (m m' : Manifest) (aad : Aad)
      → manifest_aad locale_le m format ≡ ok aad
      → manifest_aad locale_le m' format ≡ ok aad
      → IsBoundTo m m'
  manifest_aad-IsBoundTo m m' aad h h' =
      let (es, xs, is_es, listed, is) = manifest_aad-eq-ok m aad h in
      let (es', ys, is_es', listed', is') = manifest_aad-eq-ok m' aad h' in
      let same = sym is' ∙ is in
      let sorted : sort_by_type locale_le ys ≡ sort_by_type locale_le xs =
        ap (λ (a : Aad). a.contents) same in
      let from_ys : Perm (sort_by_type locale_le xs) ys = rw (← sorted) (sort_by_type-perm ys) in
      record {
        same_format = ap (λ (a : Aad). a.format_version) same;
        same_version = ap (λ (a : Aad). a.application_version) same;
        same_encrypted = ap (λ (a : Aad). a.encrypted) same;
        same_algorithm = ap (λ (a : Aad). a.encryption_algorithm) same;
        same_snapshot = ap (λ (a : Aad). a.snapshot_time) same;
        same_jobs = ap (λ (a : Aad). a.excluded_in_flight_jobs) same;
        same_contents = (
          es,
          es',
          xs,
          ys,
          is_es,
          is_es',
          listed,
          listed',
          Perm.trans (Perm.symm from_ys) (sort_by_type-perm xs),
        );
      }

  -- A backup is opened as what it was: with whatever keys and whatever manifest an encrypted backup is
  -- opened, what comes out is the plaintext that went in, and the manifest agrees with the one that it
  -- was encrypted under in the version of the format and of the application, in what is told of the
  -- encryption, the time of the snapshot and the jobs left out, and in its contents up to their order.
  -- The cipher is an ideal one, of which no tag is forged.
  pub decrypt_authentic :
      (cipher : Cipher)
      → IsCipher cipher
      → (env env' : Env) (m m' : Manifest) (iv plaintext other : List ℕ) (b : Bool) (e : Envelope)
      → encrypt locale_le cipher env (some m) iv plaintext ≡ ok e
      → decrypt locale_le cipher env' (some m') e ≡ ok (other, b)
      → (other ≡ plaintext) × IsBoundTo m m'
  decrypt_authentic cipher laws env env' m m' iv plaintext other b e h g =
      let (same, aad, bound, bound') =
        decrypted_under locale_le cipher laws env env' m m' iv plaintext other b e h g in
      (same, manifest_aad-IsBoundTo m m' aad bound bound')
