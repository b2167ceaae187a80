-- ===== src/Job/Normalize/Facts.antt =====
-- What `normalizeJob` (backend/utils/jobStore/common.js) leaves alone, and the canonical types of
-- what it returns.
use stenograma.Prelude.{
  ℕ, ◌≤◌, ◌<◌, ◌≡◌, refl, Bool, true, false, ◌&&◌, ◌||◌, ◌==◌, Option, none, some, List, [], ◌∷◌,
  arith, inl, inr, Bool-cases, leb, length, pos, negsuc,
}
use stenograma.Result.{ok, err, invalid_version}
use stenograma.Value.{
  Value, Number, nan, infinite, finite, int, bool, num, text, is_nullish, is_integer, le_number,
}
use stenograma.Value.Coerce.{
  parse_int_or_zero, all_digits, decimal_from, parse_int_or_zero_digits, parse_int_or_zero_int,
}
use stenograma.Job.{
  Key, Obj, key_eq, map_option, schema_version, progress_known, audio_cleanup_pending,
  audio_cleanup_attempts, attempt_count, deletion_pending, deletion_attempts, version,
}
use stenograma.Job.Normalize.{
  normalize_field_value, kanoniniai_laukai, has_key, boolean_fields, number_fields, versijos_lubos,
  version_number, version_galioja, normalize_fields, materialize_version, version_accepted,
  normalize_job,
}

-- A valid version is a whole number in its range.
version_galioja-int :
    (n : Number) → version_galioja n ≡ true → (m : ℕ) × (n ≡ int m) × (1 ≤ m) × (m ≤ versijos_lubos)
unfolding version_galioja is_integer le_number
version_galioja-int nan h = cc
version_galioja-int (infinite b) h = cc
version_galioja-int (finite (pos m) f) h = (m, ground arith, ground arith, ground arith)
version_galioja-int (finite (negsuc m) f) h = ground arith

not_galioja_nan : ¬ (version_galioja nan ≡ true)
unfolding version_galioja is_integer
not_galioja_nan h = cc

pub int_galioja : (m : ℕ) → 1 ≤ m → m ≤ versijos_lubos → version_galioja (int m) ≡ true
unfolding version_galioja is_integer le_number
int_galioja m h k = ground arith

-- The version field of a canonical record.
abbrev pub IsVersion : Obj → ℕ → Type 0
IsVersion o n = (o version ≡ some (num (int n))) × (1 ≤ n) × (n ≤ versijos_lubos)

-- A field that is absent, nullish or of the type that a test recognizes.
abbrev pub Typed : (Value → Bool) → Option Value → Type 0
Typed p none = Unit
Typed p (some v) = (is_nullish v || p v) ≡ true

abbrev pub is_bool : Value → Bool
is_bool (bool b) = true
is_bool _ = false

abbrev pub is_whole : Value → Bool
is_whole (num (finite z f)) = f == 0
is_whole _ = false

-- The canonical types of the fields: what every stored record satisfies.
pub record IsCanonical (o : Obj) : Type 0 where
  pub version_valid : (n : ℕ) × IsVersion o n
  pub progress_known_bool : Typed is_bool (o progress_known)
  pub cleanup_pending_bool : Typed is_bool (o audio_cleanup_pending)
  pub deletion_pending_bool : Typed is_bool (o deletion_pending)
  pub attempt_count_whole : Typed is_whole (o attempt_count)
  pub cleanup_attempts_whole : Typed is_whole (o audio_cleanup_attempts)
  pub deletion_attempts_whole : Typed is_whole (o deletion_attempts)

-- `normalizeJob` returns exactly when the version is acceptable.
pub normalize_job-eq-ok :
    (o : Obj) {r : Obj}
    → normalize_job o ≡ ok r
    → (version_accepted o ≡ true) × (materialize_version (normalize_fields kanoniniai_laukai o) ≡ r)
unfolding normalize_job
normalize_job-eq-ok o h = elim (Bool-cases (version_accepted o)) [
  | inl e ↦ (e, cc)
  | inr e ↦ ground arith
]

pub normalize_job_accepted :
    (o : Obj)
    → version_accepted o ≡ true
    → normalize_job o ≡ ok (materialize_version (normalize_fields kanoniniai_laukai o))
unfolding normalize_job
normalize_job_accepted o h = rw h

-- A field with no canonical type passes unchanged.
pub normalized_other :
    (o : Obj) (k : Key)
    → has_key kanoniniai_laukai k ≡ false
    → materialize_version (normalize_fields kanoniniai_laukai o) k ≡ o k
unfolding materialize_version normalize_fields
normalized_other o k h = ground arith

-- The canonical fields but the version.
abbrev pub typed_fields : List Key
typed_fields =
    audio_cleanup_pending ∷ deletion_pending ∷ progress_known ∷ attempt_count
    ∷ audio_cleanup_attempts ∷ deletion_attempts ∷ schema_version ∷ []

-- A field with a canonical type is read by its own rule.
pub normalized_at :
    (o : Obj) (k : Key)
    → has_key typed_fields k ≡ true
    → materialize_version (normalize_fields kanoniniai_laukai o) k
      ≡ map_option (normalize_field_value k) (o k)
unfolding materialize_version normalize_fields
normalized_at o progress_known h = ground arith
normalized_at o _ h = ground arith

Typed-bool :
    (k : Key) (v : Option Value)
    → key_eq k schema_version ≡ false
    → has_key boolean_fields k ≡ true
    → Typed is_bool (map_option (normalize_field_value k) v)
unfolding normalize_field_value
Typed-bool k none h l = tt
Typed-bool k (some w) h l = ground arith

Typed-whole :
    (k : Key) (v : Option Value)
    → key_eq k schema_version ≡ false
    → has_key boolean_fields k ≡ false
    → has_key number_fields k ≡ true
    → Typed is_whole (map_option (normalize_field_value k) v)
unfolding normalize_field_value
Typed-whole k none h l m = tt
Typed-whole k (some w) h l m = ground (arith, parse_int_or_zero_int w)

-- A version that passes the test is stored as the number that was tested.
supplied_version :
    (v : Value)
    → is_nullish v ≡ false
    → version_galioja (version_number v) ≡ true
    → (n : ℕ) × (normalize_field_value version v ≡ num (int n)) × (1 ≤ n) × (n ≤ versijos_lubos)
unfolding normalize_field_value version_number
supplied_version (num n) h g =
    let (m, e, lo, hi) = version_galioja-int n g in
    (m, rw e (unfold parse_int_or_zero in refl), lo, hi)
supplied_version (text s) h g = elim (Bool-cases (leb 1 (length s) && all_digits s)) [
  | inl e ↦
      let (m, q, lo, hi) = version_galioja-int (int (decimal_from 0 s)) (rw e at g) in
      (m, ground (arith, parse_int_or_zero_digits s), lo, hi)
  | inr e ↦ absurd (not_galioja_nan (rw e at g))
]
supplied_version _ h g = absurd (not_galioja_nan g)

normalize_nullish : (k : Key) (v : Value) → is_nullish v ≡ true → normalize_field_value k v ≡ v
unfolding normalize_field_value
normalize_nullish k v h = rw h

version_of_accepted :
    (o : Obj) (v : Option Value)
    → o version ≡ v
    → version_accepted o ≡ true
    → (n : ℕ) × IsVersion (materialize_version (normalize_fields kanoniniai_laukai o)) n
unfolding version_accepted materialize_version normalize_fields
version_of_accepted o none e h = rw e (1, (refl, omega arith, omega arith))
version_of_accepted o (some v) e h = elim (Bool-cases (is_nullish v)) [
  | inl old ↦ (1, (ground (arith, normalize_nullish version v), omega arith, omega arith))
  | inr new ↦
      let (n, q, lo, hi) = supplied_version v new (rw (e, new) at h) in
      (n, (ground (arith, q), lo, hi))
]

IsCanonical-fields :
    (o : Obj)
    → version_accepted o ≡ true
    → IsCanonical (materialize_version (normalize_fields kanoniniai_laukai o))
IsCanonical-fields o h = record {
  version_valid = version_of_accepted o (o version) refl h;
  progress_known_bool =
      rw (normalized_at o progress_known refl)
        (Typed-bool progress_known (o progress_known) refl refl);
  cleanup_pending_bool =
      rw (normalized_at o audio_cleanup_pending refl)
        (Typed-bool audio_cleanup_pending (o audio_cleanup_pending) refl refl);
  deletion_pending_bool =
      rw (normalized_at o deletion_pending refl)
        (Typed-bool deletion_pending (o deletion_pending) refl refl);
  attempt_count_whole =
      rw (normalized_at o attempt_count refl)
        (Typed-whole attempt_count (o attempt_count) refl refl refl);
  cleanup_attempts_whole =
      rw (normalized_at o audio_cleanup_attempts refl)
        (Typed-whole audio_cleanup_attempts (o audio_cleanup_attempts) refl refl refl);
  deletion_attempts_whole =
      rw (normalized_at o deletion_attempts refl)
        (Typed-whole deletion_attempts (o deletion_attempts) refl refl refl);
}

-- Everything that `normalizeJob` returns has the canonical types.
pub normalize_job-IsCanonical : (o : Obj) {r : Obj} → normalize_job o ≡ ok r → IsCanonical r
unfolding materialize_version normalize_fields
normalize_job-IsCanonical o h =
    let (accepted, e) = normalize_job-eq-ok o h in rw (← e) (IsCanonical-fields o accepted)

accepted_int :
    (o : Obj) (n : ℕ)
    → o version ≡ some (num (int n))
    → 1 ≤ n
    → n ≤ versijos_lubos
    → version_accepted o ≡ true
unfolding version_accepted version_number
accepted_int o n e lo hi = rw e (int_galioja n lo hi)

-- A whole version in its range is kept.
pub normalize_job-int :
    (o : Obj) (n : ℕ)
    → o version ≡ some (num (int n))
    → 1 ≤ n
    → n ≤ versijos_lubos
    → (r : Obj) × (normalize_job o ≡ ok r) × (r version ≡ some (num (int n)))
unfolding materialize_version normalize_fields normalize_field_value parse_int_or_zero
normalize_job-int o n e lo hi = (
  materialize_version (normalize_fields kanoniniai_laukai o),
  normalize_job_accepted o (accepted_int o n e lo hi),
  ground arith,
)

int_refused : (n : ℕ) → versijos_lubos < n → version_galioja (int n) ≡ false
unfolding version_galioja is_integer le_number
int_refused n h = ground arith

-- A version beyond the range is refused.
pub normalize_job_refused :
    (o : Obj) (n : ℕ)
    → o version ≡ some (num (int n))
    → versijos_lubos < n
    → normalize_job o ≡ err invalid_version
unfolding normalize_job version_accepted version_number
normalize_job_refused o n e h = rw e (rw (int_refused n h))
