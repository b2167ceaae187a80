-- ===== src/Backup/Ideal.antt =====
-- A cipher that has the laws: its tag tells the key and the authenticated text apart by a number, and
-- its plaintext stands in the open. The theorems on backups are tried on it.
use stenograma.Prelude.{
  ℕ, zero, suc, ◌+◌, ◌*◌, ◌≡◌, refl, sym, ap, Bool, true, false, Option, none, some, List, [], ◌∷◌,
  Text, text_eq, codes, arith, Bool-cases, inl, inr, ◌==◌, if◌then◌else◌,
}
use stenograma.Backup.Encryption.{Cipher, Aad, Env}
use stenograma.Backup.Encryption.Authentic.{IsCipher}

-- 2 ^ a * (2 * b + 1).
abbrev pair : ℕ → ℕ → ℕ
pair zero b = 2 * b + 1
pair (suc a) b = 2 * pair a b

pair-injective : (a b c d : ℕ) → pair a b ≡ pair c d → (a ≡ c) × (b ≡ d)
pair-injective zero b zero d h = (refl, omega (arith, h))
pair-injective zero b (suc c) d h = absurd (omega (arith, h))
pair-injective (suc a) b zero d h = absurd (omega (arith, h))
pair-injective (suc a) b (suc c) d h =
    let (x, y) = pair-injective a b c d (omega (arith, h)) in (ap suc x, y)

pair_positive : (a b : ℕ) → pair a b ≡ 0 → ⊥
pair_positive zero b h = omega (arith, h)
pair_positive (suc a) b h = pair_positive a b (omega (arith, h))

abbrev number {ℓ} : {A : Type ℓ} → (A → ℕ) → List A → ℕ
number f [] = 0
number f (x ∷ xs) = pair (f x) (number f xs)

number-injective {ℓ} :
    {A : Type ℓ} (f : A → ℕ)
    → ((x y : A) → f x ≡ f y → x ≡ y)
    → (xs ys : List A) → number f xs ≡ number f ys
    → xs ≡ ys
number-injective f inj [] [] h = refl
number-injective f inj [] (y ∷ ys) h = absurd (pair_positive (f y) (number f ys) (sym h))
number-injective f inj (x ∷ xs) [] h = absurd (pair_positive (f x) (number f xs) h)
number-injective f inj (x ∷ xs) (y ∷ ys) h =
    let (a, b) = pair-injective (f x) (number f xs) (f y) (number f ys) h in
    rw (inj x y a) (rw (number-injective f inj xs ys b) refl)

abbrev same : ℕ → ℕ
same n = n

abbrev option {ℓ} : {A : Type ℓ} → (A → ℕ) → Option A → ℕ
option f none = 0
option f (some x) = suc (f x)

option-injective {ℓ} :
    {A : Type ℓ} (f : A → ℕ)
    → ((x y : A) → f x ≡ f y → x ≡ y)
    → (o p : Option A) → option f o ≡ option f p
    → o ≡ p
option-injective f inj none none h = refl
option-injective f inj none (some y) h = absurd (omega (arith, h))
option-injective f inj (some x) none h = absurd (omega (arith, h))
option-injective f inj (some x) (some y) h = ap some (inj x y (omega (arith, h)))

abbrev text : Text → ℕ
text t = number same t

text-injective : (s t : Text) → text s ≡ text t → s ≡ t
text-injective s t h = number-injective same (λ x y e. e) s t h

abbrev bit : Bool → ℕ
bit false = 0
bit true = 1

bit-injective : (a b : Bool) → bit a ≡ bit b → a ≡ b
bit-injective true true h = refl
bit-injective true false h = absurd (omega (arith, h))
bit-injective false true h = absurd (omega (arith, h))
bit-injective false false h = refl

abbrev entry : Text × ℕ × ℕ → ℕ
entry (t, n, m) = pair (text t) (pair n m)

entry-injective : (e f : Text × ℕ × ℕ) → entry e ≡ entry f → e ≡ f
entry-injective (t, n, m) (u, k, l) h =
    let (a, b) = pair-injective (text t) (pair n m) (text u) (pair k l) h in
    let (c, d) = pair-injective n m k l b in rw (text-injective t u a) (rw c (rw d refl))

-- The number of a key and an authenticated text.
unfoldable label : List ℕ → Aad → ℕ
label key aad = pair (text key) (
    pair (option text aad.application_version) (
      pair (number entry aad.contents) (
        pair (option bit aad.encrypted) (
          pair (option text aad.encryption_algorithm) (
            pair (option same aad.excluded_in_flight_jobs)
              (pair (option same aad.format_version) (option text aad.snapshot_time)))))))

label-injective : (k k' : List ℕ) (a b : Aad) → label k a ≡ label k' b → (k ≡ k') × (a ≡ b)
unfolding label
label-injective k k' a b h =
    let (key, h1) = pair-injective _ _ _ _ h in
    let (version, h2) = pair-injective _ _ _ _ h1 in
    let (contents, h3) = pair-injective _ _ _ _ h2 in
    let (encrypted, h4) = pair-injective _ _ _ _ h3 in
    let (algorithm, h5) = pair-injective _ _ _ _ h4 in
    let (jobs, h6) = pair-injective _ _ _ _ h5 in
    let (format, time) = pair-injective _ _ _ _ h6 in
    (
      text-injective k k' key,
      same_fields a b (option-injective text text-injective _ _ version)
          (number-injective entry entry-injective _ _ contents)
          (option-injective bit bit-injective _ _ encrypted)
          (option-injective text text-injective _ _ algorithm)
          (option-injective same (λ x y e. e) _ _ jobs)
          (option-injective same (λ x y e. e) _ _ format)
          (option-injective text text-injective _ _ time),
    )
  where
    same_fields :
        (a b : Aad)
        → a.application_version ≡ b.application_version
        → a.contents ≡ b.contents
        → a.encrypted ≡ b.encrypted
        → a.encryption_algorithm ≡ b.encryption_algorithm
        → a.excluded_in_flight_jobs ≡ b.excluded_in_flight_jobs
        → a.format_version ≡ b.format_version
        → a.snapshot_time ≡ b.snapshot_time
        → a ≡ b
    same_fields a b p1 p2 p3 p4 p5 p6 p7 i = record {
      application_version = p1 i;
      contents = p2 i;
      encrypted = p3 i;
      encryption_algorithm = p4 i;
      excluded_in_flight_jobs = p5 i;
      format_version = p6 i;
      snapshot_time = p7 i;
    }

abbrev fifteen : List ℕ
fifteen = 0 ∷ 0 ∷ 0 ∷ 0 ∷ 0 ∷ 0 ∷ 0 ∷ 0 ∷ 0 ∷ 0 ∷ 0 ∷ 0 ∷ 0 ∷ 0 ∷ 0 ∷ []

unfoldable pub ideal_cipher : Cipher
unfolding label
ideal_cipher = record {
  seal = λ key iv aad plaintext. (plaintext, label key aad ∷ fifteen);
  unseal = λ key iv tag aad ciphertext. elim tag [
    | [] ↦ none
    | n ∷ ns ↦ if label key aad == n then some ciphertext else none
  ];
  to_base64 = λ bytes. bytes;
  from_base64 = λ t. t;
}

pub ideal_cipher-IsCipher : IsCipher ideal_cipher
unfolding ideal_cipher text_eq
ideal_cipher-IsCipher = record {
  opens = λ key iv aad plaintext. rw (equal (label key aad)) refl;
  authentic = λ key key' iv aad aad' plaintext other h.
      elim (Bool-cases (label key' aad' == label key aad)) [
        | inl fits ↦
            let (x, y) =
              label-injective key' key aad' aad (equal_of (label key' aad') (label key aad) fits) in
            (sym x, sym y)
        | inr wrong ↦ absurd (nothing other (rw wrong at h))
      ];
  same_size = λ key iv aad plaintext. refl;
  tag_size = λ key iv aad plaintext. refl;
  undone = λ bytes. refl;
  filled = λ b bytes. refl;
}
  where
    equal : (n : ℕ) → (n == n) ≡ true
    equal n = ground arith

    equal_of : (n m : ℕ) → (n == m) ≡ true → n ≡ m
    equal_of n m h = ground arith

    nothing : (x : List ℕ) → none ≡ some x → ⊥
    nothing x p = cc

-- Two keys, the environments before and after their rotation, and twelve bytes.
abbrev eight_zeros : List ℕ → List ℕ
eight_zeros bytes = 0 ∷ 0 ∷ 0 ∷ 0 ∷ 0 ∷ 0 ∷ 0 ∷ 0 ∷ bytes

abbrev pub old_key : List ℕ
old_key = eight_zeros (eight_zeros (eight_zeros (eight_zeros [])))

abbrev pub old_key_text : Text
old_key_text = codes "0000000000000000000000000000000000000000000000000000000000000000"

abbrev new_key_text : Text
new_key_text = codes "0100000000000000000000000000000000000000000000000000000000000000"

abbrev pub new_key : List ℕ
new_key = 1 ∷ 0 ∷ 0 ∷ 0 ∷ 0 ∷ 0 ∷ 0 ∷ 0 ∷ eight_zeros (eight_zeros (eight_zeros []))

abbrev pub before_rotation : Env
before_rotation = record { current = some old_key_text; previous = none }

abbrev pub after_rotation : Env
after_rotation = record { current = some new_key_text; previous = some old_key_text }

abbrev pub twelve : List ℕ
twelve = eight_zeros (0 ∷ 0 ∷ 0 ∷ 0 ∷ [])
