-- ===== src/Prelude/Map.antt =====
-- `Map` with text keys: an association list in insertion order, which `set` of a present key keeps.
use mathlib.Core.Path.{◌≡◌, refl, sym, subst}
use mathlib.Core.Logic.{inl, inr}
use mathlib.Core.Bool.{Bool, true, false}
use mathlib.Core.Option.{Option, none, some, some-injective}
use mathlib.Core.List.{List, [], ◌∷◌}
use native.Mathlib.Omega.{arith}
use stenograma.Prelude.Tests.{if◌then◌else◌, Bool-cases}
use stenograma.Prelude.Texts.{Text, text_eq, text_eq_refl, eq_of_text_eq, text_neq_sym}

abbrev pub Map {ℓ} : Type ℓ → Type ℓ
Map V = List (Text × V)

module _ {ℓ} {V : Type ℓ} where
  -- `map.get(k)`.
  unfoldable pub get : Text → Map V → Option V
  get k [] = none
  get k ((j, v) ∷ m) = if text_eq j k then some v else get k m

  -- `map.set(k, v)`.
  unfoldable pub set : Text → V → Map V → Map V
  set k v [] = (k, v) ∷ []
  set k v ((j, w) ∷ m) = if text_eq j k then (j, v) ∷ m else (j, w) ∷ set k v m

  -- `map.delete(k)`: what remains.
  unfoldable pub delete : Text → Map V → Map V
  delete k [] = []
  delete k ((j, w) ∷ m) = if text_eq j k then m else (j, w) ∷ delete k m

  pub get-set_self : (k : Text) (v : V) (m : Map V) → get k (set k v m) ≡ some v
  unfolding get set
  get-set_self k v [] = rw (text_eq_refl k)
  get-set_self k v ((j, w) ∷ m) = ground (arith, get-set_self k v m)

  pub get-set_ne :
      (k j : Text) (v : V) (m : Map V) → text_eq k j ≡ false → get j (set k v m) ≡ get j m
  unfolding get set
  get-set_ne k j v [] h = rw h
  get-set_ne k j v ((i, w) ∷ m) h = elim (Bool-cases (text_eq i k)) [
    | inl same ↦ let e = eq_of_text_eq i k same in rw same (rw e (rw h))
    | inr other ↦ rw other (rw (get-set_ne k j v m h))
  ]

  pub get-set :
      (k j : Text) (v : V) (m : Map V)
      → get j (set k v m) ≡ (if text_eq k j then some v else get j m)
  get-set k j v m = elim (Bool-cases (text_eq k j)) [
    | inl same ↦
        rw same
          (subst (λ i. get i (set k v m) ≡ some v) (eq_of_text_eq k j same) (get-set_self k v m))
    | inr other ↦ rw other (get-set_ne k j v m other)
  ]

  pub get-delete_ne : (k j : Text) (m : Map V) → text_eq k j ≡ false → get j (delete k m) ≡ get j m
  unfolding get delete
  get-delete_ne k j [] h = refl
  get-delete_ne k j ((i, w) ∷ m) h = elim (Bool-cases (text_eq i k)) [
    | inl same ↦ let e = eq_of_text_eq i k same in rw same (rw e (rw h))
    | inr other ↦ rw other (rw (get-delete_ne k j m h))
  ]

-- `map.has(k)`.
module _ {ℓ} {V : Type ℓ} where
  unfoldable pub has : Text → Map V → Bool
  has k [] = false
  has k ((j, v) ∷ m) = if text_eq j k then true else has k m

-- What holds of every entry of a map whose keys are distinct, as `set` and `delete` keep them.
module _ {ℓ} {V : Type ℓ} (P : Text → V → Type 0) where
  abbrev pub Entries : Map V → Type 0
  Entries [] = Unit
  Entries ((k, v) ∷ m) = P k v × (has k m ≡ false) × Entries m

pub get-of_has {ℓ} : {V : Type ℓ} (k : Text) (m : Map V) → has k m ≡ false → get k m ≡ none
unfolding get has
get-of_has k [] h = refl
get-of_has k ((j, v) ∷ m) h = ground (arith, get-of_has k m)

has-set {ℓ} :
    {V : Type ℓ} (j k : Text) (v : V) (m : Map V)
    → text_eq j k ≡ false
    → has k m ≡ false
    → has k (set j v m) ≡ false
unfolding has set
has-set j k v [] e h = rw e
has-set j k v ((i, w) ∷ m) e h = ground (arith, has-set j k v m)

has-delete {ℓ} :
    {V : Type ℓ} (j k : Text) (m : Map V) → has k m ≡ false → has k (delete j m) ≡ false
unfolding has delete
has-delete j k [] h = refl
has-delete j k ((i, w) ∷ m) h = ground (arith, has-delete j k m)

module _ {ℓ} {V : Type ℓ} (P : Text → V → Type 0) where
  pub Entries-get : (k : Text) (m : Map V) {v : V} → Entries P m → get k m ≡ some v → P k v
  unfolding get
  Entries-get k [] h e = cc
  Entries-get k ((j, w) ∷ m) {v} (p, d, rest) e = elim (Bool-cases (text_eq j k)) [
    | inl at ↦
        subst (λ x. P x v) (eq_of_text_eq j k at) (subst (P j) (some-injective w v (rw at at e)) p)
    | inr past ↦ Entries-get k m rest (rw past at e)
  ]

  pub Entries-set : (k : Text) (v : V) (m : Map V) → P k v → Entries P m → Entries P (set k v m)
  unfolding set has
  Entries-set k v [] p h = (p, refl, tt)
  Entries-set k v ((j, w) ∷ m) p (q, d, rest) = elim (Bool-cases (text_eq j k)) [
    | inl at ↦ rw at (subst (λ x. P x v) (sym (eq_of_text_eq j k at)) p, d, rest)
    | inr past ↦ rw past (q, has-set k j v m (text_neq_sym j k past) d, Entries-set k v m p rest)
  ]

  pub Entries-delete : (k : Text) (m : Map V) → Entries P m → Entries P (delete k m)
  unfolding delete
  Entries-delete k [] h = tt
  Entries-delete k ((j, w) ∷ m) (q, d, rest) = elim (Bool-cases (text_eq j k)) [
    | inl at ↦ rw at rest
    | inr past ↦ rw past (q, has-delete k j m d, Entries-delete k m rest)
  ]
