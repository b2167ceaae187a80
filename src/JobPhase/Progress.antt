-- ===== src/JobPhase/Progress.antt =====
-- The shape of progress: `PROGRESS_INVARIANTS`, `assertValidProgress` and `assertProgressInvariant`
-- (backend/utils/jobPhase.js).
use stenograma.Prelude.{Bool, true, false, List, [], ◌∷◌, codes}
use stenograma.Result.{Result, ok, guard, ◌>>◌, invalid_progress, progress_invariant}
use stenograma.Value.{
  Value, finite, zero_number, null, bool, num, prop, is_object, lt_number, le_number,
}

abbrev pub current_of : Value → Value
current_of p = prop (codes "current") p

abbrev pub total_of : Value → Value
total_of p = prop (codes "total") p

-- `Number.isFinite(v)`.
abbrev pub is_finite : Value → Bool
is_finite (num (finite z f)) = true
is_finite _ = false

-- The orders of the predicates; they are asked of numbers only, since `isFinite` comes first.
unfoldable pub lt_value : Value → Value → Bool
lt_value (num a) (num b) = lt_number a b
lt_value _ _ = false

unfoldable pub le_value : Value → Value → Bool
le_value (num a) (num b) = le_number a b
le_value _ _ = false

unfoldable pub progress_invariants : List (Value → Bool)
progress_invariants =
    (λ p. is_finite (current_of p))
    ∷ (λ p. is_finite (total_of p))
    ∷ (λ p. lt_value (num zero_number) (total_of p))
    ∷ (λ p. le_value (num zero_number) (current_of p))
    ∷ (λ p. le_value (current_of p) (total_of p))
    ∷ []

-- The loop over the predicates.
check_all : List (Value → Bool) → Value → Result (Unit {0})
check_all [] p = ok tt
check_all (f ∷ fs) p = do guard (f p) invalid_progress; check_all fs p

unfoldable pub assert_valid_progress : Value → Result (Unit {0})
unfolding check_all progress_invariants
assert_valid_progress p = do guard (is_object p) invalid_progress; check_all progress_invariants p

abbrev is_null : Value → Bool
is_null null = true
is_null _ = false

-- `assertProgressInvariant({ progressKnown, progress })`.
unfoldable pub assert_progress_invariant : Value → Value → Result (Unit {0})
assert_progress_invariant (bool false) p = guard (is_null p) progress_invariant
assert_progress_invariant (bool true) p = assert_valid_progress p
assert_progress_invariant known p = ok tt
