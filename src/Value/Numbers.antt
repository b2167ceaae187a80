-- ===== src/Value/Numbers.antt =====
-- Numbers. A finite number is a floor and a count of millionths above it, so that the order is
-- lexicographic; numbers with more than six decimal places stand outside the model, as does the
-- rounding beyond 2 ^ 53. The two zeros are one, as they are for every comparison.
use stenograma.Prelude.{
  ℕ, Bool, true, false, ◌&&◌, ℤ, pos, ltb_ℤ, eqb_ℤ, suc_ℤ, ltb, ◌==◌, if◌then◌else◌,
}

pub data Number : Type 0 where
  nan : Number
  infinite : Bool → Number
  finite : ℤ → ℕ → Number

abbrev pub zero_number : Number
zero_number = finite (pos 0) 0

abbrev pub int : ℕ → Number
int n = finite (pos n) 0

-- `a < b`.
unfoldable pub lt_number : Number → Number → Bool
lt_number nan b = false
lt_number (infinite negative) nan = false
lt_number (infinite true) (infinite true) = false
lt_number (infinite true) _ = true
lt_number (infinite false) _ = false
lt_number (finite a f) nan = false
lt_number (finite a f) (infinite true) = false
lt_number (finite a f) (infinite false) = true
lt_number (finite a f) (finite b g) = if eqb_ℤ a b then ltb f g else ltb_ℤ a b

-- `a === b` on numbers.
unfoldable pub strict_eq_number : Number → Number → Bool
strict_eq_number (infinite true) (infinite true) = true
strict_eq_number (infinite false) (infinite false) = true
strict_eq_number (finite a f) (finite b g) = eqb_ℤ a b && f == g
strict_eq_number _ _ = false

-- `a <= b`.
unfoldable pub le_number : Number → Number → Bool
unfolding lt_number strict_eq_number
le_number a b = if lt_number a b then true else strict_eq_number a b

-- `Number.isInteger(a)`.
unfoldable pub is_integer : Number → Bool
is_integer (finite a f) = f == 0
is_integer _ = false

-- `a + 1`.
unfoldable pub add_one : Number → Number
add_one (finite a f) = finite (suc_ℤ a) f
add_one a = a
