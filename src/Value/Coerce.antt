-- ===== src/Value/Coerce.antt =====
-- The conversions of the language that the job records go through: `parseInt(v, 10) || 0`,
-- `Number(v)` and `String(v).toLowerCase() === "true"`. The year of an ISO text is computed by the
-- civil calendar, since `parseInt` reads that much of it.
use stenograma.Prelude.{
  ℕ, ◌+◌, ◌-◌, ◌*◌, ◌/◌, ◌%◌, ◌^◌, ◌≡◌, refl, Bool, true, false, ◌&&◌, ◌||◌, Option, none, some, [],
  ◌∷◌, Text, text_eq, codes, ltb, leb, ◌==◌, if◌then◌else◌, ℤ, pos, negsuc, neg, length, ◌++◌, map,
  arith,
}
use stenograma.Value.Numbers.{Number, nan, infinite, finite, zero_number, int}
use stenograma.Value.{Value, undefined, null, bool, num, text, iso, arr, nil, cons}

unfoldable pub is_space : ℕ → Bool
is_space c =
    (leb 9 c && leb c 13)
    || c == 32
    || c == 160
    || c == 0x1680
    || (leb 0x2000 c && leb c 0x200a)
    || c == 0x2028
    || c == 0x2029
    || c == 0x202f
    || c == 0x205f
    || c == 0x3000
    || c == 0xfeff

unfoldable pub skip_spaces : Text → Text
skip_spaces [] = []
skip_spaces (c ∷ s) = let rest = skip_spaces s in if is_space c then rest else c ∷ s

unfoldable pub is_digit : ℕ → Bool
is_digit c = leb b'0' c && leb c b'9'

unfoldable pub digits_of : Text → Text
digits_of [] = []
digits_of (c ∷ s) = let rest = digits_of s in if is_digit c then c ∷ rest else []

after_digits : Text → Text
after_digits [] = []
after_digits (c ∷ s) = let rest = after_digits s in if is_digit c then rest else c ∷ s

unfoldable pub decimal_from : ℕ → Text → ℕ
decimal_from acc [] = acc
decimal_from acc (c ∷ s) = decimal_from (acc * 10 + (c - b'0')) s

-- A sign in front: whether it is a minus, and what follows.
unfoldable pub sign_of : Text → Bool × Text
sign_of [] = (false, [])
sign_of (c ∷ s) =
    if c == b'-' then (true, s) else (if c == b'+' then (false, s) else (false, c ∷ s))

signed : Bool → ℕ → ℤ
signed negative n = if negative then neg n else pos n

-- `parseInt(s, 10)` of a text, `none` for `NaN`.
unfoldable pub parse_int_text : Text → Option ℤ
unfolding skip_spaces is_space is_digit digits_of decimal_from sign_of signed
parse_int_text s =
    let (negative, rest) = sign_of (skip_spaces s) in
    let ds = digits_of rest in
    if leb 1 (length ds) then some (signed negative (decimal_from 0 ds)) else none

-- Rounding towards 0, which is what `parseInt` reads of a number's text.
truncate : ℤ → ℕ → ℤ
truncate (pos n) f = pos n
truncate (negsuc n) f = if f == 0 then negsuc n else neg n

-- The civil year of an instant in milliseconds.
year_of : ℕ → ℕ
year_of t =
    let z = t / 86400000 + 719468 in
    let era = z / 146097 in
    let doe = z % 146097 in
    let yoe = (doe - doe / 1460 + doe / 36524 - doe / 146096) / 365 in
    let doy = doe - (365 * yoe + yoe / 4 - yoe / 100) in
    yoe + era * 400 + (if ltb ((5 * doy + 2) / 153) 10 then 0 else 1)

or_zero : Option ℤ → Number
or_zero none = zero_number
or_zero (some z) = finite z 0

-- `parseInt(v, 10) || 0`. An array's text begins with that of its first element.
unfoldable pub parse_int_or_zero : Value → Number
unfolding parse_int_text truncate year_of or_zero
parse_int_or_zero (num (finite z f)) = finite (truncate z f) 0
parse_int_or_zero (text s) = or_zero (parse_int_text s)
parse_int_or_zero (iso t) = finite (pos (year_of t)) 0
parse_int_or_zero (arr (cons v vs)) = parse_int_or_zero v
parse_int_or_zero _ = zero_number

lower : ℕ → ℕ
lower c = if leb b'A' c && leb c b'Z' then c + 32 else c

-- `String(v).toLowerCase() === "true"`.
unfoldable pub reads_true : Value → Bool
unfolding lower
reads_true (bool b) = b
reads_true (text s) = text_eq (map lower s) (codes "true")
reads_true (arr (cons v nil)) = reads_true v
reads_true _ = false

-- `/^[0-9]*$/`.
unfoldable pub all_digits : Text → Bool
all_digits [] = true
all_digits (c ∷ s) = (leb b'0' c && leb c b'9') && all_digits s

-- The digit in a radix up to 16.
radix_digit : ℕ → Option ℕ
unfolding is_digit lower
radix_digit c =
    if is_digit c
    then some (c - b'0')
    else (if leb b'a' (lower c) && leb (lower c) b'f' then some (lower c - 87) else none)

-- A text all of whose units are digits in the radix, from an accumulator on.
radix_from : ℕ → ℕ → Text → Option ℕ
radix_from r acc [] = some acc
radix_from r acc (c ∷ s) = elim (radix_digit c) [
  | none ↦ none
  | some d ↦ if ltb d r then radix_from r (acc * r + d) s else none
]

-- `m * 10 ^ e / 10 ^ d` with its sign, to millionths.
scaled : Bool → ℕ → ℕ → ℕ → Number
unfolding signed
scaled negative m e d =
    let units = m * 10 ^ e * 1000000 / 10 ^ d in
    let q = units / 1000000 in
    let f = units % 1000000 in
    if negative && ltb 0 f then finite (negsuc q) (1000000 - f) else finite (signed negative q) f

-- The exponent part: its sign and size, `none` if the text is no exponent.
exponent_of : Text → Option (Bool × ℕ)
unfolding sign_of digits_of after_digits is_digit decimal_from
exponent_of [] = some (false, 0)
exponent_of (c ∷ s) =
    if c == b'e' || c == b'E'
    then (let (negative, rest) = sign_of s in
        if leb 1 (length (digits_of rest)) && text_eq (after_digits rest) []
        then some (negative, decimal_from 0 (digits_of rest))
        else none)
    else none

with_exponent : Bool → ℕ → ℕ → Option (Bool × ℕ) → Number
unfolding scaled
with_exponent negative m d none = nan
with_exponent negative m d (some (true, e)) = scaled negative m 0 (d + e)
with_exponent negative m d (some (false, e)) = scaled negative m e d

-- What stands behind the whole part: a point with decimals, or the exponent.
fraction_of : Text → Text × Text
unfolding digits_of after_digits is_digit
fraction_of [] = ([], [])
fraction_of (c ∷ s) = if c == b'.' then (digits_of s, after_digits s) else ([], c ∷ s)

decimal_number : Bool → Text → Number
unfolding digits_of after_digits is_digit decimal_from fraction_of exponent_of with_exponent
decimal_number negative s =
    let whole = digits_of s in
    let (decimals, rest) = fraction_of (after_digits s) in
    if text_eq s (codes "Infinity")
    then infinite negative
    else (if leb 1 (length whole + length decimals)
        then with_exponent negative (decimal_from 0 (whole ++ decimals)) (length decimals)
            (exponent_of rest)
        else nan)

or_nan : Option ℕ → Number
or_nan none = nan
or_nan (some n) = int n

radix_number : ℕ → Text → Number
unfolding radix_from radix_digit or_nan
radix_number r [] = nan
radix_number r (c ∷ s) = or_nan (radix_from r 0 (c ∷ s))

drop_last_spaces : Text → Text
drop_last_spaces [] = []
drop_last_spaces (c ∷ s) =
    let rest = drop_last_spaces s in if is_space c && text_eq rest [] then [] else c ∷ rest

-- `Number(s)` of a trimmed text.
trimmed_number : Text → Number
unfolding decimal_number radix_number sign_of
trimmed_number [] = zero_number
trimmed_number (c ∷ []) = decimal_number false (c ∷ [])
trimmed_number (c ∷ d ∷ s) =
    if c == b'0' && (d == b'x' || d == b'X')
    then radix_number 16 s
    else (if c == b'0' && (d == b'o' || d == b'O')
        then radix_number 8 s
        else (if c == b'0' && (d == b'b' || d == b'B')
            then radix_number 2 s
            else (let (negative, rest) = sign_of (c ∷ d ∷ s) in decimal_number negative rest)))

-- `Number(v)`; an array of one element is read through that element's text.
unfoldable pub to_number : Value → Number
unfolding trimmed_number skip_spaces drop_last_spaces is_space
to_number null = zero_number
to_number (bool true) = int 1
to_number (bool false) = zero_number
to_number (num n) = n
to_number (text s) = trimmed_number (drop_last_spaces (skip_spaces s))
to_number (arr nil) = zero_number
to_number (arr (cons (bool b) nil)) = nan
to_number (arr (cons undefined nil)) = zero_number
to_number (arr (cons v nil)) = to_number v
to_number _ = nan

eras :
    (to_number (text (codes " 0x2 ")) ≡ int 2)
    × (to_number (text (codes "2.5e1")) ≡ int 25)
    × (to_number (text (codes "-2.5")) ≡ finite (negsuc 2) 500000)
    × (to_number (text (codes "x")) ≡ nan)
    × (parse_int_or_zero (text (codes " -12ab")) ≡ finite (negsuc 11) 0)
    × (parse_int_or_zero (iso 1700000000000) ≡ int 2023)
unfolding to_number parse_int_or_zero text_eq
eras = (refl, refl, refl, refl, refl, refl)

digits_of_digits : (s : Text) → all_digits s ≡ true → digits_of s ≡ s
unfolding digits_of is_digit all_digits
digits_of_digits [] h = refl
digits_of_digits (c ∷ s) h = ground (arith, digits_of_digits s)

skip_spaces_digits : (s : Text) → all_digits s ≡ true → skip_spaces s ≡ s
unfolding skip_spaces is_space all_digits
skip_spaces_digits [] h = refl
skip_spaces_digits (c ∷ s) h = ground arith

sign_of_digits : (s : Text) → all_digits s ≡ true → sign_of s ≡ (false, s)
unfolding sign_of all_digits
sign_of_digits [] h = refl
sign_of_digits (c ∷ s) h = ground arith

-- A text of digits is read as its decimal value by `parseInt`.
pub parse_int_or_zero_digits :
    (s : Text)
    → all_digits s ≡ true
    → leb 1 (length s) ≡ true
    → parse_int_or_zero (text s) ≡ int (decimal_from 0 s)
unfolding parse_int_or_zero
parse_int_or_zero_digits s h l =
    rw (skip_spaces_digits s h) (rw (sign_of_digits s h) (rw (digits_of_digits s h) (rw l)))

or_zero_int : (o : Option ℤ) → (z : ℤ) × (or_zero o ≡ finite z 0)
unfolding or_zero
or_zero_int none = (pos 0, refl)
or_zero_int (some z) = (z, refl)

-- Whatever it reads, `parseInt(v, 10) || 0` is a whole number.
pub parse_int_or_zero_int : (v : Value) → (z : ℤ) × (parse_int_or_zero v ≡ finite z 0)
unfolding parse_int_or_zero
parse_int_or_zero_int (num (finite z f)) = (truncate z f, refl)
parse_int_or_zero_int (text s) = or_zero_int (parse_int_text s)
parse_int_or_zero_int (iso t) = (pos (year_of t), refl)
parse_int_or_zero_int (arr (cons v vs)) = parse_int_or_zero_int v
parse_int_or_zero_int _ = (pos 0, refl)
