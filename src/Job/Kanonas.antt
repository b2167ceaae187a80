-- ===== src/Job/Kanonas.antt =====
-- `kanoninisRezultatas` (backend/utils/jobStore/common.js): the one equality of results. The text that
-- `JSON.stringify` makes of a canonical value is a list of tokens here; the literals of numbers and
-- strings are one token each, and the separators, which carry nothing, are left out.
pub mod Reorder
use stenograma.Prelude.{
  ℕ, ◌≡◌, refl, Bool, true, false, ◌&&◌, not, List, [], ◌∷◌, ◌++◌, Text, text_eq, text_lt, ◌==◌, ℤ,
  eqb_ℤ, if◌then◌else◌,
}
use stenograma.Value.{
  Value, Values, Members, Word, Number, undefined, null, func, rezultatas_external, bool, num, word,
  text, iso, with_to_json, arr, obj, nil, cons, end, member, nan, infinite, finite, word_eq,
}

-- `neserializuojama(reiksme)`.
abbrev pub neserializuojama : Value → Bool
neserializuojama undefined = true
neserializuojama func = true
neserializuojama rezultatas_external = true
neserializuojama _ = false

-- `out[n] = v` in the order of the sorted names.
unfoldable pub insert_member : Text → Value → Members → Members
insert_member n v end = member n v end
insert_member n v (member m w ms) =
    if text_lt n m then member n v (member m w ms) else member m w (insert_member n v ms)

-- `kanonizuoti` with `toJSON` honoured, for `true`, and `kanonizuotiBeToJSON`, for `false`.
unfoldable mutual
  pub kanonizuoti : Bool → Value → Value
  kanonizuoti su undefined = null
  kanonizuoti su null = null
  kanonizuoti su func = func
  kanonizuoti su rezultatas_external = rezultatas_external
  kanonizuoti su (bool b) = bool b
  kanonizuoti su (num n) = num n
  kanonizuoti su (word w) = word w
  kanonizuoti su (text s) = text s
  kanonizuoti su (iso t) = iso t
  kanonizuoti true (with_to_json v) = kanonizuoti false v
  kanonizuoti false (with_to_json v) = obj end
  kanonizuoti su (arr vs) = arr (kanonizuoti_values vs)
  kanonizuoti su (obj ms) = obj (kanonizuoti_members ms)

  pub kanonizuoti_values : Values → Values
  kanonizuoti_values nil = nil
  kanonizuoti_values (cons v vs) =
      cons (if neserializuojama v then null else kanonizuoti true v) (kanonizuoti_values vs)

  pub kanonizuoti_members : Members → Members
  kanonizuoti_members end = end
  kanonizuoti_members (member n v ms) =
      (let rest = kanonizuoti_members ms in
        let value = kanonizuoti true v in
        if neserializuojama v then rest else insert_member n value rest)

pub data Token : Type 0 where
  null_token undefined_token : Token
  bool_token : Bool → Token
  num_token : ℤ → ℕ → Token
  word_token : Word → Token
  text_token key_token : Text → Token
  iso_token : ℕ → Token
  open_arr close_arr open_obj close_obj : Token

-- `JSON.stringify` of a number: what is not finite is written `null`.
abbrev pub number_token : Number → Token
number_token nan = null_token
number_token (infinite b) = null_token
number_token (finite z f) = num_token z f

-- `JSON.stringify` of a canonical value.
unfoldable mutual
  pub stringify : Value → List Token
  stringify undefined = undefined_token ∷ []
  stringify null = null_token ∷ []
  stringify func = undefined_token ∷ []
  stringify rezultatas_external = undefined_token ∷ []
  stringify (bool b) = bool_token b ∷ []
  stringify (num n) = number_token n ∷ []
  stringify (word w) = word_token w ∷ []
  stringify (text s) = text_token s ∷ []
  stringify (iso t) = iso_token t ∷ []
  stringify (with_to_json v) = stringify v
  stringify (arr vs) = open_arr ∷ stringify_values vs
  stringify (obj ms) = open_obj ∷ stringify_members ms

  pub stringify_values : Values → List Token
  stringify_values nil = close_arr ∷ []
  stringify_values (cons v vs) = stringify v ++ stringify_values vs

  pub stringify_members : Members → List Token
  stringify_members end = close_obj ∷ []
  stringify_members (member n v ms) = key_token n ∷ (stringify v ++ stringify_members ms)

unfoldable pub kanoninis_rezultatas : Value → List Token
kanoninis_rezultatas v = stringify (kanonizuoti true v)

unfoldable pub token_eq : Token → Token → Bool
token_eq null_token null_token = true
token_eq undefined_token undefined_token = true
token_eq (bool_token true) (bool_token true) = true
token_eq (bool_token false) (bool_token false) = true
token_eq (num_token a f) (num_token b g) = eqb_ℤ a b && f == g
token_eq (word_token a) (word_token b) = word_eq a b
token_eq (text_token a) (text_token b) = text_eq a b
token_eq (key_token a) (key_token b) = text_eq a b
token_eq (iso_token a) (iso_token b) = a == b
token_eq open_arr open_arr = true
token_eq close_arr close_arr = true
token_eq open_obj open_obj = true
token_eq close_obj close_obj = true
token_eq _ _ = false

-- `===` of two texts.
unfoldable pub tokens_eq : List Token → List Token → Bool
tokens_eq [] [] = true
tokens_eq [] (y ∷ ys) = false
tokens_eq (x ∷ xs) [] = false
tokens_eq (x ∷ xs) (y ∷ ys) = token_eq x y && tokens_eq xs ys

-- `kanoninisRezultatas(a) === kanoninisRezultatas(b)`.
unfoldable pub same_result : Value → Value → Bool
unfolding kanoninis_rezultatas
same_result a b = tokens_eq (kanoninis_rezultatas a) (kanoninis_rezultatas b)
