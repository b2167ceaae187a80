-- ===== src/Value.antt =====
-- The values of the language, as far as the backend's job records, results and progress events use
-- them: what `backend/utils/jobStore/common.js` and `backend/utils/jobPhase.js` compute with.
mod Numbers
pub mod Coerce
pub use Numbers.*
unfoldable pub use Numbers.{strict_eq_number, lt_number, le_number, is_integer, add_one}
use stenograma.Prelude.{
  ℕ, ◌≡◌, refl, Bool, true, false, Option, none, some, Text, text_eq, codes, ◌==◌, if◌then◌else◌,
}

-- The strings that the code compares with: statuses, job types, phases and kinds of owner.
pub data Word : Type 0 where
  queued processing completed failed cancelled : Word
  transcription protocol : Word
  validating transcribing diarizing merging generating_protocol : Word
  user api_key unowned : Word

mutual
  -- `text` is a string that is no `Word`; `iso t` is the ISO text of the instant `t` (milliseconds);
  -- `func` is a function, `rezultatas_external` the symbol of that name; `with_to_json v` is an object with no enumerable key of its own
  -- whose prototype's `toJSON` returns `v`.
  pub data Value : Type 0 where
    undefined null func rezultatas_external : Value
    bool : Bool → Value
    num : Number → Value
    word : Word → Value
    text : Text → Value
    iso : ℕ → Value
    with_to_json : Value → Value
    arr : Values → Value
    obj : Members → Value

  pub data Values : Type 0 where
    nil : Values
    cons : Value → Values → Values

  -- The members of an object in insertion order.
  pub data Members : Type 0 where
    end : Members
    member : Text → Value → Members → Members

-- A number for each word, by which words are compared.
abbrev pub word_code : Word → ℕ
word_code queued = 0
word_code processing = 1
word_code completed = 2
word_code failed = 3
word_code cancelled = 4
word_code transcription = 5
word_code protocol = 6
word_code validating = 7
word_code transcribing = 8
word_code diarizing = 9
word_code merging = 10
word_code generating_protocol = 11
word_code user = 12
word_code api_key = 13
word_code unowned = 14

abbrev pub word_eq : Word → Word → Bool
word_eq a b = word_code a == word_code b

-- `v == null`.
abbrev pub is_nullish : Value → Bool
is_nullish undefined = true
is_nullish null = true
is_nullish _ = false

-- `v === word`.
abbrev pub is_word : Word → Value → Bool
is_word w (word v) = word_eq w v
is_word w _ = false

-- `a === b`. Objects are compared by identity, and two that stand in different records are two.
unfoldable pub strict_eq : Value → Value → Bool
unfolding text_eq strict_eq_number
strict_eq undefined undefined = true
strict_eq null null = true
strict_eq (bool true) (bool true) = true
strict_eq (bool false) (bool false) = true
strict_eq (num a) (num b) = strict_eq_number a b
strict_eq (word a) (word b) = word_eq a b
strict_eq (text a) (text b) = text_eq a b
strict_eq (iso a) (iso b) = a == b
strict_eq _ _ = false

-- `ms[name]`; a member that is set again keeps its place, so a name stands once.
unfoldable pub member_of : Text → Members → Value
member_of name end = undefined
member_of name (member n v ms) = if text_eq n name then v else member_of name ms

-- `v.name` for a member of the object's own.
unfoldable pub prop : Text → Value → Value
unfolding member_of
prop name (obj ms) = member_of name ms
prop name _ = undefined

-- `typeof v === "object"`, `null` left out.
abbrev pub is_object : Value → Bool
is_object (with_to_json v) = true
is_object (arr vs) = true
is_object (obj ms) = true
is_object _ = false

-- JavaScript's truth of a value.
unfoldable pub truthy : Value → Bool
unfolding strict_eq_number
truthy undefined = false
truthy null = false
truthy (bool b) = b
truthy (num nan) = false
truthy (num n) = if strict_eq_number n zero_number then false else true
truthy (text s) = if text_eq s (codes "") then false else true
truthy _ = true
