-- ===== src/Transcript.antt =====
-- The cleanup of transcripts. A segment's times are natural numbers of some unit, and a text or a
-- speaker that is missing is `none`. The children hold the merge with the diarization, the
-- collapsing of repetitions and the filter of hallucinations.
mod Tests
pub mod Diarization
pub mod Dedup
pub mod Hallucinations
use stenograma.Prelude.{
  ℕ, Bool, true, false, not, Option, none, some, List, [], ◌∷◌, ◌++◌, Text, text_eq, if◌then◌else◌,
}
use stenograma.Value.Coerce.{is_space, skip_spaces}

pub record Segment : Type 0 where
  pub start : ℕ
  pub end : ℕ
  pub text : Option Text
  pub speaker : Option Text

-- `s.text || ""`.
abbrev pub or_empty : Option Text → Text
or_empty none = []
or_empty (some t) = t

-- The text without its trailing white space.
unfoldable pub trim_end : Text → Text
trim_end [] = []
trim_end (c ∷ cs) = cut (is_space c) (trim_end cs)
  where
    cut : Bool → Text → Text
    cut true [] = []
    cut true (d ∷ ds) = c ∷ d ∷ ds
    cut false rest = c ∷ rest

-- `s.trim()`.
unfoldable pub trim : Text → Text
unfolding skip_spaces trim_end
trim t = trim_end (skip_spaces t)

-- `s.replace(/\s+/g, " ")`; the flag says that the unit before was white space.
unfoldable pub one_space : Bool → Text → Text
one_space after [] = []
one_space after (c ∷ cs) =
    let inside = one_space true cs in
    let outside = one_space false cs in
    if is_space c then (if after then inside else 32 ∷ inside) else c ∷ outside

-- `normalize(s)`.
unfoldable pub normalize : Text → Text
unfolding trim one_space
normalize s = one_space false (trim s)
