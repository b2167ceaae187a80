-- ===== src/Transcript/Hallucinations.antt =====
-- The filter of hallucinations (backend/utils/filterHallucinations.js). A regular expression is the test
-- that it makes of a text, and compiling one may fail.
pub mod Selection
use stenograma.Prelude.{
  ℕ, ◌+◌, ◌≡◌, refl, sym, ◌∙◌, ap, Bool, true, false, ◌&&◌, ◌||◌, not, Option, none, some, List, [],
  ◌∷◌, ◌++◌, map, Text, text_eq, ◌⊎◌, Bool-cases, inl, inr, if◌then◌else◌, filter_by, ◌==◌,
}
use stenograma.Transcript.{Segment, or_empty, trim}

abbrev pub Pattern : Type 0
Pattern = Text → Bool

-- `text.split(",")`.
unfoldable pub split_commas : Text → Text × List Text
split_commas [] = ([], [])
split_commas (c ∷ cs) =
    let (first, rest) = split_commas cs in if c == 44 then ([], first ∷ rest) else (c ∷ first, rest)

-- The fragments that are not empty and that the language can compile.
unfoldable pub compiled : (Text → Option Pattern) → List Text → List Pattern
unfolding trim
compiled regexp [] = []
compiled regexp (t ∷ ts) =
    let rest = compiled regexp ts in
    let frag = trim t in
    if text_eq frag [] then rest else elim (regexp frag) [ none ↦ rest | some re ↦ re ∷ rest ]

-- `buildPatterns()`: the default patterns and those of `HALLUCINATION_EXTRA_PATTERNS`.
unfoldable pub build_patterns : (Text → Option Pattern) → List Pattern → Option Text → List Pattern
unfolding split_commas compiled
build_patterns regexp defaults extra =
    let (first, rest) = split_commas (or_empty extra) in defaults ++ compiled regexp (first ∷ rest)

-- `patterns.some((re) => re.test(t))`.
unfoldable pub some_matches : List Pattern → Text → Bool
some_matches [] t = false
some_matches (re ∷ res) t = re t || some_matches res t

-- `looksLikeHallucination(text, patterns)`.
unfoldable pub looks_like_hallucination : Option Text → List Pattern → Bool
unfolding trim some_matches
looks_like_hallucination text patterns =
    let t = trim (or_empty text) in if text_eq t [] then true else some_matches patterns t

-- `!s.speaker`.
abbrev pub no_speaker : Option Text → Bool
no_speaker none = true
no_speaker (some t) = text_eq t []

unfoldable pub should_remove : Bool → List Pattern → Segment → Bool
unfolding looks_like_hallucination
should_remove diarized patterns s =
    looks_like_hallucination s.text patterns && (if diarized then no_speaker s.speaker else true)

-- The loop of `filterHallucinations`: what is kept, and how many were removed.
unfoldable pub kept : Bool → List Pattern → List Segment → List Segment × ℕ
unfolding should_remove
kept diarized patterns [] = ([], 0)
kept diarized patterns (s ∷ ss) =
    let (rest, removed) = kept diarized patterns ss in
    if should_remove diarized patterns s then (rest, removed + 1) else (s ∷ rest, removed)

-- `join(" ")` of the texts that are not empty.
unfoldable pub join_texts : List Text → Text
join_texts [] = []
join_texts (t ∷ ts) =
    let rest = join_texts ts in
    if text_eq t [] then rest else (if text_eq rest [] then t else t ++ (32 ∷ rest))

-- `rebuildText(segments)`.
unfoldable pub rebuild_text : List Segment → Text
unfolding trim join_texts
rebuild_text ss = join_texts (map (λ s. trim (or_empty s.text)) ss)

pub record Filtered : Type 0 where
  pub segments : List Segment
  pub removed : ℕ
  pub text : Text

-- `filterHallucinations(segments, { diarized, enabled })` for an array, where `enabled` says that neither the
-- option nor the environment turns the filter off.
unfoldable pub filter_hallucinations : Bool → Bool → List Pattern → List Segment → Filtered
unfolding kept rebuild_text
filter_hallucinations false diarized patterns ss = record {
  segments = ss;
  removed = 0;
  text = rebuild_text ss;
}
filter_hallucinations true diarized patterns ss =
    let (rest, removed) = kept diarized patterns ss in
    record { segments = rest; removed = removed; text = rebuild_text rest }

spoken_stays :
    (patterns : List Pattern) (s : Segment)
    → no_speaker s.speaker ≡ false
    → should_remove true patterns s ≡ false
unfolding should_remove
spoken_stays patterns s h = elim (Bool-cases (looks_like_hallucination s.text patterns)) [
  | inl looks ↦ rw (looks_like_hallucination, looks) h
  | inr fine ↦ rw (looks_like_hallucination, fine) refl
]

-- Where the transcript is diarized, the filter removes nothing that somebody says.
pub filter_hallucinations_spares :
    (patterns : List Pattern) (ss : List Segment)
    → filter_by
        (λ s. not (no_speaker s.speaker))
        (filter_hallucinations true true patterns ss).segments
      ≡ filter_by (λ s. not (no_speaker s.speaker)) ss
unfolding filter_hallucinations kept
filter_hallucinations_spares patterns [] = refl
filter_hallucinations_spares patterns (s ∷ ss) = elim (Bool-cases (should_remove true patterns s)) [
  | inr stays ↦ rw stays (rw (filter_hallucinations_spares patterns ss) refl)
  | inl gone ↦ elim (Bool-cases (no_speaker s.speaker)) [
    | inl nobody ↦ rw gone (rw nobody (filter_hallucinations_spares patterns ss))
    | inr somebody ↦ absurd (clash (sym gone ∙ spoken_stays patterns s somebody))
  ]
]
  where
    clash : true ≡ false → ⊥
    clash p = cc
