-- ===== src/Transcript/Hallucinations/Selection.antt =====
-- Which segments the filter of hallucinations takes out (backend/utils/filterHallucinations.js), described
-- apart from its tests.
use stenograma.Prelude.{
  ℕ, ◌+◌, ◌≡◌, refl, sym, ◌∙◌, ap, Bool, true, false, Option, none, some, List, [], ◌∷◌, Text,
  text_eq, ◌⊎◌, Bool-cases, inl, inr, if◌then◌else◌,
}
use stenograma.Transcript.{Segment, or_empty, trim}
use stenograma.Transcript.Hallucinations.{
  Pattern, some_matches, looks_like_hallucination, no_speaker, should_remove, kept,
  filter_hallucinations,
}

-- Some pattern of the list matches the text.
abbrev pub IsMatched : List Pattern → Text → Type 0
IsMatched [] t = ⊥
IsMatched (re ∷ res) t = (re t ≡ true) ⊎ IsMatched res t

-- A segment that the filter takes out: without its outer white space its text is empty or matches a
-- pattern, and the transcript is not diarized or nobody speaks the segment.
abbrev pub IsHallucination : Bool → List Pattern → Segment → Type 0
IsHallucination diarized patterns s =
    ((trim (or_empty s.text) ≡ []) ⊎ IsMatched patterns (trim (or_empty s.text)))
    × ((diarized ≡ false) ⊎ ((s.speaker ≡ none) ⊎ (s.speaker ≡ some [])))

-- The segments of a transcript, those that are left of them in their order, and how many are gone.
pub data IsFiltered (diarized : Bool) (patterns : List Pattern)
    : List Segment → List Segment → ℕ → Type 0 where
  nothing : IsFiltered diarized patterns [] [] 0
  taken_out :
      {s : Segment} {ss left : List Segment} {n : ℕ}
      → IsHallucination diarized patterns s
      → IsFiltered diarized patterns ss left n
      → IsFiltered diarized patterns (s ∷ ss) left (n + 1)
  left_in :
      {s : Segment} {ss left : List Segment} {n : ℕ}
      → (IsHallucination diarized patterns s → ⊥)
      → IsFiltered diarized patterns ss left n
      → IsFiltered diarized patterns (s ∷ ss) (s ∷ left) n

IsMatched-some_matches :
    (patterns : List Pattern) (t : Text) → some_matches patterns t ≡ true → IsMatched patterns t
unfolding some_matches
IsMatched-some_matches [] t h = cc
IsMatched-some_matches (re ∷ res) t h = elim (Bool-cases (re t)) [
  | inl fits ↦ inl fits
  | inr other ↦ inr (IsMatched-some_matches res t (rw other at h))
]

some_matches-IsMatched :
    (patterns : List Pattern) (t : Text) → IsMatched patterns t → some_matches patterns t ≡ true
unfolding some_matches
some_matches-IsMatched [] t h = absurd h
some_matches-IsMatched (re ∷ res) t (inl fits) = rw fits refl
some_matches-IsMatched (re ∷ res) t (inr later) = elim (Bool-cases (re t)) [
  | inl fits ↦ rw fits refl
  | inr other ↦ rw other (some_matches-IsMatched res t later)
]

empty_text : (t : Text) → text_eq t [] ≡ true → t ≡ []
unfolding text_eq
empty_text [] h = refl
empty_text (c ∷ cs) h = cc

looks-IsMatched :
    (text : Option Text) (patterns : List Pattern)
    → looks_like_hallucination text patterns ≡ true
    → (trim (or_empty text) ≡ []) ⊎ IsMatched patterns (trim (or_empty text))
unfolding looks_like_hallucination
looks-IsMatched text patterns h = elim (Bool-cases (text_eq (trim (or_empty text)) [])) [
  | inl blank ↦ inl (empty_text (trim (or_empty text)) blank)
  | inr written ↦ inr (IsMatched-some_matches patterns (trim (or_empty text)) (rw written at h))
]

IsMatched-looks :
    (text : Option Text) (patterns : List Pattern)
    → (trim (or_empty text) ≡ []) ⊎ IsMatched patterns (trim (or_empty text))
    → looks_like_hallucination text patterns ≡ true
unfolding looks_like_hallucination text_eq
IsMatched-looks text patterns (inl blank) = rw blank refl
IsMatched-looks text patterns (inr matched) =
    elim (Bool-cases (text_eq (trim (or_empty text)) [])) [
      | inl blank ↦ rw blank refl
      | inr written ↦ rw written (some_matches-IsMatched patterns (trim (or_empty text)) matched)
    ]

nobody : (o : Option Text) → no_speaker o ≡ true → (o ≡ none) ⊎ (o ≡ some [])
nobody none h = inl refl
nobody (some t) h = inr (ap some (empty_text t h))

no_speaker_of : (o : Option Text) → (o ≡ none) ⊎ (o ≡ some []) → no_speaker o ≡ true
unfolding text_eq
no_speaker_of o (inl e) = rw e refl
no_speaker_of o (inr e) = rw e refl

should_remove-IsHallucination :
    (diarized : Bool) (patterns : List Pattern) (s : Segment)
    → should_remove diarized patterns s ≡ true
    → IsHallucination diarized patterns s
unfolding should_remove
should_remove-IsHallucination diarized patterns s h =
    elim (Bool-cases (looks_like_hallucination s.text patterns)) [
      | inl looks ↦ (looks-IsMatched s.text patterns looks, unspoken diarized (rw looks at h))
      | inr fine ↦ absurd (clash (rw fine at h))
    ]
  where
    clash : false ≡ true → ⊥
    clash p = cc

    unspoken :
        (d : Bool)
        → (if d then no_speaker s.speaker else true) ≡ true
        → (d ≡ false) ⊎ ((s.speaker ≡ none) ⊎ (s.speaker ≡ some []))
    unspoken false h = inl refl
    unspoken true h = inr (nobody s.speaker h)

IsHallucination-should_remove :
    (diarized : Bool) (patterns : List Pattern) (s : Segment)
    → IsHallucination diarized patterns s
    → should_remove diarized patterns s ≡ true
unfolding should_remove
IsHallucination-should_remove diarized patterns s (looks, inl plain) =
    rw (IsMatched-looks s.text patterns looks) (rw plain refl)
IsHallucination-should_remove false patterns s (looks, inr unspoken) =
    rw (IsMatched-looks s.text patterns looks) refl
IsHallucination-should_remove true patterns s (looks, inr unspoken) =
    rw (IsMatched-looks s.text patterns looks) (rw (no_speaker_of s.speaker unspoken) refl)

kept-IsFiltered :
    (diarized : Bool) (patterns : List Pattern) (ss : List Segment)
    → IsFiltered diarized patterns ss (kept diarized patterns ss).0 (kept diarized patterns ss).1
unfolding kept
kept-IsFiltered diarized patterns [] = nothing
kept-IsFiltered diarized patterns (s ∷ ss) = elim (Bool-cases (should_remove diarized patterns s)) [
  | inl gone ↦ rw gone (
      taken_out (should_remove-IsHallucination diarized patterns s gone)
        (kept-IsFiltered diarized patterns ss))
  | inr stays ↦ rw stays (
      left_in (λ h. clash (sym (IsHallucination-should_remove diarized patterns s h) ∙ stays))
        (kept-IsFiltered diarized patterns ss))
]
  where
    clash : true ≡ false → ⊥
    clash p = cc

kept_again :
    (diarized : Bool) (patterns : List Pattern) (ss : List Segment)
    → kept diarized patterns (kept diarized patterns ss).0 ≡ ((kept diarized patterns ss).0, 0)
unfolding kept
kept_again diarized patterns [] = refl
kept_again diarized patterns (s ∷ ss) = elim (Bool-cases (should_remove diarized patterns s)) [
  | inl gone ↦ rw gone (kept_again diarized patterns ss)
  | inr stays ↦ rw stays (rw (kept_again diarized patterns ss) (rw stays refl))
]

-- The filter takes out exactly the segments whose trimmed text is empty or matches a pattern, in a
-- diarized transcript only those that nobody speaks; it leaves the others in their order and counts
-- what it takes out; and a second run takes out nothing.
pub filter_hallucinations-IsFiltered :
    (diarized : Bool) (patterns : List Pattern) (ss : List Segment)
    → IsFiltered diarized patterns ss
        (filter_hallucinations true diarized patterns ss).segments
        (filter_hallucinations true diarized patterns ss).removed
      × (filter_hallucinations true diarized patterns
            (filter_hallucinations true diarized patterns ss).segments
          ≡ record (filter_hallucinations true diarized patterns ss) { removed = 0 })
unfolding filter_hallucinations
filter_hallucinations-IsFiltered diarized patterns ss =
    (kept-IsFiltered diarized patterns ss, rw (kept_again diarized patterns ss) refl)
