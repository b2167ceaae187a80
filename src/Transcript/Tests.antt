-- ===== src/Transcript/Tests.antt =====
-- Concrete transcripts (backend/utils/mergeDiarization.js, backend/utils/transcriptDedup.js and
-- backend/utils/filterHallucinations.js).
use stenograma.Prelude.{
  ℕ, ◌≡◌, true, not, Option, none, some, List, [], ◌∷◌, ◌++◌, Text, codes, filter_by, arith,
}
use stenograma.Transcript.{Segment, or_empty, normalize}
use stenograma.Transcript.Diarization.{
  Turn, AreMerged, merge_diarization, merge_diarization-AreMerged,
}
use stenograma.Transcript.Dedup.{Collapsed, dedup_segments, shown, segment_note}
use stenograma.Transcript.Dedup.Runs.{IsCut}
use stenograma.Transcript.Dedup.Counts.{IsCollapse}
use stenograma.Transcript.Dedup.Termination.{dedup_segments-IsCut}
use stenograma.Transcript.Hallucinations.{
  Pattern, filter_hallucinations, no_speaker, filter_hallucinations_spares,
}
use stenograma.Transcript.Hallucinations.Selection.{IsFiltered, filter_hallucinations-IsFiltered}

abbrev said : ℕ → ℕ → Option Text → Segment
said from to who = record { start = from; end = to; text = some (codes "Taip."); speaker = who }

abbrev four : List Segment
four = said 0 2 none ∷ said 2 4 none ∷ said 4 6 (some (codes "A")) ∷ said 6 8 none ∷ []

abbrev two_turns : List Turn
two_turns =
    record { start = 0; end = 3; speaker = some (codes "A") }
    ∷ record { start = 3; end = 6; speaker = some (codes "B") }
    ∷ []

-- The pattern that every text matches.
abbrev everything : Pattern
everything t = true

merge_diarization-AreMerged_example : AreMerged two_turns four (merge_diarization four two_turns)
merge_diarization-AreMerged_example = merge_diarization-AreMerged four two_turns

dedup_segments-IsCut_example :
    (c : Collapsed Segment) × (dedup_segments 5 3 four ≡ some c)
    × IsCut
        (λ s. normalize (or_empty s.text))
        3
        (λ first last n.
          record first { end = last.end; text = some (shown first.text ++ segment_note n) } ∷ [])
        four
        c.items
        c.collapsed_runs
        c.removed_items
    × IsCollapse 0 four c
dedup_segments-IsCut_example = dedup_segments-IsCut 3 5 four (omega arith)

abbrev three_lines : Text
three_lines = 97 ∷ 10 ∷ 97 ∷ 10 ∷ 97 ∷ []

filter_hallucinations-IsFiltered_example :
    IsFiltered true
      (everything ∷ [])
      four
      (filter_hallucinations true true (everything ∷ []) four).segments
      (filter_hallucinations true true (everything ∷ []) four).removed
    × (filter_hallucinations true true
          (everything ∷ [])
          (filter_hallucinations true true (everything ∷ []) four).segments
        ≡ record (filter_hallucinations true true (everything ∷ []) four) { removed = 0 })
filter_hallucinations-IsFiltered_example =
    filter_hallucinations-IsFiltered true (everything ∷ []) four

filter_hallucinations_spares_example :
    filter_by
      (λ s. not (no_speaker s.speaker))
      (filter_hallucinations true true (everything ∷ []) four).segments
    ≡ filter_by (λ s. not (no_speaker s.speaker)) four
filter_hallucinations_spares_example = filter_hallucinations_spares (everything ∷ []) four
