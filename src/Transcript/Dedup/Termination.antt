-- ===== src/Transcript/Dedup/Termination.antt =====
-- The two functions that collapse repetitions end, and what they return (backend/utils/transcriptDedup.js).
use stenograma.Prelude.{
  false, ℕ, ◌+◌, ◌*◌, ◌<◌, ◌≡◌, refl, true, some, List, [], ◌∷◌, Text, length, ◌⊎◌, if◌then◌else◌,
  ◌++◌, filter_by, not,
}
use stenograma.Value.Coerce.{is_space}
use stenograma.Transcript.{Segment, or_empty, normalize}
use stenograma.Transcript.Dedup.{
  Collapsed, shown, segment_note, phrase_note, dedup_segments, segment_key, collapsed_segment,
  join_with, DedupedText, parts_of, includes_unit,
}
use stenograma.Transcript.Dedup.Runs.{IsCut}
use stenograma.Transcript.Dedup.Counts.{IsCollapse, collapse-IsCut, IsCut-IsCollapse}

-- The collapse of segments ends, with more fuel than segments. It cuts them into the longest runs of
-- equal keys that are not empty; each run of at least `min_run` segments, and no other, becomes its
-- first segment with the end of its last one and the note of its length behind its text, and all else
-- stays. It counts the collapsed runs, and the removed segments, which with those that it returns are all
-- segments; where no run was collapsed the segments are as they were.
pub dedup_segments-IsCut :
    (min_run fuel : ℕ) (segments : List Segment)
    → length segments < fuel
    → (c : Collapsed Segment) × (dedup_segments fuel min_run segments ≡ some c)
      × IsCut
          (λ s. normalize (or_empty s.text))
          min_run
          (λ first last n.
            record first { end = last.end; text = some (shown first.text ++ segment_note n) } ∷ [])
          segments
          c.items
          c.collapsed_runs
          c.removed_items
      × IsCollapse 0 segments c
unfolding dedup_segments
dedup_segments-IsCut min_run fuel segments h =
    let (c, is, cut) = collapse-IsCut segment_key min_run collapsed_segment fuel segments h in
    (c, is, cut, IsCut-IsCollapse segment_key min_run collapsed_segment 0 (λ a b n. refl) cut)

-- What is no white space in a text, and in the texts of a list.
abbrev pub letters : Text → Text
letters t = filter_by (λ c. not (is_space c)) t

abbrev pub all_letters : List Text → Text
all_letters [] = []
all_letters (t ∷ ts) = letters t ++ all_letters ts

-- What a text that is not empty becomes.
pub record IsDeduped (min_run : ℕ) (text : Text) (d : DedupedText) : Type 0 where
  -- The parts of the text: its lines, if there is more than one, and else its sentences.
  pub whole :
      ((includes_unit 10 text ≡ true) × (join_with 10 (parts_of text) ≡ text))
      ⊎ ((includes_unit 10 text ≡ false) × (all_letters (parts_of text) ≡ letters text))
  pub items : List Text
  pub cut :
      IsCut normalize min_run
        (λ first last n. first ∷ phrase_note n ∷ [])
        (parts_of text)
        items
        d.collapsed_runs
        d.removed_items
  pub accounted : length items + d.removed_items ≡ length (parts_of text) + d.collapsed_runs * 1
  pub joined : d.text ≡ join_with (if includes_unit 10 text then 10 else 32) items
  pub lengths : (d.original_length ≡ length text) × (d.deduped_length ≡ length d.text)
  pub untouched : (includes_unit 10 text ≡ false) ⊎ ((0 < d.collapsed_runs) ⊎ (d.text ≡ text))
