-- ===== src/Transcript/Diarization.antt =====
-- The merge of a transcript with an independent diarization (backend/utils/mergeDiarization.js).
use stenograma.Prelude.{
  ℕ, ◌-◌, ◌≤◌, ◌<◌, ◌≡◌, refl, min, max, Option, none, some, List, [], ◌∷◌, map, Text, ltb, All,
  arith, Bool-cases, inl, inr, if◌then◌else◌,
}
use stenograma.Transcript.{Segment}

pub record Turn : Type 0 where
  pub start : ℕ
  pub end : ℕ
  pub speaker : Option Text

-- `Math.max(0, Math.min(seg.end, turn.end) - Math.max(seg.start, turn.start))`.
unfoldable pub overlap : Segment → Turn → ℕ
overlap seg turn = min seg.end turn.end - max seg.start turn.start

-- The inner loop, with the best turn so far and its overlap.
unfoldable pub best_turn : Segment → List Turn → Option Turn → ℕ → Option Turn
unfolding overlap
best_turn seg [] best best_overlap = best
best_turn seg (turn ∷ turns) best best_overlap =
    let better = best_turn seg turns (some turn) (overlap seg turn) in
    let as_good = best_turn seg turns best best_overlap in
    if ltb best_overlap (overlap seg turn) then better else as_good

abbrev pub speaker_of : Option Turn → Option Text → Option Text
speaker_of none old = old
speaker_of (some turn) old = turn.speaker

unfoldable pub with_speaker : List Turn → Segment → Segment
unfolding best_turn
with_speaker turns seg = record seg {
  speaker = speaker_of (best_turn seg turns none 0) seg.speaker;
}

-- `mergeDiarization(segments, turns)`, for arrays.
unfoldable pub merge_diarization : List Segment → List Turn → List Segment
unfolding with_speaker
merge_diarization segments [] = segments
merge_diarization segments (t ∷ ts) = map (with_speaker (t ∷ ts)) segments

-- A turn that stands in a list.
pub data IsIn (turn : Turn) : List Turn → Type 0 where
  here : {turns : List Turn} → IsIn turn (turn ∷ turns)
  later : {t : Turn} {turns : List Turn} → IsIn turn turns → IsIn turn (t ∷ turns)

-- What the inner loop finds from a best turn so far on.
data Found (seg : Segment) (turns : List Turn) (best : Option Turn) (n : ℕ)
    : Option Turn → Type 0 where
  kept : All (λ (t : Turn). overlap seg t ≤ n) turns → Found seg turns best n best
  better :
      (turn : Turn)
      → IsIn turn turns
      → n < overlap seg turn
      → All (λ (t : Turn). overlap seg t ≤ overlap seg turn) turns
      → Found seg turns best n (some turn)

weaken :
    (seg : Segment) (n m : ℕ) (turns : List Turn)
    → n ≤ m
    → All (λ (t : Turn). overlap seg t ≤ n) turns
    → All (λ (t : Turn). overlap seg t ≤ m) turns
weaken seg n m [] le h = tt
weaken seg n m (t ∷ ts) le (p, h) = (omega (arith, le, p), weaken seg n m ts le h)

best_turn-Found :
    (seg : Segment) (turns : List Turn) (best : Option Turn) (n : ℕ)
    → Found seg turns best n (best_turn seg turns best n)
unfolding best_turn
best_turn-Found seg [] best n = kept tt
best_turn-Found seg (t ∷ ts) best n = elim (Bool-cases (ltb n (overlap seg t))) [
  | inl more ↦
      rw more (from_better (ground arith) (best_turn-Found seg ts (some t) (overlap seg t)))
  | inr less ↦ rw less (from_kept (ground arith) (best_turn-Found seg ts best n))
]
  where
    from_better :
        {found : Option Turn}
        → n < overlap seg t
        → Found seg ts (some t) (overlap seg t) found
        → Found seg (t ∷ ts) best n found
    from_better lt (kept h) = better t here lt (omega arith, h)
    from_better lt (better turn i lt' h) =
        better turn (later i) (omega (arith, lt, lt')) (omega (arith, lt'), h)

    from_kept :
        {found : Option Turn}
        → overlap seg t ≤ n
        → Found seg ts best n found
        → Found seg (t ∷ ts) best n found
    from_kept le (kept h) = kept (le, h)
    from_kept le (better turn i lt h) = better turn (later i) lt (omega (arith, le, lt), h)

-- Who speaks in a segment: a turn with the largest overlap, if any turn overlaps it, and else whoever
-- it had.
pub data Assigned (seg : Segment) (turns : List Turn) : Option Text → Type 0 where
  silent : All (λ (t : Turn). overlap seg t ≡ 0) turns → Assigned seg turns seg.speaker
  spoken :
      (turn : Turn)
      → IsIn turn turns
      → 0 < overlap seg turn
      → All (λ (t : Turn). overlap seg t ≤ overlap seg turn) turns
      → Assigned seg turns turn.speaker

pub record IsMerged (turns : List Turn) (seg seg' : Segment) : Type 0 where
  pub same_start : seg'.start ≡ seg.start
  pub same_end : seg'.end ≡ seg.end
  pub same_text : seg'.text ≡ seg.text
  pub assigned : Assigned seg turns seg'.speaker

-- The segments of two transcripts, one by one.
abbrev pub AreMerged : List Turn → List Segment → List Segment → Type 0
AreMerged turns [] [] = Unit
AreMerged turns [] (s ∷ ss) = ⊥
AreMerged turns (s ∷ ss) [] = ⊥
AreMerged turns (s ∷ ss) (t ∷ ts) = IsMerged turns s t × AreMerged turns ss ts

Assigned-of :
    (seg : Segment) (turns : List Turn) {found : Option Turn}
    → Found seg turns none 0 found
    → Assigned seg turns (speaker_of found seg.speaker)
Assigned-of seg turns (kept h) = silent (none_overlap turns h)
  where
    none_overlap :
        (ts : List Turn)
        → All (λ (t : Turn). overlap seg t ≤ 0) ts
        → All (λ (t : Turn). overlap seg t ≡ 0) ts
    none_overlap [] h = tt
    none_overlap (t ∷ ts) (p, h) = (omega (arith, p), none_overlap ts h)
Assigned-of seg turns (better turn i lt h) = spoken turn i lt h

-- The merge keeps the number of the segments, their order, their times and their texts, and each
-- segment gets the speaker of a turn that overlaps it most, or keeps its own where no turn overlaps it.
pub merge_diarization-AreMerged :
    (segments : List Segment) (turns : List Turn)
    → AreMerged turns segments (merge_diarization segments turns)
unfolding merge_diarization with_speaker
merge_diarization-AreMerged segments [] = unchanged segments
  where
    unchanged : (ss : List Segment) → AreMerged [] ss ss
    unchanged [] = tt
    unchanged (s ∷ ss) = (
      record { same_start = refl; same_end = refl; same_text = refl; assigned = silent tt },
      unchanged ss,
    )
merge_diarization-AreMerged segments (t ∷ ts) = mapped segments
  where
    mapped : (ss : List Segment) → AreMerged (t ∷ ts) ss (map (with_speaker (t ∷ ts)) ss)
    mapped [] = tt
    mapped (s ∷ ss) = (
      record {
        same_start = refl;
        same_end = refl;
        same_text = refl;
        assigned = Assigned-of s (t ∷ ts) (best_turn-Found s (t ∷ ts) none 0);
      },
      mapped ss,
    )
