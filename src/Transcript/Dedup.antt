-- ===== src/Transcript/Dedup.antt =====
-- The collapsing of repetitions (backend/utils/transcriptDedup.js): runs of equal items, for the segments
-- and for the lines or sentences of a text.
pub mod Runs
pub mod Counts
pub mod Termination
use stenograma.Prelude.{
  ℕ, zero, suc, ◌+◌, ◌-◌, ◌*◌, ◌/◌, ◌≤◌, ◌<◌, ◌≡◌, refl, sym, ◌∙◌, ap, Bool, true, false, ◌&&◌,
  ◌||◌, not, Option, none, some, List, [], ◌∷◌, ◌++◌, map, Text, text_eq, codes, length, leb, ltb,
  arith, Bool-cases, inl, inr, if◌then◌else◌, take, length-append, length-take, ◌==◌, min,
}
use stenograma.Value.Coerce.{is_space}
use stenograma.Transcript.{Segment, or_empty, normalize}

-- What a collapse returns: the items, the number of collapsed runs and the number of removed items.
pub record Collapsed {ℓ} (A : Type ℓ) : Type ℓ where
  pub items : List A
  pub collapsed_runs : ℕ
  pub removed_items : ℕ

-- `key(a) === key`, where an empty key is never repeated.
abbrev pub repeats : Text → Text → Bool
repeats key other = text_eq other key && not (text_eq key [])

module _ {ℓ} {A : Type ℓ} (key : A → Text) where
  -- The inner loop: how many of the items that follow repeat the key.
  unfoldable pub run_length : Text → List A → ℕ
  run_length k [] = 0
  run_length k (x ∷ xs) = let n = run_length k xs in if repeats k (key x) then n + 1 else 0

  abbrev pub skip : ℕ → List A → List A
  skip zero xs = xs
  skip (suc n) [] = []
  skip (suc n) (x ∷ xs) = skip n xs

  -- The last item of a run of `n` more after `x`.
  abbrev pub last_of : A → ℕ → List A → A
  last_of x zero xs = x
  last_of x (suc n) [] = x
  last_of x (suc n) (y ∷ ys) = last_of y n ys

  -- The outer loop; `replaced first last n` is what a run of `n` items becomes, and `kept` says how many
  -- of its items that keeps. `none` when the fuel runs out.
  unfoldable pub collapse : ℕ → ℕ → (A → A → ℕ → List A) → List A → Option (Collapsed A)
  unfolding run_length
  collapse zero min_run replaced xs = none
  collapse (suc fuel) min_run replaced [] =
      some (record { items = []; collapsed_runs = 0; removed_items = 0 })
  collapse (suc fuel) min_run replaced (x ∷ xs) =
      let n = run_length (key x) xs in
      let rest = collapse fuel min_run replaced (skip n xs) in
      elim rest [
        | none ↦ none
        | some c ↦
            if leb min_run (n + 1)
            then some (record {
              items = replaced x (last_of x n xs) (n + 1) ++ c.items;
              collapsed_runs = c.collapsed_runs + 1;
              removed_items = c.removed_items + n;
            })
            else some (record {
              items = (x ∷ take n xs) ++ c.items;
              collapsed_runs = c.collapsed_runs;
              removed_items = c.removed_items;
            })
      ]

-- The decimal digits of a number, behind those that are there; the fuel bounds their count.
unfoldable pub digits : ℕ → ℕ → Text → Text
digits zero n acc = acc
digits (suc fuel) n acc =
    let d = 48 + (n - 10 * (n / 10)) in
    let more = digits fuel (n / 10) (d ∷ acc) in if n / 10 == 0 then d ∷ acc else more

-- The note on a collapsed segment. Its letters outside ASCII are written by their code units.
unfoldable pub segment_note : ℕ → Text
unfolding digits
segment_note n =
    codes " [ta pati fraz"
    ++ (279 ∷ codes " kartojosi ")
    ++ digits (n + 1) n []
    ++ codes " kartus i"
    ++ (353 ∷ codes " eil")
    ++ (279 ∷ 115 ∷ codes " ")
    ++ (353 ∷ codes "iame laiko intervale]")

abbrev pub segment_key : Segment → Text
segment_key s = normalize (or_empty s.text)

-- What a template writes for a text; one that is missing is `undefined`.
abbrev pub shown : Option Text → Text
shown none = codes "undefined"
shown (some t) = t

abbrev pub collapsed_segment : Segment → Segment → ℕ → List Segment
collapsed_segment first last n =
    record first { end = last.end; text = some (shown first.text ++ segment_note n) } ∷ []

-- `dedupSegments(segments, { minRun })`.
unfoldable pub dedup_segments : ℕ → ℕ → List Segment → Option (Collapsed Segment)
unfolding collapse segment_note
dedup_segments fuel min_run segments = collapse segment_key fuel min_run collapsed_segment segments

-- The note on a collapsed phrase of a text.
unfoldable pub phrase_note : ℕ → Text
unfolding digits
phrase_note n =
    codes "[ta pati fraz"
    ++ (279 ∷ codes " kartojosi ")
    ++ digits (n + 1) n []
    ++ codes " kartus i"
    ++ (353 ∷ codes " eil")
    ++ (279 ∷ codes "s - tik")
    ++ (279 ∷ codes "tina transkripcijos artefaktas arba daugkartinis pasikartojimas, ")
    ++ codes "pvz. balsavimas]"

-- `text.split("\n")`.
unfoldable pub split_lines : Text → Text × List Text
split_lines [] = ([], [])
split_lines (c ∷ cs) =
    let (line, lines) = split_lines cs in if c == 10 then ([], line ∷ lines) else (c ∷ line, lines)

-- Where the scan of `text.split(/(?<=[.!?])\s+/)` stands: in a sentence, behind its stop, or in the white
-- space behind it.
pub data Place : Type 0 where
  inside stopped between : Place

abbrev pub is_stop : ℕ → Bool
is_stop c = c == 46 || c == 33 || c == 63

abbrev pub place_of : ℕ → Place
place_of c = if is_stop c then stopped else inside

unfoldable pub split_sentences : Place → Text → Text × List Text
split_sentences place [] = ([], [])
split_sentences inside (c ∷ cs) =
    let (first, rest) = split_sentences (place_of c) cs in (c ∷ first, rest)
split_sentences stopped (c ∷ cs) =
    let (next, others) = split_sentences between cs in
    let (first, rest) = split_sentences (place_of c) cs in
    if is_space c then ([], next ∷ others) else (c ∷ first, rest)
split_sentences between (c ∷ cs) =
    let skipped = split_sentences between cs in
    let (first, rest) = split_sentences (place_of c) cs in
    if is_space c then skipped else (c ∷ first, rest)

-- `parts.join(joiner)`, for a joiner of one unit.
unfoldable pub join_with : ℕ → List Text → Text
join_with c [] = []
join_with c (t ∷ []) = t
join_with c (t ∷ u ∷ ts) = t ++ (c ∷ join_with c (u ∷ ts))

abbrev pub includes_unit : ℕ → Text → Bool
includes_unit c [] = false
includes_unit c (d ∷ ds) = d == c || includes_unit c ds

abbrev pub collapsed_phrase : Text → Text → ℕ → List Text
collapsed_phrase first last n = first ∷ phrase_note n ∷ []

pub record DedupedText : Type 0 where
  pub text : Text
  pub collapsed_runs : ℕ
  pub removed_items : ℕ
  pub original_length : ℕ
  pub deduped_length : ℕ

abbrev pub parts_of : Text → List Text
parts_of text =
    if includes_unit 10 text
    then (let (line, lines) = split_lines text in line ∷ lines)
    else (let (first, rest) = split_sentences inside text in first ∷ rest)

abbrev pub joined : Text → ℕ → Option (Collapsed Text) → Option DedupedText
joined text joiner none = none
joined text joiner (some c) =
    let deduped = join_with joiner c.items in
    some (record {
      text = deduped;
      collapsed_runs = c.collapsed_runs;
      removed_items = c.removed_items;
      original_length = length text;
      deduped_length = length deduped;
    })

-- `dedupTranscriptText(text, { minRun })`; a text that is missing is empty.
unfoldable pub dedup_transcript_text : ℕ → ℕ → Text → Option DedupedText
unfolding split_lines split_sentences join_with collapse phrase_note
dedup_transcript_text fuel min_run text =
    if text_eq text []
    then some (record {
      text = [];
      collapsed_runs = 0;
      removed_items = 0;
      original_length = 0;
      deduped_length = 0;
    })
    else joined text (if includes_unit 10 text then 10 else 32)
        (collapse normalize fuel min_run collapsed_phrase (parts_of text))
