-- ===== src/Audit/Paging.antt =====
-- Following the pages of the audit (`queryPage` of backend/utils/auditStore/memoryStore.js) from the first one to
-- the last.
use stenograma.Prelude.{
  ℕ, zero, suc, ◌+◌, ◌≤◌, ◌<◌, ◌≡◌, refl, sym, ◌∙◌, ap, true, false, Option, none, some, List, [],
  ◌∷◌, ◌++◌, All, filter_by, take, length, ltb, arith, Bool-cases, inl, inr, length-take,
}
use stenograma.Result.{Result, ok, err}
use stenograma.Audit.{
  Row, Log, Query, Page, tinka, sort_by_seq, is_after, is_below, surikiuoti, last_seq, query_page,
  drop_rows,
}
use stenograma.Audit.Rows.{IsLog, Ascending-filter_by}
use stenograma.Audit.Ordered.{
  Descending, Descending-filter_by, Descending-sort_by_seq, filter_by-filter_by, filter_by-last_seq,
  last_seq-All, All-take, take-take, take-all, take-drop_rows, length-drop_rows, last_seq-take,
}

-- The rows of all pages from `after` on, as a client gets them that follows `nextAfterSeq` until it is `null`;
-- `none` when the fuel runs out or a page fails.
abbrev follow : Result Page → (ℕ → Option (List Row)) → Option (List Row)
follow (err e) more = none
follow (ok page) more = elim page.next_after_seq [
  | none ↦ some page.entries
  | some s ↦ elim (more s) [ none ↦ none | some rest ↦ some (page.entries ++ rest) ]
]

unfoldable pub all_pages : ℕ → ℕ → Option ℕ → Query → Log → Option (List Row)
unfolding query_page
all_pages zero limit after q log = none
all_pages (suc fuel) limit after q log =
    follow (query_page limit after q log) (λ s. all_pages fuel limit (some s) q log)

last_page :
    (n : ℕ) (after : Option ℕ) (q : Query) (log : Log)
    → length (surikiuoti q after log) ≤ suc n
    → query_page (suc n) after q log
      ≡ ok (record { entries = surikiuoti q after log; next_after_seq = none })
unfolding query_page
last_page n after q log h =
    let found = surikiuoti q after log in
    let whole = take-all (suc n + 1) found (omega (arith, h)) in
    let fits : ltb (suc n) (length found) ≡ false = ground arith in
    rw (query_page, whole) (rw fits refl)

other_page :
    (n : ℕ) (after : Option ℕ) (q : Query) (log : Log) {s : ℕ}
    → suc n < length (surikiuoti q after log)
    → last_seq (take (suc n) (surikiuoti q after log)) ≡ some s
    → query_page (suc n) after q log
      ≡ ok (record { entries = take (suc n) (surikiuoti q after log); next_after_seq = some s })
unfolding query_page
other_page n after q log h last =
    let found = surikiuoti q after log in
    let one_more : suc n + 1 ≡ suc (suc n) = omega arith in
    let size = length-take (suc (suc n)) found in
    let more : ltb (suc n) (length (take (suc (suc n)) found)) ≡ true = ground (arith, size, h) in
    let cut : take (suc n) (take (suc n + 1) found) ≡ take (suc n) found =
      rw one_more (take-take (suc n) found) in
    rw (query_page, one_more) (rw more (rw (take-take (suc n) found) (rw last (rw cut refl))))

module _ (n : ℕ) (q : Query) (log : Log) (good : IsLog log) where
  Descending-surikiuoti : (after : Option ℕ) → Descending (surikiuoti q after log)
  unfolding surikiuoti
  Descending-surikiuoti after =
      Descending-filter_by (is_after after) (sort_by_seq (filter_by (tinka q) log.eilutes)) (
        Descending-sort_by_seq (filter_by (tinka q) log.eilutes)
          (Ascending-filter_by (tinka q) log.eilutes good.ascending))

  -- What the next cursor selects is what the page has left out.
  next_rows :
      (after : Option ℕ) {s : ℕ}
      → suc n < length (surikiuoti q after log)
      → last_seq (take (suc n) (surikiuoti q after log)) ≡ some s
      → surikiuoti q (some s) log ≡ drop_rows (suc n) (surikiuoti q after log)
  unfolding surikiuoti
  next_rows after {s} h last =
      let sorted = sort_by_seq (filter_by (tinka q) log.eilutes) in
      let found = filter_by (is_after after) sorted in
      sym (
        filter_by-filter_by (is_after (some s)) (is_after after) sorted (
          narrower after s (
            last_seq-All (λ t. is_below after t ≡ true) (take (suc n) found)
              (All-take (λ e. is_after after e ≡ true) (suc n) found (all_pass after sorted))
              last)))
      ∙ filter_by-last_seq n found (Descending-surikiuoti after) (omega (arith, h)) last
    where
      narrower :
          (after : Option ℕ) (s : ℕ)
          → is_below after s ≡ true
          → (e : Row) → is_after (some s) e ≡ true
          → is_after after e ≡ true
      narrower none s h e g = refl
      narrower (some a) s h e g = ground arith

      all_pass :
          (after : Option ℕ) (es : List Row)
          → All (λ (e : Row). is_after after e ≡ true) (filter_by (is_after after) es)
      all_pass after [] = tt
      all_pass after (e ∷ es) = elim (Bool-cases (is_after after e)) [
        | inl stays ↦ rw stays (stays, all_pass after es)
        | inr gone ↦ rw gone (all_pass after es)
      ]

  -- A client that follows the cursors gets everything: page after page of one row or more, from
  -- wherever it starts, are together the rows that match, each once and the newest first, and the pages
  -- come to an end, if the log has its order.
  pub all_pages_lem :
      (fuel : ℕ) (after : Option ℕ)
      → length (surikiuoti q after log) < fuel
      → all_pages fuel (suc n) after q log ≡ some (surikiuoti q after log)
  unfolding all_pages
  all_pages_lem zero after h = absurd (omega (arith, h))
  all_pages_lem (suc fuel) after h =
      elim (Bool-cases (ltb (suc n) (length (surikiuoti q after log)))) [
        | inr fits ↦ rw (last_page n after q log (ground arith)) refl
        | inl more ↦
            let longer : suc n < length (surikiuoti q after log) = ground arith in
            let (s, last) = has_last (surikiuoti q after log) longer in
            let left = next_rows after longer last in
            let shorter = length-drop_rows n (surikiuoti q after log) (omega (arith, longer)) in
            let enough : length (surikiuoti q (some s) log) < fuel =
              rw left (omega (arith, shorter, h)) in
            rw (other_page n after q log longer last) (
              rw (all_pages_lem fuel (some s) enough)
                (rw left (ap some (take-drop_rows (suc n) (surikiuoti q after log)))))
      ]
    where
      has_last :
          (es : List Row) → suc n < length es → (s : ℕ) × (last_seq (take (suc n) es) ≡ some s)
      has_last [] lt = absurd (omega (arith, lt))
      has_last (e ∷ es) lt = last_seq-take n e es
