-- ===== src/Audit/Ordered.antt =====
-- Rows in the descending order of their numbers, and what a cursor selects of them (`queryPage` of
-- backend/utils/auditStore/memoryStore.js).
use stenograma.Prelude.{
  ℕ, zero, suc, ◌≤◌, ◌<◌, ◌≡◌, refl, sym, ◌∙◌, ap, Bool, true, false, some, List, [], ◌∷◌, ◌++◌,
  All, filter_by, take, length, leb, ltb, arith, Bool-cases, inl, inr,
}
use mathlib.Core.Path.{subst}
use mathlib.Core.Option.{some-injective}
use stenograma.Audit.{Row, insert_by_seq, sort_by_seq, is_after, last_seq, drop_rows}
use stenograma.Audit.Rows.{Ascending, All-filter_by}

abbrev pub Descending : List Row → Type 0
Descending [] = Unit
Descending (e ∷ es) = All (λ (f : Row). f.seq < e.seq) es × Descending es

pub Descending-filter_by :
    (p : Row → Bool) (es : List Row) → Descending es → Descending (filter_by p es)
Descending-filter_by p [] h = tt
Descending-filter_by p (e ∷ es) (q, h) = elim (Bool-cases (p e)) [
  | inl stays ↦ rw stays (All-filter_by (λ f. f.seq < e.seq) p es q, Descending-filter_by p es h)
  | inr gone ↦ rw gone (Descending-filter_by p es h)
]

All-insert_by_seq :
    (P : Row → Type 0) (e : Row) (fs : List Row) → P e → All P fs → All P (insert_by_seq e fs)
unfolding insert_by_seq
All-insert_by_seq P e [] p h = (p, tt)
All-insert_by_seq P e (f ∷ fs) p (q, h) = elim (Bool-cases (leb f.seq e.seq)) [
  | inl first ↦ rw first (p, (q, h))
  | inr later ↦ rw later (q, All-insert_by_seq P e fs p h)
]

All-sort_by_seq : (P : Row → Type 0) (es : List Row) → All P es → All P (sort_by_seq es)
unfolding sort_by_seq
All-sort_by_seq P [] h = tt
All-sort_by_seq P (e ∷ es) (p, h) =
    All-insert_by_seq P e (sort_by_seq es) p (All-sort_by_seq P es h)

Descending-insert_by_seq :
    (e : Row) (fs : List Row)
    → All (λ (f : Row). e.seq < f.seq) fs
    → Descending fs
    → Descending (insert_by_seq e fs)
unfolding insert_by_seq
Descending-insert_by_seq e [] q h = (tt, tt)
Descending-insert_by_seq e (f ∷ fs) (lt, q) (r, h) =
    let later : leb f.seq e.seq ≡ false = ground arith in
    rw later (All-insert_by_seq (λ g. g.seq < f.seq) e fs lt r, Descending-insert_by_seq e fs q h)

pub Descending-sort_by_seq : (es : List Row) → Ascending es → Descending (sort_by_seq es)
unfolding sort_by_seq
Descending-sort_by_seq [] h = tt
Descending-sort_by_seq (e ∷ es) (q, h) =
    Descending-insert_by_seq e (sort_by_seq es) (All-sort_by_seq (λ f. e.seq < f.seq) es q)
      (Descending-sort_by_seq es h)

filter_by-All :
    (s : ℕ) (es : List Row)
    → All (λ (f : Row). f.seq < s) es
    → filter_by (is_after (some s)) es ≡ es
filter_by-All s [] h = refl
filter_by-All s (e ∷ es) (lt, h) =
    let below : ltb e.seq s ≡ true = ground arith in
    rw below (ap (λ r. e ∷ r) (filter_by-All s es h))

pub filter_by-filter_by :
    (p r : Row → Bool) (es : List Row)
    → ((e : Row) → p e ≡ true → r e ≡ true)
    → filter_by p (filter_by r es) ≡ filter_by p es
filter_by-filter_by p r [] h = refl
filter_by-filter_by p r (e ∷ es) h = elim (Bool-cases (r e)) [
  | inl stays ↦ rw stays (elim (Bool-cases (p e)) [
    | inl holds ↦ rw holds (ap (λ t. e ∷ t) (filter_by-filter_by p r es h))
    | inr fails ↦ rw fails (filter_by-filter_by p r es h)
  ])
  | inr gone ↦ elim (Bool-cases (p e)) [
    | inl holds ↦ absurd (clash (sym (h e holds) ∙ gone))
    | inr fails ↦ rw gone (rw fails (filter_by-filter_by p r es h))
  ]
]
  where
    clash : true ≡ false → ⊥
    clash p = cc

pub last_seq-All :
    (P : ℕ → Type 0) (es : List Row) {s : ℕ}
    → All (λ (e : Row). P e.seq) es
    → last_seq es ≡ some s
    → P s
unfolding last_seq
last_seq-All P [] h is = cc
last_seq-All P (e ∷ []) {s} (p, h) is = rw (← some-injective e.seq s is) p
last_seq-All P (e ∷ f ∷ fs) (p, h) is = last_seq-All P (f ∷ fs) h is

pub All-take : (P : Row → Type 0) (n : ℕ) (es : List Row) → All P es → All P (take n es)
All-take P zero es h = tt
All-take P (suc n) [] h = tt
All-take P (suc n) (e ∷ es) (p, h) = (p, All-take P n es h)

-- What comes behind the last row of a page is what the page has left out.
pub filter_by-last_seq :
    (n : ℕ) (es : List Row) {s : ℕ}
    → Descending es
    → n < length es
    → last_seq (take (suc n) es) ≡ some s
    → filter_by (is_after (some s)) es ≡ drop_rows (suc n) es
unfolding last_seq
filter_by-last_seq n [] d lt is = absurd (omega (arith, lt))
filter_by-last_seq zero (e ∷ es) {s} (q, d) lt is =
    let at : e.seq ≡ s = some-injective e.seq s is in
    let not_below : ltb e.seq s ≡ false = ground arith in
    rw not_below (filter_by-All s es (subst (λ t. All (λ (f : Row). f.seq < t) es) at q))
filter_by-last_seq (suc n) (e ∷ []) d lt is = absurd (omega (arith, lt))
filter_by-last_seq (suc n) (e ∷ f ∷ fs) {s} (q, d) lt is =
    let below : s < e.seq =
      last_seq-All (λ t. t < e.seq) (take (suc n) (f ∷ fs))
        (All-take (λ g. g.seq < e.seq) (suc n) (f ∷ fs) q) is in
    let not_below : ltb e.seq s ≡ false = ground arith in
    rw not_below (filter_by-last_seq n (f ∷ fs) d (omega (arith, lt)) is)

pub take-take : (n : ℕ) (es : List Row) → take n (take (suc n) es) ≡ take n es
take-take zero es = refl
take-take (suc n) [] = refl
take-take (suc n) (e ∷ es) = ap (λ r. e ∷ r) (take-take n es)

pub take-all : (n : ℕ) (es : List Row) → length es ≤ n → take n es ≡ es
take-all zero [] h = refl
take-all zero (e ∷ es) h = absurd (omega (arith, h))
take-all (suc n) [] h = refl
take-all (suc n) (e ∷ es) h = ap (λ r. e ∷ r) (take-all n es (omega (arith, h)))

pub take-drop_rows : (n : ℕ) (es : List Row) → take n es ++ drop_rows n es ≡ es
take-drop_rows zero es = refl
take-drop_rows (suc n) [] = refl
take-drop_rows (suc n) (e ∷ es) = ap (λ r. e ∷ r) (take-drop_rows n es)

pub length-drop_rows :
    (n : ℕ) (es : List Row) → n < length es → length (drop_rows (suc n) es) < length es
length-drop_rows n [] h = absurd (omega (arith, h))
length-drop_rows zero (e ∷ es) h = omega arith
length-drop_rows (suc n) (e ∷ es) h = omega (arith, length-drop_rows n es (omega (arith, h)))

pub last_seq-take :
    (n : ℕ) (e : Row) (es : List Row) → (s : ℕ) × (last_seq (take (suc n) (e ∷ es)) ≡ some s)
unfolding last_seq
last_seq-take zero e es = (e.seq, refl)
last_seq-take (suc n) e [] = (e.seq, refl)
last_seq-take (suc n) e (f ∷ fs) = last_seq-take n f fs
