-- ===== src/Tombstones/Replay/Kept.antt =====
-- What no turn of a replay undoes (backend/utils/erasureReplay.js): a job whose mark is deleted, and a job
-- that has no mark.
use stenograma.Prelude.{
  ℕ, ◌≡◌, refl, ◌∙◌, ap, Bool, true, false, Option, none, some, Text, text_eq, Bool-cases,
  Option-cases, inl, inr, if◌then◌else◌, eq_of_text_eq,
}
use stenograma.Prelude.Map.{get, set, get-set_ne}
use stenograma.Result.{Result, Error, ok, err}
use stenograma.Tombstones.{
  Status, pending, deleted, failed, ActorKind, Given, undefined, FailureKind, status_eq,
  includes_status, allowed_sources,
}
use stenograma.Tombstones.Memory.{
  Mark, Marks, Options, get_mark, is_blank, transition, perkelti, moved_found, next_actor, moved,
}
use stenograma.Tombstones.Safety.{transition_deleted, transition-IsMove}
use stenograma.Tombstones.Facade.{retry, complete, authoritative}

-- A mark that is deleted, or, for `true`, none at all.
abbrev pub is_final : Bool → Option Mark → Bool
is_final c none = c
is_final c (some z) = status_eq z.status deleted

abbrev pub final_at : Bool → Text → Marks → Bool
final_at c j zymos = is_final c (get_mark j zymos)

deleted_of : (s : Status) → status_eq s deleted ≡ true → s ≡ deleted
deleted_of pending h = cc
deleted_of deleted h = refl
deleted_of failed h = cc

final_at-set :
    (c : Bool) (j k : Text) (z : Mark) (zymos : Marks)
    → text_eq k j ≡ false
    → final_at c j (set k z zymos) ≡ final_at c j zymos
unfolding get_mark
final_at-set c j k z zymos other = elim (Bool-cases (is_blank j)) [
  | inl blank ↦ rw blank refl
  | inr named ↦ rw named (rw (get-set_ne k j z zymos other) refl)
]

final_at-moved_found :
    (c : Bool) (j k : Text) (to : Status) (o : Options) (zymos : Marks) (z : Mark)
    (m : Result (Option ActorKind))
    → text_eq k j ≡ false
    → final_at c j (moved_found k to o zymos z m).0 ≡ final_at c j zymos
final_at-moved_found c j k to o zymos z (err e) other = refl
final_at-moved_found c j k to o zymos z (ok a) other =
    final_at-set c j k (moved z to o a) zymos other

pub final_at-transition :
    (c : Bool) (j k : Text) (to : Status) (o : Options) (zymos : Marks)
    → final_at c j zymos ≡ true
    → final_at c j (transition k to o zymos).0 ≡ true
unfolding get_mark
final_at-transition c j k to o zymos h = elim (Option-cases (get k zymos)) [
  | inl gone ↦ unfold transition perkelti in rw gone h
  | inr (z, there) ↦ elim (Bool-cases (text_eq k j)) [
    | inr other ↦
        unfold transition perkelti in
        rw there (elim (Bool-cases (includes_status (allowed_sources to) z.status)) [
          | inl may ↦
              rw may (
                final_at-moved_found c j k to o zymos z (next_actor o.actor z.actor_kind) other ∙ h)
          | inr may_not ↦ rw may_not h
        ])
    | inl same ↦ elim (Bool-cases (is_blank j)) [
      | inl blank ↦ rw blank (rw blank at h)
      | inr named ↦
          let is_j = eq_of_text_eq k j same in
          let at_j : get j zymos ≡ some z = rw (← is_j) there in
          let is_deleted = deleted_of z.status (rw at_j at (rw named at h)) in
          let stays : (transition k to o zymos).0 ≡ zymos =
            ap (λ p. p.0) (transition_deleted k to o zymos there is_deleted) in
          rw stays h
    ]
  ]
]

pub final_at-retry :
    (c : Bool) (j k : Text) (actor : Given ActorKind) (now : ℕ) (zymos : Marks)
    → final_at c j zymos ≡ true
    → final_at c j (retry k actor now zymos).0 ≡ true
unfolding retry
final_at-retry c j k actor now zymos h = elim (Bool-cases (is_blank k)) [
  | inl blank ↦ rw blank h
  | inr named ↦ rw named (final_at-transition c j k pending _ zymos h)
]

authoritative-zymos : (k : Text) (m : Marks × Result (Option Mark)) → (authoritative k m).0 ≡ m.0
authoritative-zymos k (zymos, err e) = refl
authoritative-zymos k (zymos, ok none) = refl
authoritative-zymos k (zymos, ok (some z)) = refl

pub final_at-complete :
    (c : Bool) (j k : Text) (s : Status) (completed : Option ℕ) (kind : Given FailureKind) (now : ℕ)
    (zymos : Marks)
    → final_at c j zymos ≡ true
    → final_at c j (complete k s completed kind now zymos).0 ≡ true
unfolding complete
final_at-complete c j k s completed kind now zymos h = elim (Bool-cases (is_blank k)) [
  | inl blank ↦ rw blank h
  | inr named ↦ rw named (
      ap (λ z. final_at c j z) (authoritative-zymos k (transition k s _ zymos))
      ∙ final_at-transition c j k s _ zymos h)
]

-- The mark that `complete` answers is the one that is there.
pub complete-get_mark :
    (k : Text) (s : Status) (completed : Option ℕ) (kind : Given FailureKind) (now : ℕ)
    (zymos : Marks) {zymos' : Marks} {w : Mark}
    → complete k s completed kind now zymos ≡ (zymos', ok (some w))
    → get_mark k zymos' ≡ some w
unfolding complete get_mark
complete-get_mark k s completed kind now zymos {zymos'} {w} h = elim (Bool-cases (is_blank k)) [
  | inl blank ↦ absurd (nothing w (ap (λ p. p.1) (rw blank at h)))
  | inr named ↦
      by_transition named
        (record { done_at = completed; failure_kind = kind; actor = undefined; now = now })
        (transition k s
          (record { done_at = completed; failure_kind = kind; actor = undefined; now = now }) zymos)
        refl (rw named at h)
]
  where
    nothing : (y : Mark) → ok none ≡ ok (some y) → ⊥
    nothing y p = cc

    answered : (x y : Mark) → ok (some x) ≡ ok (some y) → x ≡ y
    answered x y p = cc

    by_transition :
        is_blank k ≡ false
        → (o : Options) (m : Marks × Result (Option Mark)) → transition k s o zymos ≡ m
        → authoritative k m ≡ (zymos', ok (some w))
        → (if is_blank k then none else get k zymos') ≡ some w
    by_transition named o (z, err e) is g = absurd (thrown e w (ap (λ p. p.1) g))
      where
        thrown : (e : Error) (y : Mark) → ◌≡◌ {A = Result (Option Mark)} (err e) (ok (some y)) → ⊥
        thrown e y p = cc
    by_transition named o (z, ok none) is g =
        let same = ap (λ p. p.0) g in
        let found : get_mark k zymos' ≡ some w =
          rw (← same) (opened (get_mark k z) w (ap (λ p. p.1) g)) in
        found
      where
        opened : (x : Option Mark) (y : Mark) → ok x ≡ ok (some y) → x ≡ some y
        opened x y p = cc
    by_transition named o (z, ok (some v)) is g =
        let same = ap (λ p. p.0) g in
        rw named (
          rw (← same)
            ((transition-IsMove k s o zymos is).stored ∙ ap some (answered v w (ap (λ p. p.1) g))))
