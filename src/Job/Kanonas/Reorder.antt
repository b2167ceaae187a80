-- ===== src/Job/Kanonas/Reorder.antt =====
-- The order in which an object's members were written does not show in its canonical form
-- (`kanonizuoti` of backend/utils/jobStore/common.js).
use stenograma.Prelude.{
  ◌≡◌, refl, ◌∙◌, ap, Bool, true, false, inl, inr, ◌⊎◌, arith, Text, text_eq, text_eq_refl, text_lt,
  text_lt_asymm, text_lt_trans, eq_of_not_text_lt, List, [], ◌∷◌,
}
use stenograma.Value.{Value, Values, Members, obj, arr, end, member, nil, cons}
use stenograma.Job.Kanonas.{
  Token, text_token, key_token, num_token, kanonizuoti, kanonizuoti_members, kanonizuoti_values,
  insert_member, neserializuojama, same_result, tokens_eq, token_eq,
}

-- Inserting two members of different names in either order gives one object.
insert_member_comm :
    (n m : Text) (v w : Value) (ms : Members)
    → text_lt n m ≡ true
    → insert_member n v (insert_member m w ms) ≡ insert_member m w (insert_member n v ms)
unfolding insert_member
insert_member_comm n m v w end h = rw (h, text_lt_asymm n m h)
insert_member_comm n m v w (member k u ms) h =
    ground (arith, insert_member_comm n m v w ms, text_lt_asymm n m, text_lt_trans n m k)

distinct_order : (n m : Text) → text_eq n m ≡ false → (text_lt n m ≡ true) ⊎ (text_lt m n ≡ true)
distinct_order n m h = distinct_cases (text_lt n m) (text_lt m n) refl refl
  where
    distinct_cases :
        (a b : Bool)
        → text_lt n m ≡ a
        → text_lt m n ≡ b
        → (text_lt n m ≡ true) ⊎ (text_lt m n ≡ true)
    distinct_cases true b p q = inl p
    distinct_cases false true p q = inr q
    distinct_cases false false p q =
        cc (h, text_eq_refl m, ap (λ s. text_eq s m) (eq_of_not_text_lt n m p q))

-- Two values that differ in the order of members alone, at any depth.
mutual
  pub data Reordered : Value → Value → Type 0 where
    same : {v : Value} → Reordered v v
    in_arr : {vs ws : Values} → ReorderedValues vs ws → Reordered (arr vs) (arr ws)
    in_obj : {ms ns : Members} → ReorderedMembers ms ns → Reordered (obj ms) (obj ns)

  pub data ReorderedValues : Values → Values → Type 0 where
    no_values : ReorderedValues nil nil
    values :
        {v w : Value} {vs ws : Values}
        → Reordered v w
        → ReorderedValues vs ws
        → ReorderedValues (cons v vs) (cons w ws)

  pub data ReorderedMembers : Members → Members → Type 0 where
    no_members : ReorderedMembers end end
    members :
        {n : Text} {v w : Value} {ms ns : Members}
        → Reordered v w
        → ReorderedMembers ms ns
        → ReorderedMembers (member n v ms) (member n w ns)
    swapped :
        {n m : Text} {v w : Value} {ms : Members}
        → text_eq n m ≡ false
        → ReorderedMembers (member n v (member m w ms)) (member m w (member n v ms))
    chained :
        {ms ns os : Members}
        → ReorderedMembers ms ns
        → ReorderedMembers ns os
        → ReorderedMembers ms os

serializable_same : {v w : Value} → Reordered v w → neserializuojama v ≡ neserializuojama w
serializable_same same = refl
serializable_same (in_arr r) = refl
serializable_same (in_obj r) = refl

swap_canonical :
    (n m : Text) (v w : Value) (ms : Members)
    → text_eq n m ≡ false
    → kanonizuoti_members (member n v (member m w ms))
      ≡ kanonizuoti_members (member m w (member n v ms))
unfolding kanonizuoti
swap_canonical n m v w ms h = elim (distinct_order n m h) [
  | inl lt ↦ ground (
    arith,
    insert_member_comm n m (kanonizuoti true v) (kanonizuoti true w) (kanonizuoti_members ms),
  )
  | inr gt ↦ ground (
    arith,
    insert_member_comm m n (kanonizuoti true w) (kanonizuoti true v) (kanonizuoti_members ms),
  )
]

mutual
  unfolding kanonizuoti

  canonical_same : {v w : Value} → Reordered v w → kanonizuoti true v ≡ kanonizuoti true w
  canonical_same same = refl
  canonical_same (in_arr r) = ap arr (canonical_values r)
  canonical_same (in_obj r) = ap obj (canonical_members r)

  canonical_values :
      {vs ws : Values} → ReorderedValues vs ws → kanonizuoti_values vs ≡ kanonizuoti_values ws
  canonical_values no_values = refl
  canonical_values (values r rs) = cc (canonical_same r, canonical_values rs, serializable_same r)

  canonical_members :
      {ms ns : Members} → ReorderedMembers ms ns → kanonizuoti_members ms ≡ kanonizuoti_members ns
  canonical_members no_members = refl
  canonical_members (members r rs) =
      cc (canonical_same r, canonical_members rs, serializable_same r)
  canonical_members (swapped {n = a} {m = b} {v = v} {w = w} {ms = ms} h) =
      swap_canonical a b v w ms h
  canonical_members (chained r s) = canonical_members r ∙ canonical_members s

token_eq_refl : (t : Token) → token_eq t t ≡ true
unfolding token_eq
token_eq_refl (text_token s) = text_eq_refl s
token_eq_refl (key_token s) = text_eq_refl s
token_eq_refl (num_token z f) = ground arith
token_eq_refl _ = ground arith

pub tokens_eq_refl : (ts : List Token) → tokens_eq ts ts ≡ true
unfolding tokens_eq
tokens_eq_refl [] = refl
tokens_eq_refl (t ∷ ts) = rw (token_eq_refl t) (tokens_eq_refl ts)

-- Results that differ in nothing but the order of members, at any depth, are the same result.
pub same_result-Reordered : (v w : Value) → Reordered v w → same_result v w ≡ true
unfolding same_result
same_result-Reordered v w r = rw (canonical_same r) (tokens_eq_refl _)

pub same_result_refl : (v : Value) → same_result v v ≡ true
unfolding same_result
same_result_refl v = tokens_eq_refl _
