-- ===== src/Job/Owner.antt =====
-- Ownership of a job's data: `normalizeOwnerId`, `assertOwnerIdentity` and `matchesOwner`
-- (backend/utils/jobStore/common.js).
pub mod Exclusive
use stenograma.Prelude.{
  ◌≡◌, refl, Bool, true, false, ◌&&◌, ◌||◌, not, Text, text_eq, codes, if◌then◌else◌,
}
use stenograma.Result.{Result, ok, err, type_error, guard, ◌>>◌, ◌>>=◌}
use stenograma.Value.{
  Value, undefined, null, word, text, is_nullish, is_word, truthy, strict_eq, user, api_key,
  unowned,
}
use stenograma.Job.{Obj, field, owner_id, owner_kind}

-- Who asks: `{ ownerId, ownerKind }`.
pub record Scope : Type 0 where
  pub scope_id : Value
  pub scope_kind : Value

-- `value == null ? "" : String(value)`. An identifier is a string or nothing; the text of any other
-- value is left as that value.
unfoldable pub normalize_owner_id : Value → Value
normalize_owner_id v = if is_nullish v then text (codes "") else v

-- `OWNER_KIND_VALUES.has(kind)`.
unfoldable pub is_owner_kind : Value → Bool
is_owner_kind k = is_word user k || is_word api_key k || is_word unowned k

-- `id != null && id !== ""`.
unfoldable pub has_owner_id : Value → Bool
has_owner_id v = not (is_nullish v) && not (strict_eq v (text (codes "")))

unfoldable pub assert_owner_identity : Scope → Result (Unit {0})
unfolding is_owner_kind has_owner_id
assert_owner_identity s = do
  guard (is_owner_kind s.scope_kind) type_error
  guard (not (is_word user s.scope_kind && not (has_owner_id s.scope_id))) type_error
  guard (not (not (is_word user s.scope_kind) && has_owner_id s.scope_id)) type_error

unfoldable pub matches_owner : Obj → Scope → Bool
unfolding normalize_owner_id
matches_owner job s =
    if not (truthy (field owner_kind job)) || not (truthy s.scope_kind)
    then false
    else (if not (strict_eq (field owner_kind job) s.scope_kind)
        then false
        else strict_eq (normalize_owner_id (field owner_id job)) (normalize_owner_id s.scope_id))
