-- ===== src/Access/Scopes.antt =====
-- `getOwnerScope` (backend/utils/ownerScope.js).
use stenograma.Prelude.{
  ◌≡◌, refl, Bool, true, false, ◌&&◌, not, Option, none, some, [], Text, text_eq, codes,
  if◌then◌else◌, arith,
}
use stenograma.Result.{ok}
use stenograma.Value.{null, word, text, user, api_key, unowned, strict_eq}
use stenograma.Value.Coerce.{skip_spaces}
use stenograma.Job.Owner.{Scope, assert_owner_identity}

-- What the function reads: `req.user.id`, whether `req.authz.source` is "api-key", and the
-- environment's `API_KEY`.
pub record Request : Type 0 where
  pub user_id : Option Text
  pub from_api_key : Bool
  pub api_key_env : Option Text

-- `Boolean((s || "").trim())`: something is left of the text but white space.
unfoldable pub is_configured : Option Text → Bool
is_configured none = false
is_configured (some s) = not (text_eq (skip_spaces s) [])

abbrev shared_or_unowned : Bool → Scope
shared_or_unowned true = record { scope_id = null; scope_kind = word api_key }
shared_or_unowned false = record { scope_id = null; scope_kind = word unowned }

scope_for : Option Text → Bool → Scope
scope_for none shared = shared_or_unowned shared
scope_for (some u) shared =
    if text_eq u (codes "")
    then shared_or_unowned shared
    else record { scope_id = text u; scope_kind = word user }

unfoldable pub get_owner_scope : Request → Scope
unfolding scope_for
get_owner_scope req = scope_for req.user_id (is_configured req.api_key_env && req.from_api_key)

scope_for_valid : (u : Option Text) (b : Bool) → assert_owner_identity (scope_for u b) ≡ ok tt
unfolding scope_for assert_owner_identity strict_eq
scope_for_valid none true = refl
scope_for_valid none false = refl
scope_for_valid (some u) b = ground arith

-- Every scope that a request gives is an identity that the job store accepts: a user with an
-- identifier, or a principal without one.
pub assert_owner_identity-get_owner_scope :
    (req : Request) → assert_owner_identity (get_owner_scope req) ≡ ok tt
unfolding get_owner_scope
assert_owner_identity-get_owner_scope req = scope_for_valid req.user_id _
