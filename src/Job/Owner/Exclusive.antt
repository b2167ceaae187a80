-- ===== src/Job/Owner/Exclusive.antt =====
-- Ownership of created records: `matchesOwner` (backend/utils/jobStore/common.js) separates the
-- callers that `getOwnerScope` (backend/utils/ownerScope.js) distinguishes.
use stenograma.Prelude.{
  ℕ, ◌≡◌, refl, ap, ◌↔◌, true, false, some, arith, Text, text_eq_refl, eq_of_text_eq,
}
use mathlib.Core.Path.{subst}
use stenograma.Result.{ok}
use stenograma.Value.{null, word, text, is_nullish, truthy, strict_eq, user, api_key, unowned}
use stenograma.Job.{Obj, field, owner_id, owner_kind}
use stenograma.Job.Create.{new_job}
use stenograma.Job.Create.Fresh.{IsFresh, new_job-IsFresh}
use stenograma.Job.Owner.{Scope, matches_owner}

-- The callers of the routes: a session user with an identifier, the holder of the shared key, and
-- the desktop mode, in which nobody is authenticated.
pub data Caller : Type 0 where
  session_user : Text → Caller
  shared_key : Caller
  desktop : Caller

abbrev pub scope_of : Caller → Scope
scope_of (session_user u) = record { scope_id = text u; scope_kind = word user }
scope_of shared_key = record { scope_id = null; scope_kind = word api_key }
scope_of desktop = record { scope_id = null; scope_kind = word unowned }

scopes_differ :
    (p q : Caller) (r : Obj)
    → r owner_id ≡ some ((scope_of p).scope_id)
    → r owner_kind ≡ some ((scope_of p).scope_kind)
    → matches_owner r (scope_of q) ≡ true
    → p ≡ q
unfolding matches_owner strict_eq truthy
scopes_differ (session_user u) (session_user w) r a b h =
    ap session_user (eq_of_text_eq u w (rw (a, b) at h))
scopes_differ shared_key shared_key r a b h = refl
scopes_differ desktop desktop r a b h = refl
scopes_differ _ _ r a b h = cc (rw (a, b) at h)

owner_matches :
    (p : Caller) (r : Obj)
    → r owner_id ≡ some ((scope_of p).scope_id)
    → r owner_kind ≡ some ((scope_of p).scope_kind)
    → matches_owner r (scope_of p) ≡ true
unfolding matches_owner strict_eq truthy
owner_matches (session_user u) r a b = rw (a, b) (text_eq_refl u)
owner_matches shared_key r a b = rw (a, b)
owner_matches desktop r a b = rw (a, b)

-- The fields that a route sends for a caller.
abbrev pub HasOwner : Caller → Obj → Type 0
HasOwner p fields =
    (field owner_id fields ≡ (scope_of p).scope_id)
    × (field owner_kind fields ≡ (scope_of p).scope_kind)

created_fields :
    (p : Caller) (fields : Obj) (r : Obj) (i : Text)
    → HasOwner p fields
    → IsFresh i fields r
    → (r owner_id ≡ some ((scope_of p).scope_id)) × (r owner_kind ≡ some ((scope_of p).scope_kind))
created_fields (session_user u) fields r i (a, b) f =
    (rw a at f.has_owner_id, rw b at f.has_owner_kind)
created_fields shared_key fields r i (a, b) f = (rw a at f.has_owner_id, rw b at f.has_owner_kind)
created_fields desktop fields r i (a, b) f = (rw a at f.has_owner_id, rw b at f.has_owner_kind)

-- A record that one caller creates is always made, and it matches the scope of exactly that caller:
-- no other user, nor the holder of the shared key, nor the desktop mode is its owner.
pub matches_owner-new_job :
    (p q : Caller) (i : Text) (now : ℕ) (fields : Obj)
    → HasOwner p fields
    → (r : Obj) × (new_job i now fields ≡ ok r) × ((matches_owner r (scope_of q) ≡ true) ↔ (p ≡ q))
matches_owner-new_job p q i now fields h =
    let (r, e, fresh) = new_job-IsFresh i now fields in
    let (a, b) = created_fields p fields r i h fresh in
    (
      r,
      e,
      (
        scopes_differ p q r a b,
        λ same. subst (λ c. matches_owner r (scope_of c) ≡ true) same (owner_matches p r a b),
      ),
    )

-- A record from before ownership, whose kind is absent or null, matches nobody's scope.
matches_owner_legacy :
    (job : Obj) (s : Scope) → is_nullish (field owner_kind job) ≡ true → matches_owner job s ≡ false
unfolding matches_owner truthy
matches_owner_legacy job s h = ground arith
