-- ===== src/Sessions.antt =====
-- The in-memory store of login sessions (backend/utils/sessionStore/memoryStore.js, with what
-- backend/utils/sessionStore/common.js shares). The map from token hashes to sessions is passed in and
-- returned; the clock, the fresh token and identifier, the two time windows and the live users of
-- `AUTH_USERS` are arguments, and so is the hash, as a function.
mod Tests
pub mod Revocation
use stenograma.Prelude.{
  ℕ, ◌+◌, Bool, true, false, ◌&&◌, ◌||◌, not, Option, none, some, List, [], ◌∷◌, Text, text_eq,
  codes, leb, ◌==◌, length, if◌then◌else◌,
}
use stenograma.Prelude.Map.{Map, get, set}
use stenograma.Value.{Value, num, int, text, strict_eq_number}
use stenograma.Value.Coerce.{is_space, skip_spaces, all_digits, decimal_from}

pub record AuthUser : Type 0 where
  pub name : Text
  pub user_role : Text

pub record Session : Type 0 where
  pub id : Text
  pub user_id : Option Text
  pub username : Text
  pub role : Text
  pub created_at : ℕ
  pub last_seen_at : ℕ
  pub expires_at : ℕ
  pub idle_expires_at : ℕ
  pub revoked_at : Option ℕ
  pub schema_version : Value

abbrev pub Sessions : Type 0
Sessions = Map Session

-- What a login gives.
pub record Identity : Type 0 where
  pub user : Option Text
  pub login : Text
  pub rights : Text

-- `value || null` of a text.
abbrev pub or_null : Option Text → Option Text
or_null none = none
or_null (some t) = if text_eq t (codes "") then none else some t

-- `arTikrintiTapatybe(session)`: the stable identifier, if there is one.
abbrev pub checked_user : Session → Option Text
checked_user s = or_null s.user_id

-- White space at the end of a text.
unfoldable pub trim_end : Text → Text
trim_end [] = []
trim_end (c ∷ s) = let rest = trim_end s in if is_space c && text_eq rest [] then [] else c ∷ rest

-- `palaikomaSchemaVersija(reiksme)`: the number 1, or a text of digits that stands for it; a text with
-- a minus sign never does.
unfoldable pub palaikoma_schema_versija : Value → Bool
unfolding trim_end
palaikoma_schema_versija (num n) = strict_eq_number n (int 1)
palaikoma_schema_versija (text s) =
    let t = skip_spaces (trim_end s) in leb 1 (length t) && all_digits t && decimal_from 0 t == 1
palaikoma_schema_versija _ = false

-- `patikrintiTapatybe(userId, role, env)`: the user, if the session's role is still theirs.
unfoldable pub patikrinti_tapatybe : Text → Text → Map AuthUser → Option AuthUser
patikrinti_tapatybe u role users = elim (get u users) [
  | none ↦ none
  | some user ↦ if text_eq user.user_role role then some user else none
]

abbrev pub is_revoked : Session → Bool
is_revoked s = elim s.revoked_at [ none ↦ false | some t ↦ true ]

-- What `sweepExpired` removes.
unfoldable pub is_over : ℕ → Session → Bool
is_over now s = leb s.expires_at now || (not (is_revoked s) && leb s.idle_expires_at now)

unfoldable pub sweep_expired : ℕ → Sessions → Sessions × ℕ
sweep_expired now [] = ([], 0)
sweep_expired now ((h, s) ∷ sessions) =
    let (kept, n) = sweep_expired now sessions in
    if is_over now s then (kept, n + 1) else ((h, s) ∷ kept, n)

-- The two windows, in milliseconds.
pub record Windows : Type 0 where
  pub idle : ℕ
  pub absolute : ℕ

unfoldable pub new_session : Text → Identity → ℕ → Windows → Session
new_session fresh i now w = record {
  id = fresh;
  user_id = or_null i.user;
  username = i.login;
  role = i.rights;
  created_at = now;
  last_seen_at = now;
  expires_at = now + w.absolute;
  idle_expires_at = now + w.idle;
  revoked_at = none;
  schema_version = num (int 1);
}

abbrev pub revoked : Session → ℕ → Session
revoked s now = record {
  id = s.id;
  user_id = s.user_id;
  username = s.username;
  role = s.role;
  created_at = s.created_at;
  last_seen_at = s.last_seen_at;
  expires_at = s.expires_at;
  idle_expires_at = s.idle_expires_at;
  revoked_at = some now;
  schema_version = s.schema_version;
}

-- The session after a successful `touch`, under the name that its user has now.
abbrev pub seen : Session → Text → ℕ → Windows → Session
seen s name now w = record {
  id = s.id;
  user_id = s.user_id;
  username = name;
  role = s.role;
  created_at = s.created_at;
  last_seen_at = now;
  expires_at = s.expires_at;
  idle_expires_at = now + w.idle;
  revoked_at = s.revoked_at;
  schema_version = s.schema_version;
}

-- The tests that `touch` makes before the identity.
unfoldable pub is_live : ℕ → Session → Bool
is_live now s =
    palaikoma_schema_versija s.schema_version
    && (not (is_revoked s) && (not (leb s.expires_at now) && not (leb s.idle_expires_at now)))

module _ (hash : Text → Text) where
  -- `create(identity, env)`.
  unfoldable pub create : Text → Text → Identity → ℕ → Windows → Sessions → Sessions × Session
  unfolding new_session
  create token fresh i now w sessions =
      let s = new_session fresh i now w in (set (hash token) s (sweep_expired now sessions).0, s)

  abbrev pub touch_checked :
      Text → Session → ℕ → Windows → Sessions → Option AuthUser → Sessions × Option Session
  touch_checked token s now w sessions none = (set (hash token) (revoked s now) sessions, none)
  touch_checked token s now w sessions (some user) =
      (set (hash token) (seen s user.name now w) sessions, some (seen s user.name now w))

  abbrev pub touch_user :
      Text
      → Session
      → ℕ
      → Windows
      → Map AuthUser
      → Sessions
      → Option Text
      → Sessions × Option Session
  touch_user token s now w users sessions none =
      (set (hash token) (seen s s.username now w) sessions, some (seen s s.username now w))
  touch_user token s now w users sessions (some u) =
      touch_checked token s now w sessions (patikrinti_tapatybe u s.role users)

  abbrev pub touch_found :
      Text → ℕ → Windows → Map AuthUser → Sessions → Option Session → Sessions × Option Session
  touch_found token now w users sessions none = (sessions, none)
  touch_found token now w users sessions (some s) =
      if is_live now s
      then touch_user token s now w users sessions (checked_user s)
      else (sessions, none)

  -- `touch(token, env)`.
  unfoldable pub touch : Text → ℕ → Windows → Map AuthUser → Sessions → Sessions × Option Session
  touch token now w users sessions =
      if text_eq token (codes "")
      then (sessions, none)
      else touch_found token now w users sessions (get (hash token) sessions)

  abbrev pub destroy_found : Text → ℕ → Sessions → Option Session → Sessions × Bool
  destroy_found token now sessions none = (sessions, false)
  destroy_found token now sessions (some s) =
      if is_revoked s then (sessions, false) else (set (hash token) (revoked s now) sessions, true)

  -- `destroy(token)`.
  unfoldable pub destroy : Text → ℕ → Sessions → Sessions × Bool
  destroy token now sessions =
      if text_eq token (codes "")
      then (sessions, false)
      else destroy_found token now sessions (get (hash token) sessions)

-- The loop that `destroyAllForUser` and `destroyAllForUserId` share.
unfoldable pub destroy_all : (Session → Bool) → ℕ → Sessions → Sessions × ℕ
destroy_all p now [] = ([], 0)
destroy_all p now ((h, s) ∷ sessions) =
    let (rest, n) = destroy_all p now sessions in
    if p s && not (is_revoked s) then ((h, revoked s now) ∷ rest, n + 1) else ((h, s) ∷ rest, n)

-- `destroyAllForUser(username)`.
unfoldable pub destroy_all_for_user : Text → ℕ → Sessions → Sessions × ℕ
unfolding destroy_all
destroy_all_for_user name now sessions = destroy_all (λ s. text_eq s.username name) now sessions

abbrev pub belongs_to : Text → Session → Bool
belongs_to u s = elim s.user_id [ none ↦ false | some v ↦ text_eq v u ]

-- `destroyAllForUserId(userId)`.
unfoldable pub destroy_all_for_user_id : Text → ℕ → Sessions → Sessions × ℕ
unfolding destroy_all
destroy_all_for_user_id u now sessions =
    if text_eq u (codes "") then (sessions, 0) else destroy_all (belongs_to u) now sessions

-- `size()`.
unfoldable pub size : Sessions → ℕ
size sessions = length sessions
