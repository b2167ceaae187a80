-- ===== src/Sessions/Tests.antt =====
-- Concrete sessions (backend/utils/sessionStore/memoryStore.js).
use stenograma.Prelude.{◌≡◌, refl, false, none, some, [], ◌∷◌, Text, codes, text_eq}
use stenograma.Prelude.Map.{Map, get, set}
use stenograma.Value.{num, int}
use stenograma.Sessions.{Session, Sessions, AuthUser, Windows, touch, destroy, revoked}
use stenograma.Sessions.Revocation.{destroy_final}

-- A stand-in for the hash of tokens.
abbrev marked : Text → Text
marked t = 35 ∷ t

abbrev token : Text
token = codes "t"

abbrev session : Session
session = record {
  id = codes "s1";
  user_id = some (codes "u1");
  username = codes "old";
  role = codes "operator";
  created_at = 10;
  last_seen_at = 10;
  expires_at = 1000;
  idle_expires_at = 100;
  revoked_at = none;
  schema_version = num (int 1);
}

abbrev sessions : Sessions
sessions = (marked token, session) ∷ []

abbrev ended : Sessions
ended = (marked token, revoked session 20) ∷ []

abbrev windows : Windows
windows = record { idle = 90; absolute = 990 }

abbrev users : Map AuthUser
users = (codes "u1", record { name = codes "new"; user_role = codes "operator" }) ∷ []

destroy_final_example :
    (touch marked token 30 windows users ended ≡ (ended, none))
    × (destroy marked token 30 ended ≡ (ended, false))
unfolding destroy get set text_eq
destroy_final_example = destroy_final marked token 20 30 windows users sessions refl
