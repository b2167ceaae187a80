-- ===== src/Access/Tests.antt =====
-- Concrete decisions on access (backend/utils/jobAccessPolicy.js, ownerScope.js, permissions.js).
use stenograma.Prelude.{◌≡◌, refl, true, false, ◌⊎◌, some, codes, text_eq}
use stenograma.Value.{text, word, user, truthy}
use stenograma.Access.Scopes.{Request}
use stenograma.Access.Policy.{
  Actor, owned, forbidden, missing, delete, decide_job_access, is_session_admin, is_unowned,
  IsSessionAdmin, IsDesktop, decide_hides_existence, decide_granted, owner_access,
  admin_delete_override, admin_orphan_cleanup, desktop_orphan_cleanup,
}

abbrev request : Request
request = record {
  user_id = some (codes "u1");
  from_api_key = true;
  api_key_env = some (codes "k");
}

abbrev plain_user : Actor
plain_user = record {
  actor_kind = word user;
  actor_id = text (codes "u1");
  is_administrator = false;
}

abbrev chief : Actor
chief = record { actor_kind = word user; actor_id = text (codes "u2"); is_administrator = true }

decide_hides_existence_example :
    decide_job_access forbidden (some plain_user) delete
    ≡ decide_job_access missing (some plain_user) delete
unfolding is_session_admin is_unowned truthy text_eq
decide_hides_existence_example = decide_hides_existence (some plain_user) delete refl refl

decide_granted_example :
    ((forbidden ≡ owned) × (admin_delete_override ≡ owner_access))
    ⊎ ((delete ≡ delete)
        × (((forbidden ≡ forbidden)
              × (admin_delete_override ≡ admin_delete_override)
              × IsSessionAdmin (some chief))
            ⊎ (((forbidden ≡ missing)
                  × (admin_delete_override ≡ desktop_orphan_cleanup)
                  × IsDesktop (some chief))
                ⊎ ((forbidden ≡ missing)
                    × (admin_delete_override ≡ admin_orphan_cleanup)
                    × IsSessionAdmin (some chief)))))
unfolding decide_job_access is_session_admin truthy text_eq
decide_granted_example =
    decide_granted forbidden (some chief) delete admin_delete_override refl refl
