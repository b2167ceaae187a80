-- ===== src/Access/Permissions.antt =====
-- The permissions of the roles (backend/utils/permissions.js).
use stenograma.Prelude.{
  ◌≡◌, Bool, true, false, not, Option, none, some, List, [], ◌∷◌, arith, ℕ, ◌==◌, if◌then◌else◌,
}

pub data Permission : Type 0 where
  job_create job_read job_delete protocol_generate export_redacted export_original : Permission
  audit_read backup_create backup_restore : Permission

pub data Role : Type 0 where
  operator administrator unknown_role : Role

abbrev permission_code : Permission → ℕ
permission_code job_create = 0
permission_code job_read = 1
permission_code job_delete = 2
permission_code protocol_generate = 3
permission_code export_redacted = 4
permission_code export_original = 5
permission_code audit_read = 6
permission_code backup_create = 7
permission_code backup_restore = 8

-- `granted.includes(permission)`.
abbrev pub includes_permission : List Permission → Permission → Bool
includes_permission [] p = false
includes_permission (q ∷ qs) p =
    if permission_code q == permission_code p then true else includes_permission qs p

-- `ROLE_PERMISSIONS[role]`.
abbrev role_permissions : Role → Option (List Permission)
role_permissions operator = some (job_create ∷ job_read ∷ protocol_generate ∷ export_redacted ∷ [])
role_permissions administrator = some (
    backup_create ∷ backup_restore ∷ job_create ∷ job_read ∷ job_delete ∷ protocol_generate
    ∷ export_redacted ∷ export_original ∷ audit_read ∷ [])
role_permissions unknown_role = none

abbrev granted_includes : Option (List Permission) → Permission → Bool
granted_includes none p = false
granted_includes (some ps) p = includes_permission ps p

unfoldable pub has_permission : Option Role → Option Permission → Bool
has_permission none p = false
has_permission (some r) none = false
has_permission (some r) (some p) = granted_includes (role_permissions r) p

unfoldable pub permissions_for_role : Role → List Permission
permissions_for_role r = elim (role_permissions r) [ none ↦ [] | some ps ↦ ps ]

-- What the reference policy keeps from operators: erasure, originals, the audit log and backups.
abbrev pub is_restricted : Permission → Bool
is_restricted job_delete = true
is_restricted export_original = true
is_restricted audit_read = true
is_restricted backup_create = true
is_restricted backup_restore = true
is_restricted _ = false

-- An administrator has every permission, an operator exactly those that are not restricted, and any
-- other role none; the list for the frontend holds exactly the permissions that a role has.
pub has_permission_table :
    (r : Role) (p : Permission)
    → (has_permission (some administrator) (some p) ≡ true)
      × (has_permission (some operator) (some p) ≡ not (is_restricted p))
      × (has_permission (some unknown_role) (some p) ≡ false)
      × (includes_permission (permissions_for_role r) p ≡ has_permission (some r) (some p))
unfolding has_permission permissions_for_role
has_permission_table r p = ground arith
