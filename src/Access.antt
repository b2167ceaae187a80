-- ===== src/Access.antt =====
-- Who may do what: the caller's scope (backend/utils/ownerScope.js), the decision on a single job
-- (backend/utils/jobAccessPolicy.js) and the permissions of the roles (backend/utils/permissions.js).
mod Tests
pub mod Scopes
pub mod Policy
pub mod Permissions
