-- ===== src/Access.antt =====
-- Roles, permissions and access tokens: app/core/permissions.py, app/services/rbac.py,
-- app/core/security.py and app/api/dependencies/auth.py.
pub mod Texts
pub mod Permissions
pub mod Roles
pub mod Seed
pub mod Seeded
pub mod Tokens
pub mod Granted
pub mod Required
pub mod Owner
pub mod Current
