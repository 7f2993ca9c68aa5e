-- ===== src/Users.antt =====
-- The users of a tenant and the identifiers that telemetry knows them by:
-- vargate_telemetry/users/aliases.py.
pub mod Actors
pub mod Aliases
pub mod Upserts
pub mod Reconciliation
pub mod Roles
pub mod RoleLaws
pub mod LastAdmin
pub mod RoleExamples
pub mod Examples
