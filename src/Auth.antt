-- ===== src/Auth.antt =====
-- Authorization: pkg/casbin, internal/service/system/authorizationSvc.go and
-- internal/middleware/permissionMW.go.
pub mod Casbin
pub mod Subjects
pub mod Roles
pub mod Authorization
pub mod Gate
mod Tests
