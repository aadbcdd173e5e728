-- ===== src/Rbac.antt =====
-- backend/rbac, backend/models/rbac.go and the user and role handlers of
-- backend/handlers/rbac_handler.go.
pub mod Model
pub mod Store
pub mod Resolve
pub mod Users
pub mod Roles
pub mod Trace
pub mod Catalog
pub mod Seed
mod Tests
