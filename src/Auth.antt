-- ===== src/Auth.antt =====
-- backend/auth/auth.go, backend/middleware/auth.go, backend/security/password.go and the login
-- handler of backend/handlers/auth_handler.go.
pub mod Token
pub mod Middleware
pub mod Password
pub mod Login
mod Tests
mod LoginTests
