-- ===== src/Api/Auth.antt =====
-- internal/api/handler/auth.go: the endpoints under /auth, one child module for each ceremony.
pub mod Deps
pub mod Convert
pub mod Ceremony
pub mod Register
pub mod Login
pub mod Guest
pub mod Promote
pub mod Conversion
