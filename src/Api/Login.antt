-- ===== src/Api/Login.antt =====
-- internal/api/handler/auth.go, CompleteLogin: what a login that succeeds has run, call by call.
pub mod Steps
pub mod Inverse
pub mod Written
pub mod Same
pub mod End
pub mod Run
pub mod Forward
