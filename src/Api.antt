-- ===== src/Api.antt =====
-- internal/api: the HTTP surface.
pub mod Authentic
pub mod Verified
pub mod Promoted
pub mod Registered
pub mod Foreign
pub mod Decided
pub mod Readiness
pub mod Tokens
pub mod LoggedOut
pub mod Login
pub mod SignedIn
pub mod GuestRun
pub mod Reused
pub mod Begun
pub mod Held
pub mod Listed
pub mod Orphaned
pub mod Gone
pub mod Replay
pub mod Ownership
pub mod Guarded
pub mod Http
pub mod Cookie
pub mod Auth
pub mod Middleware
pub mod RequestLog
pub mod Users
pub mod Health
pub mod Kept
pub mod Tables
pub mod Router
pub mod Journey
