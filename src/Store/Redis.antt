-- ===== src/Store/Redis.antt =====
-- internal/store/redis/redis.go: the tokens. The three stores are in the child modules.
pub mod Token
pub mod Challenge
pub mod Session
pub mod Guest
pub mod Keys
pub mod Laws
pub mod Spec
pub mod Refinement
