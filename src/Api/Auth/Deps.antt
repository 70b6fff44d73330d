-- ===== src/Api/Auth/Deps.antt =====
-- internal/api/handler/auth.go, AuthDeps, and the lifetimes that cmd/server gives to the stores.
-- The stores themselves are those of the modules under Store.
use go_passkey_auth.Prelude.{ℕ}

pub record Deps : Type 0 where
  pub challenge_ttl : ℕ
  pub session_ttl : ℕ
  pub guest_ttl : ℕ
  pub session_max_age : ℕ
  pub guest_max_age : ℕ
