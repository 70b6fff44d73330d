-- ===== src/Store/Redis/Token.antt =====
-- internal/store/redis/redis.go, newToken.
use go_passkey_auth.Prelude.{String, none, some}
use go_passkey_auth.Domain.{ok, err, other}
use go_passkey_auth.Platform.{Platform, Call, counted}

module _ {P : Platform} where
  unfoldable pub new_token : Call P String
  new_token w = elim (P.rand_read w.calls 32) [
    | none ↦ (err other, counted w)
    | some b ↦ (ok (P.encode_base64 b), counted w)
  ]
