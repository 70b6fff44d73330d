-- ===== src/Store/Redis/Guest.antt =====
-- internal/store/redis/guest.go: guest tokens, under a prefix of their own.
use Prim.Native.String.{◌++◌}
use go_passkey_auth.Prelude.{ℕ, String}
use go_passkey_auth.Domain.{guest_not_found}
use go_passkey_auth.Platform.{Platform, Call, counted, ◌>>=◌}
use go_passkey_auth.Store.Redis.Token.{new_token}
use go_passkey_auth.Store.Redis.Session.{deleted, resolved, set_key}

abbrev pub guest_key : String → String
guest_key token = "guest:" ++ token

module _ {P : Platform} where
  unfoldable pub create : ℕ → ℕ → Call P String
  unfolding new_token
  create ttl user_id = do
    token ← new_token
    set_key (guest_key token) token ttl (P.uuid_string user_id)

  unfoldable pub get : String → Call P ℕ
  get token w =
      let (reply, redis') = P.redis.get w.now (guest_key token) w.redis in
      (resolved P guest_not_found reply, record (counted w) { redis = redis' })

  unfoldable pub delete : String → Call P (Unit {0})
  delete token w =
      let (reply, redis') = P.redis.del w.now (guest_key token) w.redis in
      (deleted reply, record (counted w) { redis = redis' })
