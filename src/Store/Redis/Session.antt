-- ===== src/Store/Redis/Session.antt =====
-- internal/store/redis/session.go: session tokens and the users that they stand for.
use Prim.Native.String.{◌++◌}
use go_passkey_auth.Prelude.{ℕ, String, Option, none, some}
use go_passkey_auth.Domain.{Result, ok, err, Err, session_not_found, other}
use go_passkey_auth.Platform.{Platform, Call, counted, ◌>>=◌}
use go_passkey_auth.Platform.Redis.{Reply, value, nil, failed}
use go_passkey_auth.Store.Redis.Token.{new_token}

abbrev pub session_key : String → String
session_key token = "session:" ++ token

abbrev pub issued : String → Reply (Unit {0}) → Result String
issued token (value _) = ok token
issued token _ = err other

abbrev pub deleted : Reply (Unit {0}) → Result (Unit {0})
deleted failed = err other
deleted _ = ok tt

abbrev pub parsed_id : Option ℕ → Result ℕ
parsed_id none = err other
parsed_id (some id) = ok id

-- The reply of a GET, read as a user id; `missing` is the store's own sentinel.
abbrev pub resolved : Platform → Err → Reply String → Result ℕ
resolved P missing (value raw) = parsed_id (P.uuid_parse raw)
resolved P missing nil = err missing
resolved P missing failed = err other

module _ {P : Platform} where
  abbrev pub set_key : String → String → ℕ → String → Call P String
  set_key key token ttl text w =
      let (reply, redis') = P.redis.set w.now key text ttl w.redis in
      (issued token reply, record (counted w) { redis = redis' })

  unfoldable pub create : ℕ → ℕ → Call P String
  unfolding new_token
  create ttl user_id = do
    token ← new_token
    set_key (session_key token) token ttl (P.uuid_string user_id)

  unfoldable pub get : String → Call P ℕ
  get token w =
      let (reply, redis') = P.redis.get w.now (session_key token) w.redis in
      (resolved P session_not_found reply, record (counted w) { redis = redis' })

  unfoldable pub delete : String → Call P (Unit {0})
  delete token w =
      let (reply, redis') = P.redis.del w.now (session_key token) w.redis in
      (deleted reply, record (counted w) { redis = redis' })
