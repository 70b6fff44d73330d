-- ===== src/Store/Redis/Challenge.antt =====
-- internal/store/redis/challenge.go: the one-shot store of ceremony state. A payload is the text
-- that encoding/json made.
use Prim.Native.String.{◌++◌}
use go_passkey_auth.Prelude.{ℕ, String}
use go_passkey_auth.Domain.{Result, ok, err, challenge_not_found, other}
use go_passkey_auth.Platform.{Platform, Call, counted}
use go_passkey_auth.Platform.Redis.{Reply, value, nil, failed}

abbrev pub challenge_key : String → String
challenge_key session_id = "challenge:" ++ session_id

abbrev pub saved : Reply (Unit {0}) → Result (Unit {0})
saved (value _) = ok tt
saved _ = err other

abbrev pub taken : Reply String → Result String
taken (value raw) = ok raw
taken nil = err challenge_not_found
taken failed = err other

-- The lifetime is that of the store's configuration.
module _ {P : Platform} (ttl : ℕ) where
  unfoldable pub save : String → String → Call P (Unit {0})
  save session_id payload w =
      let (reply, redis') = P.redis.set w.now (challenge_key session_id) payload ttl w.redis in
      (saved reply, record (counted w) { redis = redis' })

module _ {P : Platform} where
  unfoldable pub take : String → Call P String
  take session_id w =
      let (reply, redis') = P.redis.get_del w.now (challenge_key session_id) w.redis in
      (taken reply, record (counted w) { redis = redis' })
