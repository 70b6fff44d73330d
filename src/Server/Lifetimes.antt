-- ===== src/Server/Lifetimes.antt =====
-- cmd/server/main.go: the cookies' ages against the lifetimes of the tokens that they carry.
use go_passkey_auth.Prelude.{ℕ, ◌+◌, ◌*◌, ◌≤◌, ◌<◌, ◌≡◌, arith, ◌⊎◌, String}
use go_passkey_auth.Domain.{ok, err, session_not_found, other}
use go_passkey_auth.Platform.{Platform, World, IsUuid}
use go_passkey_auth.Platform.Redis.{IsRedis}
use go_passkey_auth.Store.Redis.Session as SessionStore
use go_passkey_auth.Store.Redis.Laws.{live_answer, get-create}
use go_passkey_auth.Config.{Config}
use go_passkey_auth.Server.{whole_seconds, deps_of}

-- A second, in nanoseconds.
abbrev pub second : ℕ
second = 1_000_000_000

whole_seconds-le : (d : ℕ) → whole_seconds d * second ≤ d
whole_seconds-le d = omega arith

-- With the lifetimes and ages that `run` gives to the stores and the handlers, a session that is
-- issued is there for the whole Max-Age of its cookie: looked up within it, with no other command in
-- between, its token resolves to the user, or the lookup fails for another reason than a missing
-- session.
pub get-create-deps_of :
    {P : Platform} (L : IsRedis P.redis) (U : IsUuid P) (cfg : Config) (user_id later : ℕ)
    (w : World P) (token : String)
    → (SessionStore.create (deps_of cfg).session_ttl user_id w).0 ≡ ok token
    → w.now ≤ later
    → later < w.now + (deps_of cfg).session_max_age * second
    → let r =
        (SessionStore.get token
          (record (SessionStore.create (deps_of cfg).session_ttl user_id w).1 { now = later })).0 in
      (r ≡ ok user_id) ⊎ (r ≡ err other)
get-create-deps_of L U cfg user_id later w token e after kept =
    let lasts : 0 < cfg.session_ttl = omega (arith, whole_seconds-le cfg.session_ttl) in
    live_answer session_not_found user_id (w.now + cfg.session_ttl) later _
      (get-create L U cfg.session_ttl user_id later w token lasts e after)
      (omega (arith, whole_seconds-le cfg.session_ttl))
