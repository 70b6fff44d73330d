-- ===== src/Api/Replay.antt =====
-- internal/api/handler/auth.go: the challenge of a ceremony serves once.
pub mod Taken
pub mod Once
use go_passkey_auth.Prelude.{
  ℕ, Bool, true, false, String, ◌≡◌, ◌≢◌, refl, sym, ap, ◌∙◌, some, List, [], ◌∷◌, ◌≤◌, ◌+◌, arith,
  inl, inr, Bool-cases,
}
use go_passkey_auth.Domain.{Result, ok}
use go_passkey_auth.Platform.{Platform, World, CompleteRequest}
use go_passkey_auth.Platform.Redis.{IsRedis, Reply, value, nil, failed}
use go_passkey_auth.Store.Redis.Challenge.{take, taken, challenge_key}
use go_passkey_auth.Api.Http.{Request, outcome}
use go_passkey_auth.Api.Http.Success.{Succeeds, is_error}
use go_passkey_auth.Api.Auth.Deps.{Deps}
use go_passkey_auth.Api.Router.{Route, serve, handler_of, Event, request, elapse, run_event, run}
use go_passkey_auth.Api.Kept.Routes.{serve-Ensures}
use go_passkey_auth.Api.Gone.{Spent, Misses, NeverDrawn}
use go_passkey_auth.Store.Redis.Session.{session_key}
use go_passkey_auth.Store.Redis.Guest.{guest_key}
use go_passkey_auth.Store.Redis.Keys.{
  challenge_key_ne, session_key-ne-challenge_key, guest_key-ne-challenge_key,
}

taken-ok : (r : Reply String) {raw : String} → taken r ≡ ok raw → (v : String) × (r ≡ value v)
taken-ok (value v) h = (v, refl)
taken-ok nil h = cc
taken-ok failed h = cc

-- No token of a session or of a guest falls on the key of a challenge.
pub session_key-Misses :
    (P : Platform) (from : ℕ) (sid : String) → Misses P from (challenge_key sid) session_key
session_key-Misses P from sid n b le e = session_key-ne-challenge_key (P.encode_base64 b) sid

pub guest_key-Misses :
    (P : Platform) (from : ℕ) (sid : String) → Misses P from (challenge_key sid) guest_key
guest_key-Misses P from sid n b le e = guest_key-ne-challenge_key (P.encode_base64 b) sid

pub challenge_key-Misses :
    (P : Platform) (from : ℕ) (sid : String)
    → NeverDrawn P from sid
    → Misses P from (challenge_key sid) challenge_key
challenge_key-Misses P from sid never n b le e =
    challenge_key_ne (P.encode_base64 b) sid (never n b le e)

module _ {P : Platform} (L : IsRedis P.redis) (from : ℕ) (sid : String) where
  -- What is taken is gone.
  pub take-Spent :
      (w : World P) {raw : String}
      → from ≤ w.calls
      → (take sid w).0 ≡ ok raw
      → Spent L from (challenge_key sid) (take sid w).1
  unfolding take
  take-Spent w le h =
      let (v, e) = taken-ok (P.redis.get_del w.now (challenge_key sid) w.redis).0 h in
      record {
        reached = omega arith;
        gone = λ u after. (L.get_del_value w.now u (challenge_key sid) v w.redis e after).1;
      }

  -- What is gone cannot be taken.
  pub take-absent :
      (w : World P) (raw : String) → Spent L from (challenge_key sid) w → (take sid w).0 ≢ ok raw
  unfolding take
  take-absent w raw s h =
      let (v, e) = taken-ok (P.redis.get_del w.now (challenge_key sid) w.redis).0 h in
      let (held, _) = L.get_del_value w.now w.now (challenge_key sid) v w.redis e (omega arith) in
      cc (held, s.gone w.now (omega arith))
