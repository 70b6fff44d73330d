-- ===== src/Api/SignedIn.antt =====
-- internal/api/handler/auth.go, CompleteLogin, with internal/api/middleware/session.go and Me of
-- user.go: the session cookie of a login, sent back.
use go_passkey_auth.Prelude.{
  arith, ℕ, suc, ◌+◌, ◌≤◌, ◌<◌, String, ◌≡◌, ◌≢◌, refl, ap, ◌∙◌, some, [], ◌∷◌, ◌++◌, string_eq,
  nat_eq, find, inl, inr, ◌⊎◌,
}
use go_passkey_auth.Domain.{ok, err, User, session_not_found, other}
use go_passkey_auth.Platform.{Platform, World, IsUuid, answered, counted}
use go_passkey_auth.Platform.Redis.{IsRedis}
use go_passkey_auth.Store.Postgres.Users.{has_id, get_by_id}
use go_passkey_auth.Store.Redis.Session as SessionStore
use go_passkey_auth.Store.Redis.Session.{session_key, resolved}
use go_passkey_auth.Store.Redis.Laws.{resolved-Resolves, live_answer}
use go_passkey_auth.Api.Http.{
  Request, write_error, write_json, or_else, outcome, logged_in, profile, error_body,
}
use go_passkey_auth.Api.Http.Success.{Succeeds}
use go_passkey_auth.Api.Cookie.{session_cookie_name, cookie_of, non_empty, with_cookie}
use go_passkey_auth.Api.Auth.Deps.{Deps}
use go_passkey_auth.Api.Auth.Login.{complete_login}
use go_passkey_auth.Api.Middleware.{
  require_session, lookup_error, write_unauthorized, write_internal_error,
}
use go_passkey_auth.Api.Users.{me, me_error}
use go_passkey_auth.Api.Http.Forward.{bind_next, bind_respond, attempted, attempt_run, or_else_run}
use go_passkey_auth.Api.Tokens.{NeverEmpty, carried, get_by_id_run}
use go_passkey_auth.Api.Login.End.{dropped_cookies}
use go_passkey_auth.Api.Login.Run.{complete_login_run}

module _ {P : Platform} where
  -- The session check with a cookie whose token resolves.
  require_me_run :
      (r : Request) (w : World P) (token : String) (user : User)
      → token ≢ ""
      → ((n : ℕ) → P.pg_outcome n ≡ answered)
      → find (has_id user.id) w.db.users ≡ some user
      → ((SessionStore.get {P = P} token w).0 ≡ ok user.id)
        ⊎ ((SessionStore.get {P = P} token w).0 ≡ err other)
      → let s = (require_session {P = P} me (with_cookie session_cookie_name token r) w).0 in
        (outcome s ≡ record {
          status = 200;
          body = profile (P.uuid_string user.id) user.username user.display_name user.is_guest;
        })
        ⊎ (outcome s
            ≡ record { status = 500; body = error_body "internal_error" "Internal server error." })
  unfolding require_session me SessionStore.get lookup_error write_internal_error write_json
      attempted
  require_me_run r w token user ne answers found got =
      let back = with_cookie session_cookie_name token r in
      let (reply, redis') = P.redis.get w.now (session_key token) w.redis in
      let u : World P = record (counted w) { redis = redis' } in
      let started =
        bind_next (or_else (non_empty (back.cookie session_cookie_name)) write_unauthorized) _ w
          (or_else_run (non_empty (back.cookie session_cookie_name)) _ w (carried token ne)) in
      elim got [
        | inl resolves ↦ inl (
            ap (λ s. outcome s.0)
              (started
                ∙ bind_next _ _ w (
                    attempt_run (SessionStore.get token) lookup_error w (ap (λ x. (x, u)) resolves))
                ∙ bind_next (or_else (some user.id) (write_error 401 "unauthorized")) _ u
                    (or_else_run (some user.id) _ u refl)
                ∙ bind_next _ _ u (
                    attempt_run (get_by_id user.id) me_error u
                      (get_by_id_run u user (answers (suc w.calls)) found))))
        | inr fails ↦ inr (
            ap (λ s. outcome s.0)
              (started
                ∙ bind_respond _ _ w
                    (attempt_run (SessionStore.get token) lookup_error w (ap (λ x. (x, u)) fails))))
      ]

  -- A login that succeeds sets a session cookie and, where the request has a guest cookie, clears
  -- that one. Sent back within the session's lifetime, with no other command in between, the
  -- session cookie brings /users/me the profile of the user that the login named, unless the
  -- session's lookup fails, which is a 500. Postgres answers, the encoding of random bytes is never
  -- empty, and Redis and google/uuid behave as documented.
  pub complete_login-me :
      (L : IsRedis P.redis) (U : IsUuid P) (deps : Deps) (r back : Request) (w : World P)
      (later : ℕ)
      → NeverEmpty P
      → ((n : ℕ) → P.pg_outcome n ≡ answered)
      → Succeeds (complete_login {P = P} deps r w).0
      → w.now ≤ later
      → later < w.now + deps.session_ttl
      → (token : String) × (user : User) × (outcome (complete_login {P = P} deps r w).0 ≡ record {
        status = 200;
        body = logged_in (P.uuid_string user.id) user.username user.display_name;
      })
        × ((complete_login {P = P} deps r w).1.cookies
            ≡ (w.cookies ++ cookie_of r session_cookie_name token (some deps.session_max_age) ∷ [])
              ++ dropped_cookies r)
        × (let s =
              (require_session {P = P} me
                (with_cookie session_cookie_name token back)
                (record (complete_login {P = P} deps r w).1 { now = later })).0 in
            (outcome s ≡ record {
              status = 200;
              body = profile (P.uuid_string user.id) user.username user.display_name user.is_guest;
            })
            ⊎ (outcome s ≡ record {
              status = 500;
              body = error_body "internal_error" "Internal server error.";
            }))
  unfolding SessionStore.get
  complete_login-me L U deps r back w later drawn answers h after before =
      let (token, user, answer, cookies, ne, found, held) = complete_login_run L deps r w drawn h in
      let v : World P = record (complete_login {P = P} deps r w).1 { now = later } in
      let got =
        live_answer session_not_found user.id (w.now + deps.session_ttl) later
          (resolved P session_not_found (P.redis.get later (session_key token) v.redis).0)
          (resolved-Resolves L U session_not_found user.id (w.now + deps.session_ttl) later
            (session_key token) v.redis (held later after (omega arith)))
          before in
      (token, user, answer, cookies, require_me_run back v token user ne answers found got)
