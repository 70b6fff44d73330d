-- ===== src/Tests/Returns.antt =====
-- Cookies that come back: after a login, after a guest, and after a logout.
use go_passkey_auth.Prelude.{
  ℕ, zero, suc, String, Bytes, true, ◌≡◌, ◌≢◌, refl, ap, ◌∙◌, some, none, [], ◌∷◌, ◌++◌, ◌⊎◌, arith,
  ◌==◌, string_eq, if◌then◌else◌,
}
use go_passkey_auth.Domain.{User, ok, err, other}
use go_passkey_auth.Platform.{World}
use go_passkey_auth.Store.Postgres.Run.{run_sql}
use go_passkey_auth.Store.Postgres.Users.{insert_user, create_guest}
use go_passkey_auth.Store.Redis.Token.{new_token}
use go_passkey_auth.Store.Redis.Session as SessionStore
use go_passkey_auth.Store.Redis.Guest as GuestStore
use go_passkey_auth.Api.Http.{Request, steps, outcome, logged_in, profile, error_body, guest_user}
use go_passkey_auth.Api.Http.Success.{Succeeds}
use go_passkey_auth.Api.Cookie.{session_cookie_name, guest_cookie_name, cookie_of, with_cookie}
use go_passkey_auth.Api.Middleware.{require_session}
use go_passkey_auth.Api.Users.{me}
use go_passkey_auth.Api.Auth.Login.{complete_login}
use go_passkey_auth.Api.Auth.Guest.{guest, new_guest, resolve_guest, reuse_or_create}
use go_passkey_auth.Api.Router.{Route, serve, run, request, elapse}
use go_passkey_auth.Api.Tokens.{NeverEmpty}
use go_passkey_auth.Api.Login.End.{dropped_cookies}
use go_passkey_auth.Api.SignedIn.{complete_login-me}
use go_passkey_auth.Api.Reused.{guest-guest}
use go_passkey_auth.Api.LoggedOut.{Rejected, serve-logged_out}
use go_passkey_auth.Tests.Fixture.{
  platform, start, deps, request_of, tally, redis_server-IsRedis, platform-IsUuid,
}
use go_passkey_auth.Tests.Logins.{challenged, login_test}
use go_passkey_auth.Tests.Registrations.{never_s}

tally-ne_empty : (n : ℕ) → tally (suc n) ≢ ""
tally-ne_empty n e = cc

never_empty : NeverEmpty platform
never_empty zero b e empty = cc
never_empty (suc n) b e empty =
    let q : ◌≡◌ {A = Bytes} (suc n ∷ []) b = ground arith in
    tally-ne_empty n (ap platform.encode_base64 q ∙ empty)

complete_login-me_example :
    (token : String) × (user : User) × (outcome
        (complete_login {P = platform} deps (request_of "s") challenged).0
      ≡ record {
        status = 200;
        body = logged_in (platform.uuid_string user.id) user.username user.display_name;
      })
    × ((complete_login {P = platform} deps (request_of "s") challenged).1.cookies
        ≡ (challenged.cookies
            ++ cookie_of (request_of "s") session_cookie_name token (some deps.session_max_age)
              ∷ [])
          ++ dropped_cookies (request_of "s"))
    × (let s =
          (require_session {P = platform} me
            (with_cookie session_cookie_name token (request_of ""))
            (record (complete_login {P = platform} deps (request_of "s") challenged).1 {
              now = 500;
            })).0 in
        (outcome s ≡ record {
          status = 200;
          body =
              profile (platform.uuid_string user.id) user.username user.display_name user.is_guest;
        })
        ⊎ (outcome s
            ≡ record { status = 500; body = error_body "internal_error" "Internal server error." }))
complete_login-me_example =
    complete_login-me redis_server-IsRedis platform-IsUuid deps (request_of "s") (request_of "")
      challenged 500 never_empty (λ n. refl) login_test (omega arith) (omega arith)

guest_test : Succeeds (guest {P = platform} deps (request_of "") start).0
unfolding guest new_guest resolve_guest reuse_or_create create_guest run_sql insert_user
    GuestStore.create new_token steps
guest_test = refl

guest-guest_example :
    let first = guest {P = platform} deps (request_of "") start in
    (token : String) × (user : User) × (user.is_guest ≡ true)
    × (outcome first.0 ≡ record { status = 200; body = guest_user (platform.uuid_string user.id) })
    × (first.1.cookies
        ≡ start.cookies
          ++ cookie_of (request_of "") guest_cookie_name token (some deps.guest_max_age) ∷ [])
    × (first.1.db ≡ record (start.db) { users = start.db.users ++ user ∷ [] })
    × (let v : World platform = record (first.1) { now = 500 } in
        let again =
          guest {P = platform} deps (with_cookie guest_cookie_name token (request_of "")) v in
        ((outcome again.0 ≡ outcome first.0)
          × (again.1.db ≡ first.1.db)
          × (again.1.cookies ≡ first.1.cookies))
        ⊎ ((GuestStore.get {P = platform} token v).0 ≡ err other))
guest-guest_example =
    guest-guest redis_server-IsRedis platform-IsUuid deps (request_of "") (request_of "") start 500
      never_empty (λ n. refl) refl guest_test (omega arith) (omega arith)

-- The session of the user 5 under the token "s".
abbrev signed_in : World platform
signed_in = record start { redis = λ key. if key == "session:s" then some ("aaaaa", 500) else none }

abbrev carrying : Request
carrying = with_cookie session_cookie_name "s" (request_of "")

delete_test : (SessionStore.delete {P = platform} "s" (record signed_in { cookies = [] })).0 ≡ ok tt
unfolding SessionStore.delete
delete_test = refl

serve-logged_out_example :
    let after : World platform =
      run deps
        (elapse 30 ∷ request Route.login_begin (request_of "x") ∷ [])
        (serve deps Route.logout_route carrying signed_in).1 in
    Rejected (serve deps Route.users_me carrying after).0
    × ((serve deps Route.users_me carrying after).1.db ≡ after.db)
serve-logged_out_example =
    serve-logged_out redis_server-IsRedis deps Route.users_me carrying carrying signed_in
      (elapse 30 ∷ request Route.login_begin (request_of "x") ∷ []) "s" refl delete_test never_s
      refl refl
