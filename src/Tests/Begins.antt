-- ===== src/Tests/Begins.antt =====
-- A registration and a login that begin, and whose sessions are taken in time.
use go_passkey_auth.Prelude.{Bytes, ◌≡◌, refl, String, some, arith, ◌⊎◌}
use go_passkey_auth.Domain.{ok, err, other}
use go_passkey_auth.Platform.{NamesRequest}
use go_passkey_auth.Store.Redis.Challenge.{save, take}
use go_passkey_auth.Webauthn.Service.{
  new_user_handle, begin_registration, begin_login as service_begin_login,
}
use go_passkey_auth.Api.Http.{steps, outcome, creation_options, assertion_options}
use go_passkey_auth.Api.Http.Success.{Succeeds}
use go_passkey_auth.Api.Auth.Ceremony.{begin_ceremony, fresh_user}
use go_passkey_auth.Api.Auth.Login.{begin_login}
use go_passkey_auth.Api.Auth.Register.{plain_session}
use go_passkey_auth.Api.Begun.{begin_ceremony-taken, begin_login-taken}
use go_passkey_auth.Tests.Fixture.{platform, deps, start, redis_server-IsRedis}

abbrev names : NamesRequest
names = record { username = "alice"; display_name = "Alice" }

begin_test :
    Succeeds (begin_ceremony {P = platform} 60 (λ s. s) (plain_session names) names start).0
unfolding begin_ceremony steps save new_user_handle begin_registration
begin_test = refl

begin_ceremony-taken_example :
    (handle drawn : Bytes) × (options : platform.lib.CreationOptions)
    × (session : platform.lib.SessionData) × (payload : String) × (platform.rand_read 1 64
        ≡ some handle)
    × (platform.rand_read 2 32 ≡ some drawn)
    × (platform.lib.begin_registration 3 (fresh_user handle names) ≡ some (options, some session))
    × (outcome (begin_ceremony {P = platform} 60 (λ s. s) (plain_session names) names start).0
        ≡ record { status = 200; body = creation_options options (platform.encode_base64 drawn) })
    × (platform.marshal_registration (plain_session names session) ≡ some payload)
    × (let r =
          (take
            (platform.encode_base64 drawn)
            (record (begin_ceremony {P = platform} 60
              (λ s. s)
              (plain_session names)
              names
              start).1 { now = 150 })).0 in
        (r ≡ ok payload) ⊎ (r ≡ err other))
begin_ceremony-taken_example =
    begin_ceremony-taken redis_server-IsRedis 60 (λ s. s) (plain_session names) names start 150
      begin_test (omega arith) (omega arith)

login_test : Succeeds (begin_login {P = platform} deps start).0
unfolding begin_login steps save service_begin_login
login_test = refl

begin_login-taken_example :
    (drawn : Bytes) × (options : platform.lib.RequestOptions) × (session : platform.lib.SessionData)
    × (payload : String) × (platform.rand_read 1 32 ≡ some drawn)
    × (platform.lib.begin_discoverable_login 2 ≡ some (options, some session))
    × (outcome (begin_login {P = platform} deps start).0
        ≡ record { status = 200; body = assertion_options options (platform.encode_base64 drawn) })
    × (platform.marshal_login (record { session = session }) ≡ some payload)
    × (let r =
          (take
            (platform.encode_base64 drawn)
            (record (begin_login {P = platform} deps start).1 { now = 150 })).0 in
        (r ≡ ok payload) ⊎ (r ≡ err other))
begin_login-taken_example =
    begin_login-taken redis_server-IsRedis deps start 150 login_test (omega arith) (omega arith)
