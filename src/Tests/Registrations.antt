-- ===== src/Tests/Registrations.antt =====
-- Ceremonies that end, and a session id that comes twice.
use Prim.Native.Char.{Char, code}
use Prim.Native.String.{◌∷◌ as cons}
use go_passkey_auth.Prelude.{
  ℕ, zero, suc, String, Bytes, ◌∙◌, ◌≡◌, ◌≢◌, refl, ap, some, none, true, false, [], ◌∷◌, ◌==◌,
  string_eq, if◌then◌else◌, arith,
}
use go_passkey_auth.Platform.{World}
use go_passkey_auth.Store.Postgres.Run.{run_sql}
use go_passkey_auth.Store.Postgres.Users.{
  insert_user, promote_user, create_registered, promote_guest,
}
use go_passkey_auth.Store.Postgres.Credentials.{insert_credential, insert}
use go_passkey_auth.Store.Redis.Token.{new_token}
use go_passkey_auth.Store.Redis.Challenge.{take}
use go_passkey_auth.Store.Redis.Session as SessionStore
use go_passkey_auth.Store.Tables.{empty_db}
use go_passkey_auth.Webauthn.Service.{create_credential}
use go_passkey_auth.Api.Http.{steps}
use go_passkey_auth.Api.Http.Success.{Succeeds, is_error}
use go_passkey_auth.Api.Auth.Convert.{domain_credential_from_lib}
use go_passkey_auth.Api.Auth.Ceremony.{
  read_envelope, take_error, accepted, verify_ceremony, verify_stored, insert_error,
  store_credential, drop_guest,
}
use go_passkey_auth.Api.Auth.Register.{complete_register, create_error}
use go_passkey_auth.Api.Auth.Promote.{complete_promote, promote_error}
use go_passkey_auth.Api.Router.{Route, serve, handler_of, run, request, elapse}
use go_passkey_auth.Api.Registered.{Registers, complete_register-ok}
use go_passkey_auth.Api.Promoted.{Promotes, complete_promote-ok}
use go_passkey_auth.Api.Replay.Once.{serve-once}
use go_passkey_auth.Api.Gone.{NeverDrawn}
use go_passkey_auth.Tests.Fixture.{platform, start, deps, request_of, redis_server-IsRedis, tally}

-- The challenge session of /register/begin is there.
abbrev registering : World platform
registering = record start {
  redis = λ key. if key == "challenge:s" then some ("register", 500) else none;
}

register_test : Succeeds (complete_register (request_of "s") registering).0
unfolding complete_register verify_ceremony verify_stored read_envelope take_error steps take
    accepted create_credential create_registered run_sql insert_user create_error store_credential
    domain_credential_from_lib insert insert_credential insert_error
register_test = refl

-- A guest with the key 0, and the challenge session of /promote/begin.
abbrev promoting : World platform
promoting = record start {
  db = (insert_user 0 50 "guest" "Guest" true empty_db).1;
  redis = λ key. if key == "challenge:s" then some ("promote", 500) else none;
}

promote_test : Succeeds (complete_promote deps (request_of "s") promoting).0
unfolding complete_promote verify_ceremony verify_stored read_envelope take_error steps take
    accepted create_credential promote_guest promote_user run_sql insert_user promote_error
    store_credential domain_credential_from_lib insert insert_credential insert_error
    SessionStore.create new_token drop_guest
promote_test = refl

complete_register-ok_example : Registers (request_of "s") registering
complete_register-ok_example = complete_register-ok (request_of "s") registering register_test

complete_promote-ok_example : Promotes deps (request_of "s") promoting
complete_promote-ok_example = complete_promote-ok deps (request_of "s") promoting promote_test

serve_test :
    is_error (serve deps Route.register_complete (request_of "s") registering).0.body ≡ false
unfolding serve handler_of
serve_test = register_test

tally-ne_s : (n : ℕ) → tally n ≢ "s"
tally-ne_s zero e = cc
tally-ne_s (suc n) e = ne (ap code (heads e))
  where
    ne : code "a" ≢ code "s"
    ne h = omega arith

    heads : {c d : Char} {s t : String} → ◌≡◌ {A = String} (cons c s) (cons d t) → c ≡ d
    heads h = cc

pub never_s : NeverDrawn platform 1 "s"
never_s n b le e h =
    let q : ◌≡◌ {A = Bytes} (n ∷ []) b = ground arith in
    tally-ne_s n (ap platform.encode_base64 q ∙ h)

-- After a registration, some time and another start of a login, the session id is refused as that of a
-- login.
serve-once_example :
    is_error
      (serve deps Route.login_complete (request_of "s") (
        run deps
          (elapse 30 ∷ request Route.login_begin (request_of "x") ∷ [])
          (serve deps Route.register_complete (request_of "s") registering).1)).0.body
    ≡ true
serve-once_example =
    serve-once redis_server-IsRedis deps Route.register_complete Route.login_complete
      (request_of "s") (request_of "s") registering
      (elapse 30 ∷ request Route.login_begin (request_of "x") ∷ [])
      (record { session_id = "s"; credential = "credential" })
      (record { session_id = "s"; credential = "credential" }) refl refl serve_test never_s refl
      refl refl
