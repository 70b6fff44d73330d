-- ===== src/Tests/Logins.antt =====
-- A login with one of two passkeys.
use go_passkey_auth.Prelude.{refl, none, some, ◌==◌, string_eq, if◌then◌else◌}
use go_passkey_auth.Store.Postgres.Run.{run_sql}
use go_passkey_auth.Store.Postgres.Users.{insert_user, get_by_id, select_by_id}
use go_passkey_auth.Store.Postgres.Credentials.{
  insert_credential, get_by_credential_id, select_live, update_after_assertion, update_rows,
}
use go_passkey_auth.Store.Redis.Token.{new_token}
use go_passkey_auth.Store.Redis.Challenge.{take}
use go_passkey_auth.Store.Redis.Session as SessionStore
use go_passkey_auth.Platform.{World}
use go_passkey_auth.Webauthn.Service.{validate_login}
use go_passkey_auth.Api.Http.{steps, outcome}
use go_passkey_auth.Api.Http.Success.{Succeeds}
use go_passkey_auth.Api.Auth.Convert.{lib_credential_from_domain, counter_anomalies}
use go_passkey_auth.Api.Auth.Ceremony.{read_envelope, take_error, drop_guest}
use go_passkey_auth.Api.Auth.Login.{complete_login, finish_login, validate, resolve}
use go_passkey_auth.Api.Authentic.{IsAuthentic, complete_login-IsAuthentic}
use go_passkey_auth.Tests.Fixture.{platform, deps, request_of}
use go_passkey_auth.Tests.Stores.{with_passkeys}

-- The challenge session of /login/begin is there.
abbrev pub challenged : World platform
challenged = record with_passkeys {
  redis = λ key. if key == "challenge:s" then some ("login", 500) else none;
}

pub login_test : Succeeds (complete_login deps (request_of "s") challenged).0
unfolding complete_login finish_login validate resolve read_envelope take_error drop_guest steps
    take validate_login get_by_credential_id select_live run_sql get_by_id select_by_id
    update_after_assertion update_rows SessionStore.create new_token insert_user insert_credential
    lib_credential_from_domain counter_anomalies
login_test = refl

complete_login-IsAuthentic_example :
    IsAuthentic deps
      (request_of "s")
      challenged
      (outcome (complete_login deps (request_of "s") challenged).0)
      (complete_login deps (request_of "s") challenged).1
complete_login-IsAuthentic_example =
    complete_login-IsAuthentic deps (request_of "s") challenged login_test
