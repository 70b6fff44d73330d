-- ===== src/Tests/Journeys.antt =====
-- A registration and a login on the concrete platform, from the first request to the last.
use go_passkey_auth.Prelude.{◌+◌, ◌≡◌, false, true, none, update, refl, [], ◌∷◌, arith}
use go_passkey_auth.Platform.{World}
use go_passkey_auth.Webauthn.Attestation.{is_accepted_attestation, is_accepted_attestation_type}
use go_passkey_auth.Store.Postgres.Effects.{new_user, new_row}
use go_passkey_auth.Api.Http.{outcome, creation_options, registered, assertion_options, logged_in}
use go_passkey_auth.Api.Auth.Convert.{domain_credential_from_lib, lib_credential_from_domain}
use go_passkey_auth.Api.Auth.Register.{begin_register, complete_register}
use go_passkey_auth.Api.Journey.{IsHonest}
use go_passkey_auth.Api.Journey.Whole.{register-registered}
use go_passkey_auth.Domain.{Credential, User}
use go_passkey_auth.Store.Tables.{CredentialRow}
use go_passkey_auth.Store.Postgres.Users.{insert_user}
use go_passkey_auth.Store.Postgres.Credentials.{insert_credential, is_live_key, set_assertion}
use go_passkey_auth.Api.Journey.Login.{IsWelcome, login-logged_in}
use go_passkey_auth.Api.Auth.Login.{begin_login, complete_login}
use go_passkey_auth.Tests.Fixture.{
  platform, start, deps, request_of, passkey, first_credential, redis_server-IsRedis,
}
use go_passkey_auth.Tests.Stores.{credential_with, two_passkeys, with_passkeys}

-- The eighth call is the first of the registration, so that the user handle is the ninth.
abbrev eighth : World platform
eighth = record start { calls = 8 }

abbrev new_passkey : Credential
new_passkey = record (credential_with 7) {
  user_id = 14;
  public_key = 1 ∷ 2 ∷ [];
  transports = "internal" ∷ [];
}

honest : IsHonest {P = platform} deps (request_of "names") (request_of "aaaaaaaaaa") eighth 20
unfolding is_accepted_attestation is_accepted_attestation_type domain_credential_from_lib
honest = record {
  names = record { username = "alice"; display_name = "Alice" };
  handle = 9 ∷ [];
  drawn = 10 ∷ [];
  options = tt;
  session = 9 ∷ [];
  payload = "register";
  credential = "credential";
  parsed = "credential";
  cred = passkey;
  domain = new_passkey;
  answers = λ n. refl;
  named = refl;
  named_fully = refl;
  name_free = refl;
  draws_handle = refl;
  draws_id = refl;
  begins = refl;
  marshals = refl;
  saves = refl;
  in_time = omega arith;
  decoded = refl;
  filled = refl;
  reads = λ h. ground arith;
  unmarshals = refl;
  is_parsed = refl;
  attested = refl;
  accepts_format = refl;
  accepts_type = refl;
  converts = refl;
  new_id = refl;
  new_key = refl;
  new_credential = refl;
}

register-registered_example :
    let first = begin_register {P = platform} deps (request_of "names") eighth in
    let then_on : World platform = record (first.1) { now = first.1.now + 20 } in
    let second = complete_register {P = platform} (request_of "aaaaaaaaaa") then_on in
    (outcome first.0 ≡ record { status = 200; body = creation_options tt "aaaaaaaaaa" })
    × (outcome second.0
        ≡ record { status = 200; body = registered "aaaaaaaaaaaaaa" "aaaaaaaaaaaaaaa" })
    × (second.1.db ≡ record {
      users = new_user 14 120 "alice" "Alice" false ∷ [];
      credentials = new_row 15 120 new_passkey ∷ [];
    })
unfolding honest
register-registered_example =
    register-registered redis_server-IsRedis deps (request_of "names") (request_of "aaaaaaaaaa")
      eighth 20 honest

-- The first of the two passkeys, and its owner.
abbrev alices_row : CredentialRow
alices_row = record {
  columns = record (credential_with 7) { id = 2; created_at = 11 };
  deleted_at = none;
}

abbrev alice : User
alice = new_user 1 10 "alice" "Alice" false

abbrev stored_before : World platform
stored_before = record with_passkeys { calls = 8 }

welcome : IsWelcome {P = platform} deps (request_of "aaaaaaaa") stored_before 20
unfolding lib_credential_from_domain insert_user insert_credential
welcome = record {
  drawn = 8 ∷ [];
  options = tt;
  session = [];
  payload = "login";
  credential = "credential";
  parsed = "credential";
  row = alices_row;
  user = alice;
  ids = (7 ∷ [], []);
  judge = first_credential;
  cred = lib_credential_from_domain platform alices_row.columns;
  secret = 15 ∷ [];
  answers = λ n. refl;
  draws_id = refl;
  begins = refl;
  marshals = refl;
  saves = refl;
  in_time = omega arith;
  decoded = refl;
  filled = refl;
  reads = λ h. ground arith;
  unmarshals = refl;
  is_parsed = refl;
  is_live = refl;
  owns = refl;
  asks = refl;
  accepts = refl;
  draws_token = refl;
  issues = refl;
}

login-logged_in_example :
    let first = begin_login {P = platform} deps stored_before in
    let then_on : World platform = record (first.1) { now = first.1.now + 20 } in
    let second = complete_login {P = platform} deps (request_of "aaaaaaaa") then_on in
    (outcome first.0 ≡ record { status = 200; body = assertion_options tt "aaaaaaaa" })
    × (outcome second.0 ≡ record { status = 200; body = logged_in "a" "alice" "Alice" })
    × (second.1.db ≡ record two_passkeys {
      credentials = update (is_live_key 2) (set_assertion 120 0 true true) two_passkeys.credentials;
    })
unfolding welcome lib_credential_from_domain
login-logged_in_example =
    login-logged_in redis_server-IsRedis deps (request_of "aaaaaaaa") stored_before 20 welcome
