-- ===== src/Tests/Orphans.antt =====
-- A registration whose credential another user has.
use go_passkey_auth.Prelude.{
  false, ◌≡◌, refl, none, some, [], ◌∷◌, ◌++◌, ◌==◌, string_eq, if◌then◌else◌,
}
use go_passkey_auth.Domain.{Credential}
use go_passkey_auth.Platform.{World}
use go_passkey_auth.Store.Tables.{empty_db}
use go_passkey_auth.Store.Postgres.Users.{insert_user}
use go_passkey_auth.Store.Postgres.Credentials.{insert_credential}
use go_passkey_auth.Store.Postgres.Effects.{new_user}
use go_passkey_auth.Store.Redis.Challenge.{take}
use go_passkey_auth.Webauthn.Attestation.{is_accepted_attestation, is_accepted_attestation_type}
use go_passkey_auth.Api.Http.{outcome, error_body}
use go_passkey_auth.Api.Auth.Convert.{domain_credential_from_lib}
use go_passkey_auth.Api.Auth.Register.{complete_register}
use go_passkey_auth.Api.Verified.{IsVerified}
use go_passkey_auth.Api.Orphaned.{complete_register-orphan}
use go_passkey_auth.Tests.Fixture.{platform, start, request_of, passkey, session_of}
use go_passkey_auth.Tests.Stores.{credential_with}

-- Bob has the passkey, and Alice registers with it.
abbrev taken_passkey : World platform
taken_passkey = record start {
  db =
      (insert_credential 3 12 (credential_with 7)
        (insert_user 1 10 "bob" "Bob" false empty_db).1).1;
  redis = λ key. if key == "challenge:s" then some ("register", 500) else none;
}

abbrev refused_credential : Credential
refused_credential = record (credential_with 7) {
  user_id = 2;
  public_key = 1 ∷ 2 ∷ [];
  transports = "internal" ∷ [];
}

verified_test : IsVerified false (request_of "s") taken_passkey (session_of "register") passkey
unfolding take is_accepted_attestation is_accepted_attestation_type
verified_test = record {
  req = record { session_id = "s"; credential = "credential" };
  raw = "register";
  parsed = "credential";
  decoded = refl;
  took = refl;
  unmarshalled = refl;
  same_flow = refl;
  is_parsed = refl;
  attested = refl;
  accepts_format = refl;
  accepts_type = refl;
}

converted_test : domain_credential_from_lib platform 2 (9 ∷ []) passkey ≡ some refused_credential
unfolding domain_credential_from_lib
converted_test = refl

complete_register-orphan_example :
    (outcome (complete_register (request_of "s") taken_passkey).0 ≡ record {
      status = 409;
      body = error_body "credential_exists" "That credential is already registered.";
    })
    × ((complete_register (request_of "s") taken_passkey).1.db ≡ record (taken_passkey.db) {
      users = taken_passkey.db.users ++ new_user 2 100 "alice" "Alice" false ∷ [];
    })
unfolding insert_user insert_credential verified_test
complete_register-orphan_example =
    complete_register-orphan (request_of "s") taken_passkey (session_of "register") passkey
      refused_credential verified_test refl (λ n. refl) refl converted_test refl
