-- ===== src/Tests/Answers.antt =====
-- The session check, a deletion and a conversion on the concrete platform.
use go_passkey_auth.Prelude.{
  ℕ, false, List, String, ◌≡◌, refl, some, none, [], ◌∷◌, ◌==◌, string_eq, if◌then◌else◌, any, true,
  ◌&&◌, ◌↔◌, arith,
}
use go_passkey_auth.Domain.{ok, Credential}
use go_passkey_auth.Platform.{World}
use go_passkey_auth.Store.Postgres.Run.{run_sql}
use go_passkey_auth.Store.Postgres.Users.{insert_user, get_by_id, select_by_id}
use go_passkey_auth.Store.Postgres.Credentials.{
  insert_credential, is_live_of, has_key, list_by_user_id, select_by_user, order_by_age,
  insert_by_age, insert, get_by_credential_id, select_live,
}
use go_passkey_auth.Store.Postgres.SoftDelete.{
  soft_delete, delete_begun, delete_owned, delete_counted, lock_row, count_live, mark_deleted,
}
use go_passkey_auth.Store.Redis.Session as SessionStore
use go_passkey_auth.Webauthn.Service.{passed, create_credential, finish_registration}
use go_passkey_auth.Webauthn.Policy.{Accepts, create_credential_iff, finish_registration_iff}
use go_passkey_auth.Api.Http.{Request, steps, outcome, no_body}
use go_passkey_auth.Api.Http.Success.{Succeeds}
use go_passkey_auth.Api.Cookie.{non_empty}
use go_passkey_auth.Api.Middleware.{require_session, with_user, skip_logging}
use go_passkey_auth.Api.RequestLog.{
  Served, AttrValue, request_logger, has_user_id, request_logger-require_session,
}
use go_passkey_auth.Api.Users.{me, delete_credential}
use go_passkey_auth.Api.Guarded.{require_session-resolved}
use go_passkey_auth.Api.Ownership.{delete_credential-owned}
use go_passkey_auth.Api.Auth.Convert.{domain_credential_from_lib, lib_credential_from_domain}
use go_passkey_auth.Api.Auth.Conversion.{
  remembered, lib_credential_from_domain-domain_credential_from_lib,
}
use go_passkey_auth.Tests.Fixture.{platform, platform-IsUuid, passkey, start, request_of}
use go_passkey_auth.Tests.Stores.{alice_db, with_passkeys, credential_with}

abbrev with_session : World platform
with_session = record with_passkeys {
  redis = λ key. if key == "session:t" then some ("a", 500) else none;
}

abbrev with_cookie : Request
with_cookie = record (request_of "") { cookie = λ _. some "t" }

me_test : Succeeds (require_session me with_cookie with_session).0
unfolding require_session me steps SessionStore.get get_by_id run_sql select_by_id insert_user
    insert_credential
me_test = refl

require_session-resolved_example :
    (token : String) × (user_id : ℕ) × (non_empty (with_cookie.cookie "passkey_session")
      ≡ some token)
    × ((SessionStore.get token with_session).0 ≡ ok user_id)
    × ((require_session me with_cookie with_session).0
        ≡ (me (with_user user_id with_cookie) (SessionStore.get token with_session).1).0)
require_session-resolved_example = require_session-resolved me with_cookie with_session me_test

abbrev served : Served
served = record {
  method = "GET";
  path = "/api/v1/users/me";
  bytes_written = 2;
  duration_ms = 1;
  remote_addr = "127.0.0.1";
  request_id = "1";
}

shown_test : skip_logging served.path ≡ false
unfolding skip_logging
shown_test = refl

request_logger-require_session_example :
    let traced = (request_logger served (require_session me) with_cookie with_session).0 in
    (token : String) × (user_id : ℕ) × (attrs : List (String × AttrValue)) × (non_empty
        (with_cookie.cookie "passkey_session")
      ≡ some token)
    × ((SessionStore.get token with_session).0 ≡ ok user_id)
    × (traced.response
        ≡ outcome (me (with_user user_id with_cookie) (SessionStore.get token with_session).1).0)
    × (traced.attrs ≡ some attrs)
    × (has_user_id attrs ≡ false)
request_logger-require_session_example =
    request_logger-require_session served me with_cookie with_session refl shown_test me_test

abbrev deletion : Request
deletion = record (request_of "") { context_user = some 1; id_param = "aa" }

deletion_test : Succeeds (delete_credential deletion with_passkeys).0
unfolding delete_credential steps list_by_user_id run_sql select_by_user order_by_age insert_by_age
    soft_delete delete_begun delete_owned delete_counted lock_row count_live mark_deleted
    insert_user insert_credential
deletion_test = refl

delete_credential-owned_example :
    (u : ℕ) × (k : ℕ) × (deletion.context_user ≡ some u)
    × (platform.uuid_parse deletion.id_param ≡ some k)
    × (any (λ x. is_live_of u x && has_key k x) with_passkeys.db.credentials ≡ true)
    × (outcome (delete_credential deletion with_passkeys).0
        ≡ record { status = 204; body = no_body })
delete_credential-owned_example = delete_credential-owned deletion with_passkeys deletion_test

create_credential_iff_example :
    (create_credential {P = platform}
        (record { handle = []; name = "alice"; display_name = "Alice"; credentials = [] })
        []
        "credential"
        start
      ≡ passed passkey)
    ↔ Accepts (some passkey) passkey
create_credential_iff_example =
    create_credential_iff
      (record { handle = []; name = "alice"; display_name = "Alice"; credentials = [] }) []
      "credential" start passkey

finish_registration_iff_example :
    (finish_registration {P = platform}
        (record { handle = []; name = "alice"; display_name = "Alice"; credentials = [] })
        []
        "credential"
        start
      ≡ passed passkey)
    ↔ Accepts (some passkey) passkey
finish_registration_iff_example =
    finish_registration_iff
      (record { handle = []; name = "alice"; display_name = "Alice"; credentials = [] }) []
      "credential" start passkey

abbrev converted : Credential
converted = record (credential_with 7) {
  public_key = passkey.public_key;
  webauthn_user_handle = [];
  transports = passkey.transport;
}

abbrev read_back : Credential
read_back = record converted { id = 1; created_at = 100 }

abbrev with_alice : World platform
with_alice = record start { db = alice_db }

insert_test : (insert converted with_alice).0 ≡ ok read_back
unfolding insert run_sql insert_credential insert_user
insert_test = refl

found_test : (get_by_credential_id (7 ∷ []) (insert converted with_alice).1).0 ≡ ok read_back
unfolding insert get_by_credential_id run_sql select_live insert_credential insert_user
found_test = refl

lib_credential_from_domain-domain_credential_from_lib_example :
    lib_credential_from_domain platform read_back ≡ remembered passkey
unfolding domain_credential_from_lib
lib_credential_from_domain-domain_credential_from_lib_example =
    lib_credential_from_domain-domain_credential_from_lib platform-IsUuid 1 [] passkey converted
      read_back read_back with_alice (omega arith) refl insert_test found_test
