-- ===== src/Api/Auth/Login.antt =====
-- internal/api/handler/auth.go: BeginLogin, CompleteLogin and Logout.
use go_passkey_auth.Prelude.{String, Option, none, some, [], ◌∷◌}
use go_passkey_auth.Domain.{Result, ok, err, User, Credential}
use go_passkey_auth.Platform.{Platform, World, Call, LoginSession, warn_line, error_line}
use go_passkey_auth.Platform as Go
use go_passkey_auth.Platform.Library.{WaUser, LibCredential}
use go_passkey_auth.Store.Postgres.Users.{get_by_id}
use go_passkey_auth.Store.Postgres.Credentials.{get_by_credential_id, update_after_assertion}
use go_passkey_auth.Store.Redis.Challenge.{save, take}
use go_passkey_auth.Store.Redis.Session as SessionStore
use go_passkey_auth.Webauthn.Service.{
  begin_login as service_begin_login, validate_login, parse_credential_assertion,
}
use go_passkey_auth.Api.Http.{
  Request, Handler, ◌>>=◌, ◌>>◌, write_json, log_error, internal_error, or_else, attempt, obtain,
  gets, gets_call, modify, logged, no_body, assertion_options, logged_in,
}
use go_passkey_auth.Api.Cookie.{
  session_cookie_name, non_empty, set_session_cookie, clear_session_cookie,
}
use go_passkey_auth.Api.Auth.Deps.{Deps}
use go_passkey_auth.Api.Auth.Convert.{lib_credential_from_domain, record_counter_anomalies}
use go_passkey_auth.Api.Auth.Ceremony.{new_session_id, read_envelope, take_error, drop_guest}

-- The user that the resolver returns to the library.
abbrev pub login_user : Platform → User → Credential → WaUser
login_user P u c = record {
  handle = c.webauthn_user_handle;
  name = u.username;
  display_name = u.display_name;
  credentials = lib_credential_from_domain P c ∷ [];
}

abbrev pub resolver_result :
    Platform → Result (User × Credential) → Option WaUser × Option (User × Credential)
resolver_result P (ok (u, c)) = (some (login_user P u c), some (u, c))
resolver_result P (err _) = (none, none)

module _ {P : Platform} where
  unfoldable pub begin_login : Deps → Handler P ⊥
  begin_login deps = do
    session_id ← obtain new_session_id (internal_error "login: session id")
    (options, session) ←
        obtain (service_begin_login {P = P} session_id) (internal_error "login: webauthn begin")
    payload ←
        or_else (P.marshal_login (record { session = session }))
          (internal_error "login: marshal session")
    attempt (save {P = P} deps.challenge_ttl session_id payload)
        (λ _. internal_error "login: save challenge")
    write_json {P = P} 200 (assertion_options options.options options.session_id)

  -- The two lookups of the resolver.
  unfoldable pub resolve : P.lib.ParsedAssertion → Call P (User × Credential)
  resolve parsed =
      Go.◌>>=◌ (get_by_credential_id (P.lib.raw_id parsed))
        λ c. Go.◌>>=◌ (get_by_id c.user_id) (λ u. Go.pure (u, c))

  abbrev pub resolver :
      P.lib.ParsedAssertion → World P → (Option WaUser × Option (User × Credential)) × World P
  resolver parsed w = let (r, w') = resolve parsed w in (resolver_result P r, w')

  -- From the library's verdict on: what was resolved is there unless the library never asked.
  unfoldable pub validate :
      P.lib.SessionData → P.lib.ParsedAssertion → Handler P (LibCredential × User × Credential)
  validate session parsed = do
    (verdict, resolved) ← gets_call (validate_login (resolver parsed) session parsed)
    cred ← or_else verdict (log_error (warn_line "login complete: validate") 401 "unauthorized")
    (user, stored) ← or_else resolved (internal_error "login complete: resolver bypassed")
    gets (λ _. (cred, user, stored))

  -- From the validated assertion on.
  unfoldable pub finish_login : Deps → Request → LibCredential → User → Credential → Handler P ⊥
  finish_login deps r cred user found = do
    modify (record_counter_anomalies found cred)
    attempt (update_after_assertion found.id cred.sign_count cred.backup_eligible cred.backup_state)
        (λ _. internal_error "login complete: update credential")
    token ←
        attempt (SessionStore.create deps.session_ttl user.id)
          (λ _. internal_error "login complete: create session")
    modify (set_session_cookie r token deps.session_max_age)
    modify (drop_guest "login complete: delete guest" r)
    write_json 200 (logged_in (P.uuid_string user.id) user.username user.display_name)

  unfoldable pub complete_login : Deps → Request → Handler P ⊥
  complete_login deps r = do
    req ← read_envelope r
    raw ← attempt (take req.session_id) (take_error "login complete: take challenge")
    stored ← or_else (P.unmarshal_login raw) (internal_error "login complete: unmarshal session")
    parsed ←
        or_else (parse_credential_assertion P req.credential)
          (log_error (warn_line "login complete: parse credential") 400 "invalid_request")
    (cred, user, found) ← validate stored.session parsed
    finish_login deps r cred user found

  abbrev pub delete_session : Option String → World P → World P
  delete_session none w = w
  delete_session (some token) w =
      let (r, w') = SessionStore.delete token w in
      elim r [ ok _ ↦ w' | err _ ↦ logged (warn_line "logout: delete session") w' ]

  unfoldable pub logout : Request → Handler P ⊥
  logout r = do
    modify (delete_session (non_empty (r.cookie session_cookie_name)))
    modify (clear_session_cookie r)
    write_json 204 no_body
