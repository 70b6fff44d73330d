-- ===== src/Api/Auth/Ceremony.antt =====
-- internal/api/handler/auth.go: the steps that several endpoints take alike.
use go_passkey_auth.Prelude.{
  ℕ, Bool, true, false, ◌||◌, String, Option, none, some, ◌==◌, string_eq, if◌then◌else◌, Bytes, [],
}
use go_passkey_auth.Domain.{Err, ok, err, challenge_not_found, credential_exists, Credential}
use go_passkey_auth.Platform.{
  Platform, World, counted, warn_line, CompleteRequest, NamesRequest, RegistrationSession,
}
use go_passkey_auth.Platform.Library.{LibCredential, WaUser}
use go_passkey_auth.Store.Redis.Challenge.{save, take}
use go_passkey_auth.Store.Redis.Guest as GuestStore
use go_passkey_auth.Store.Postgres.Credentials as CredentialStore
use go_passkey_auth.Webauthn.Service.{
  attestation_not_accepted, attestation_type_not_accepted, lib_error, Checked, passed, rejected,
  new_user_handle, begin_registration, create_credential, parse_credential_creation,
}
use go_passkey_auth.Api.Http.{
  Request, Handler, ◌>>=◌, ◌>>◌, write_error, write_json, log_error, internal_error, refuse_if,
  or_else, attempt, obtain, gets, logged, creation_options,
}
use go_passkey_auth.Api.Cookie.{guest_cookie_name, non_empty, clear_guest_cookie}
use go_passkey_auth.Api.Auth.Convert.{domain_credential_from_lib}

abbrev pub fresh_user : Bytes → NamesRequest → WaUser
fresh_user handle req = record {
  handle = handle;
  name = req.username;
  display_name = req.display_name;
  credentials = [];
}

-- The user that the library verifies a registration against.
abbrev pub stored_user : (P : Platform) → RegistrationSession P.lib.SessionData → WaUser
stored_user P stored = record {
  handle = P.lib.session_user_id stored.session;
  name = stored.username;
  display_name = stored.display_name;
  credentials = [];
}

module _ {P : Platform} where
  -- `newSessionID`
  abbrev pub new_session_id : World P → Option String × World P
  new_session_id w = elim (P.rand_read w.calls 32) [
    | none ↦ (none, counted w)
    | some b ↦ (some (P.encode_base64 b), counted w)
  ]

  -- The body of a /begin request, both names given.
  unfoldable pub read_names : Request → Handler P NamesRequest
  read_names r = do
    req ← or_else (P.decode_names r.body) (write_error 400 "invalid_request")
    refuse_if (req.username == "" || req.display_name == "") 400 "missing_fields"
    gets (λ _. req)

  -- The envelope of a /complete request, both fields given.
  unfoldable pub read_envelope : Request → Handler P CompleteRequest
  read_envelope r = do
    req ← or_else (P.decode_complete r.body) (write_error 400 "invalid_request")
    refuse_if (req.session_id == "" || req.credential == "") 400 "missing_fields"
    gets (λ _. req)

  -- The errors of `challenges.Take`; the line is the endpoint's.
  unfoldable pub take_error : {A : Type 0} → String → Err → Handler P A
  take_error line challenge_not_found = write_error 401 "session_invalid"
  take_error line _ = internal_error line

  -- From the user handle on, /register/begin and /promote/begin run the same calls. `stored` is what
  -- the session keeps beside the library's data; `line` puts the endpoint's name into a log line.
  unfoldable pub begin_ceremony :
      ℕ
      → (String → String)
      → (P.lib.SessionData → RegistrationSession P.lib.SessionData)
      → NamesRequest
      → Handler P ⊥
  begin_ceremony ttl line stored req = do
    handle ← obtain new_user_handle (internal_error (line "user handle"))
    session_id ← obtain new_session_id (internal_error (line "session id"))
    (options, session) ←
        obtain (begin_registration {P = P} (fresh_user handle req) session_id)
          (internal_error (line "webauthn begin"))
    payload ←
        or_else (P.marshal_registration (stored session)) (internal_error (line "marshal session"))
    attempt (save {P = P} ttl session_id payload) (λ _. internal_error (line "save challenge"))
    write_json {P = P} 200 (creation_options options.options options.session_id)

  unfoldable pub accepted : {A : Type 0} → Checked A → String → Handler P A
  accepted (passed a) line = gets (λ _. a)
  accepted (rejected attestation_not_accepted) line = write_error 400 "attestation_rejected"
  accepted (rejected attestation_type_not_accepted) line =
      log_error (warn_line line) 400 "invalid_request"
  accepted (rejected lib_error) line = log_error (warn_line line) 400 "invalid_request"

  -- From the stored session on. `promote` is the flow that the endpoint serves: a session of the
  -- other flow is refused.
  unfoldable pub verify_stored :
      (String → String)
      → Bool
      → String
      → RegistrationSession P.lib.SessionData
      → Handler P (RegistrationSession P.lib.SessionData × LibCredential)
  verify_stored line promote credential stored = do
    refuse_if (if promote then (if stored.promote then false else true) else stored.promote) 401
        "session_invalid"
    parsed ←
        or_else (parse_credential_creation P credential)
          (log_error (warn_line (line "parse credential")) 400 "invalid_request")
    checked ← gets (create_credential {P = P} (stored_user P stored) stored.session parsed)
    cred ← accepted checked (line "verify attestation")
    gets (λ _. (stored, cred))

  -- /register/complete and /promote/complete, up to the verified credential.
  unfoldable pub verify_ceremony :
      (String → String)
      → Bool
      → Request
      → Handler P (RegistrationSession P.lib.SessionData × LibCredential)
  verify_ceremony line promote r = do
    req ← read_envelope r
    raw ← attempt (take req.session_id) (take_error (line "take challenge"))
    stored ← or_else (P.unmarshal_registration raw) (internal_error (line "unmarshal session"))
    verify_stored line promote req.credential stored

  -- The credential row that ends a registration or a promotion.
  unfoldable pub insert_error : {A : Type 0} → String → Err → Handler P A
  insert_error line credential_exists = write_error 409 "credential_exists"
  insert_error line _ = internal_error line

  unfoldable pub store_credential :
      (String → String) → ℕ → Bytes → LibCredential → Handler P Credential
  store_credential line user_id handle cred = do
    domain ←
        or_else (domain_credential_from_lib P user_id handle cred)
          (internal_error (line "convert credential"))
    attempt (CredentialStore.insert domain) (insert_error (line "insert credential"))

  -- The guest token and cookie go once the user is authenticated. A failure to delete is logged.
  abbrev pub delete_guest : String → String → World P → World P
  delete_guest line token w =
      let (r, w') = GuestStore.delete token w in
      elim r [ ok _ ↦ w' | err _ ↦ logged (warn_line line) w' ]

  unfoldable pub drop_guest : String → Request → World P → World P
  drop_guest line r w = elim (non_empty (r.cookie guest_cookie_name)) [
    | none ↦ w
    | some token ↦ clear_guest_cookie r (delete_guest line token w)
  ]
