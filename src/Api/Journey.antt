-- ===== src/Api/Journey.antt =====
-- internal/api/handler/auth.go: a registration, and a login in Journey.Login, that nobody disturbs,
-- from the first request to the last.
pub mod First
pub mod Second
pub mod Whole
pub mod Login
use go_passkey_auth.Prelude.{
  ℕ, zero, suc, ◌+◌, ◌<◌, false, true, ◌||◌, Bytes, String, ◌≡◌, ◌≢◌, some, any, ◌==◌, string_eq,
}
use go_passkey_auth.Domain.{Credential}
use go_passkey_auth.Platform.{Platform, World, NamesRequest, answered}
use go_passkey_auth.Platform.Redis.{value, failed}
use go_passkey_auth.Platform.Library.{LibCredential}
use go_passkey_auth.Store.Redis.Challenge.{challenge_key}
use go_passkey_auth.Store.Postgres.Users.{has_id, is_registered_as}
use go_passkey_auth.Store.Postgres.Credentials.{has_key, is_live_with}
use go_passkey_auth.Webauthn.Attestation.{is_accepted_attestation, is_accepted_attestation_type}
use go_passkey_auth.Webauthn.Service.{user_handle_size}
use go_passkey_auth.Api.Http.{Request}
use go_passkey_auth.Api.Auth.Deps.{Deps}
use go_passkey_auth.Api.Auth.Convert.{domain_credential_from_lib}
use go_passkey_auth.Api.Auth.Ceremony.{fresh_user, stored_user}
use go_passkey_auth.Api.Auth.Register.{plain_session}

-- The number of the call that follows `k` others, counted from the `n`-th.
abbrev pub call_after : ℕ → ℕ → ℕ
call_after zero n = n
call_after (suc k) n = suc (call_after k n)

-- What a /begin request and a /complete request after `elapsed` meet, from the state `w`, when every
-- call outside the program succeeds. The calls are numbered from `w.calls` on: the lookup of the name,
-- the user handle, the session id, the library and the save; then the take and the two inserts.
pub record IsHonest {P : Platform} (deps : Deps) (begin complete : Request) (w : World P)
    (elapsed : ℕ) : Type 0 where
  pub names : NamesRequest
  pub handle : Bytes
  pub drawn : Bytes
  pub options : P.lib.CreationOptions
  pub session : P.lib.SessionData
  pub payload : String
  pub credential : String
  pub parsed : P.lib.ParsedCreation
  pub cred : LibCredential
  pub domain : Credential
  pub answers : (n : ℕ) → P.pg_outcome n ≡ answered
  -- the first request gives both names, and the username is free
  pub named : P.decode_names begin.body ≡ some names
  pub named_fully : (names.username == "" || names.display_name == "") ≡ false
  pub name_free : any (is_registered_as names.username) w.db.users ≡ false
  -- the random source, the library, the encoder and Redis do their parts
  pub draws_handle : P.rand_read (call_after 1 w.calls) user_handle_size ≡ some handle
  pub draws_id : P.rand_read (call_after 2 w.calls) 32 ≡ some drawn
  pub begins :
      P.lib.begin_registration (call_after 3 w.calls) (fresh_user handle names)
      ≡ some (options, some session)
  pub marshals : P.marshal_registration (plain_session names session) ≡ some payload
  pub saves :
      (P.redis.set w.now
        (challenge_key (P.encode_base64 drawn))
        payload
        deps.challenge_ttl
        w.redis).0
      ≡ value tt
  -- the second request comes in time, with the session id and a credential
  pub in_time : elapsed < deps.challenge_ttl
  pub decoded :
      P.decode_complete complete.body
      ≡ some (record { session_id = P.encode_base64 drawn; credential = credential })
  pub filled : (P.encode_base64 drawn == "" || credential == "") ≡ false
  pub reads :
      (P.redis.get_del
        (w.now + elapsed)
        (challenge_key (P.encode_base64 drawn))
        (P.redis.set w.now
          (challenge_key (P.encode_base64 drawn))
          payload
          deps.challenge_ttl
          w.redis).1).0
      ≢ failed
  pub unmarshals : P.unmarshal_registration payload ≡ some (plain_session names session)
  -- the library makes a credential of it, which the policy accepts and the tables do not have
  pub is_parsed : P.lib.parse_creation credential ≡ some parsed
  pub attested :
      P.lib.create_credential
        (w.now + elapsed)
        (stored_user P (plain_session names session))
        session
        parsed
      ≡ some cred
  pub accepts_format : is_accepted_attestation cred.attestation_format ≡ true
  pub accepts_type : is_accepted_attestation_type cred.attestation_type ≡ true
  pub converts :
      domain_credential_from_lib P
        (P.new_uuid (call_after 6 w.calls))
        (P.lib.session_user_id session)
        cred
      ≡ some domain
  pub new_id : any (has_id (P.new_uuid (call_after 6 w.calls))) w.db.users ≡ false
  pub new_key : any (has_key (P.new_uuid (call_after 7 w.calls))) w.db.credentials ≡ false
  pub new_credential : any (is_live_with domain.credential_id) w.db.credentials ≡ false
