-- ===== src/Api/Auth/Promote.antt =====
-- internal/api/handler/auth.go: BeginPromote and CompletePromote.
use Prim.Native.String.{◌++◌ as append}
use go_passkey_auth.Prelude.{ℕ, String, true, not}
use go_passkey_auth.Domain.{Err, user_not_found, username_taken}
use go_passkey_auth.Platform.{Platform, RegistrationSession, NamesRequest}
use go_passkey_auth.Store.Postgres.Users.{promote_guest}
use go_passkey_auth.Store.Redis.Session as SessionStore
use go_passkey_auth.Api.Http.{
  Request, Handler, ◌>>=◌, ◌>>◌, write_error, write_json, internal_error, refuse_if, attempt,
  obtain, modify, logged_in,
}
use go_passkey_auth.Api.Cookie.{set_session_cookie}
use go_passkey_auth.Api.Auth.Deps.{Deps}
use go_passkey_auth.Api.Auth.Ceremony.{
  read_names, begin_ceremony, verify_ceremony, store_credential, drop_guest,
}
use go_passkey_auth.Api.Auth.Guest.{resolve_guest}

abbrev pub promote_line : String → String
promote_line s = append "promote: " s

abbrev pub complete_line : String → String
complete_line s = append "promote complete: " s

-- A session that carries the chosen names and the guest's row.
abbrev pub promote_session : {S : Type 0} → ℕ → NamesRequest → S → RegistrationSession S
promote_session guest_id req session = record {
  session = session;
  username = req.username;
  display_name = req.display_name;
  promote_user_id = guest_id;
  promote = true;
}

module _ {P : Platform} where
  unfoldable pub begin_promote : Deps → Request → Handler P ⊥
  begin_promote deps r = do
    req ← read_names r
    guest ← obtain (resolve_guest r) (write_error 401 "guest_invalid")
    refuse_if (not guest.is_guest) 409 "not_a_guest"
    begin_ceremony {P = P} deps.challenge_ttl promote_line (promote_session guest.id req) req

  unfoldable pub promote_error : {A : Type 0} → Err → Handler P A
  promote_error username_taken = write_error 409 "username_taken"
  promote_error user_not_found = write_error 409 "not_a_guest"
  promote_error _ = internal_error "promote complete: promote user"

  unfoldable pub complete_promote : Deps → Request → Handler P ⊥
  complete_promote deps r = do
    (stored, cred) ← verify_ceremony {P = P} complete_line true r
    user ←
        attempt (promote_guest stored.promote_user_id stored.username stored.display_name)
          promote_error
    store_credential complete_line user.id (P.lib.session_user_id stored.session) cred
    token ←
        attempt (SessionStore.create deps.session_ttl user.id)
          (λ _. internal_error "promote complete: create session")
    modify (drop_guest "promote complete: delete guest" r)
    modify (set_session_cookie r token deps.session_max_age)
    write_json 200 (logged_in (P.uuid_string user.id) user.username user.display_name)
