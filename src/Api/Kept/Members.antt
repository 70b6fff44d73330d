-- ===== src/Api/Kept/Members.antt =====
-- Logout, the session check and the endpoints of /users/me keep what their calls keep.
use go_passkey_auth.Prelude.{String, Option, none, some, refl, [], ◌∷◌}
use go_passkey_auth.Domain.{Result, ok, err, Err}
use go_passkey_auth.Platform.{Platform, World, warn_line, error_line}
use go_passkey_auth.Store.Redis.Session as SessionStore
use go_passkey_auth.Api.Http.{Request, Handler, logged, write_json}
use go_passkey_auth.Api.Http.Ensures.{Ensures, Keeps}
use go_passkey_auth.Api.Http.Stable.{IsStable}
use go_passkey_auth.Api.Cookie.{cookie_of, session_cookie_name, clear_session_cookie}
use go_passkey_auth.Api.Kept.{KeptByLookups, KeptByWrites}
use go_passkey_auth.Api.Kept.Steps.{ensures}
use go_passkey_auth.Api.Auth.Login.{delete_session, logout}
use go_passkey_auth.Api.Middleware.{
  write_unauthorized, write_internal_error, lookup_error, require_session,
}
use go_passkey_auth.Api.Users.{me_error, me, list_credentials, delete_error, delete_credential}

module _ {P : Platform} {Q : World P → Type 0} (kept : KeptByLookups Q) where
  delete_session-Keeps : (o : Option String) → Keeps Q (delete_session {P = P} o)
  delete_session-Keeps none = record { at = λ w q. q }
  delete_session-Keeps (some token) = record {
    at = λ w q. go (SessionStore.delete token w) ((kept.session_delete token).at w q);
  }
    where
      go :
          (s : Result (Unit {0}) × World P)
          → Q s.1
          → let r : World P = elim s.0 [
            | ok _ ↦ s.1
            | err _ ↦ logged (warn_line "logout: delete session") s.1
          ] in
            Q r
      go (ok _, w) q = q
      go (err _, w) q = kept.log.at (warn_line "logout: delete session" ∷ []) w q

  clear_session_cookie-Keeps : (r : Request) → Keeps Q (clear_session_cookie {P = P} r)
  clear_session_cookie-Keeps r = kept.cookie (cookie_of r session_cookie_name "" none)

  pub logout-Ensures : (r : Request) → Ensures Q IsStable (logout {P = P} r)
  unfolding logout
  logout-Ensures r = search (ensures, delete_session-Keeps, clear_session_cookie-Keeps) depth 8

  lookup_error-Ensures :
      {A : Type 0} (e : Err) → Ensures {A = A} Q IsStable (lookup_error {P = P} e)
  unfolding lookup_error write_unauthorized write_internal_error write_json
  lookup_error-Ensures Err.session_not_found = record { at = λ w q. (q, (refl, refl)) }
  lookup_error-Ensures _ = record {
    at = λ w q. (kept.log.at (error_line "session lookup" ∷ []) w q, (refl, refl));
  }

  write_unauthorized-Ensures :
      {A : Type 0} → Ensures {A = A} Q IsStable (write_unauthorized {P = P})
  unfolding write_unauthorized write_json
  write_unauthorized-Ensures = record { at = λ w q. (q, (refl, refl)) }

  pub require_session-Ensures :
      (inner : Request → Handler P ⊥)
      → ((r : Request) → Ensures Q IsStable (inner r))
      → (r : Request) → Ensures Q IsStable (require_session inner r)
  unfolding require_session
  require_session-Ensures inner h r =
      search (ensures, write_unauthorized-Ensures, kept.session_get, lookup_error-Ensures, h) depth
        8

  me_error-Ensures : {A : Type 0} (e : Err) → Ensures {A = A} Q IsStable (me_error {P = P} e)
  unfolding me_error
  me_error-Ensures Err.user_not_found = search ensures
  me_error-Ensures _ = search ensures

  pub me-Ensures : (r : Request) → Ensures Q IsStable (me {P = P} r)
  unfolding me
  me-Ensures r = search (ensures, kept.user_by_id, me_error-Ensures) depth 8

  pub list_credentials-Ensures : (r : Request) → Ensures Q IsStable (list_credentials {P = P} r)
  unfolding list_credentials
  list_credentials-Ensures r = search (ensures, kept.credentials_of) depth 8

  delete_error-Ensures :
      {A : Type 0} (e : Err) → Ensures {A = A} Q IsStable (delete_error {P = P} e)
  unfolding delete_error
  delete_error-Ensures Err.last_credential = search ensures
  delete_error-Ensures Err.credential_not_found = search ensures
  delete_error-Ensures _ = search ensures

  pub delete_credential-Ensures :
      KeptByWrites Q → (r : Request) → Ensures Q IsStable (delete_credential {P = P} r)
  unfolding delete_credential
  delete_credential-Ensures writes r =
      search (ensures, kept.credentials_of, delete_error-Ensures, writes.deletion) depth 14
