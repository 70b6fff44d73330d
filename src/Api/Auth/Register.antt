-- ===== src/Api/Auth/Register.antt =====
-- internal/api/handler/auth.go: BeginRegister and CompleteRegister.
use Prim.Native.String.{◌++◌ as append}
use go_passkey_auth.Prelude.{String, false}
use go_passkey_auth.Domain.{Result, ok, err, Err, user_not_found, username_taken, User}
use go_passkey_auth.Platform.{Platform, RegistrationSession, NamesRequest}
use go_passkey_auth.Store.Postgres.Users.{get_by_username, create_registered}
use go_passkey_auth.Api.Http.{
  Request, Handler, ◌>>=◌, ◌>>◌, write_error, write_json, internal_error, attempt, gets, registered,
}
use go_passkey_auth.Api.Auth.Deps.{Deps}
use go_passkey_auth.Api.Auth.Ceremony.{
  read_names, begin_ceremony, verify_ceremony, store_credential,
}

abbrev pub register_line : String → String
register_line s = append "register: " s

abbrev pub complete_line : String → String
complete_line s = append "register complete: " s

-- A session that carries the chosen names, and no promotion.
abbrev pub plain_session : {S : Type 0} → NamesRequest → S → RegistrationSession S
plain_session req session = record {
  session = session;
  username = req.username;
  display_name = req.display_name;
  promote_user_id = 0;
  promote = false;
}

module _ {P : Platform} where
  -- The switch on the lookup of the name: only its absence lets the request go on.
  unfoldable pub is_free : Result User → Handler P (Unit {0})
  is_free (ok _) = write_error 409 "username_taken"
  is_free (err user_not_found) = gets (λ _. tt)
  is_free (err _) = internal_error "register: lookup username"

  unfoldable pub check_name : String → Handler P (Unit {0})
  check_name username w = let (r, w') = get_by_username username w in is_free r w'

  unfoldable pub begin_register : Deps → Request → Handler P ⊥
  begin_register deps r = do
    req ← read_names r
    check_name req.username
    begin_ceremony {P = P} deps.challenge_ttl register_line (plain_session req) req

  unfoldable pub create_error : {A : Type 0} → Err → Handler P A
  create_error username_taken = write_error 409 "username_taken"
  create_error _ = internal_error "register complete: create user"

  unfoldable pub complete_register : Request → Handler P ⊥
  complete_register r = do
    (stored, cred) ← verify_ceremony {P = P} complete_line false r
    user ← attempt (create_registered stored.username stored.display_name) create_error
    saved ← store_credential complete_line user.id (P.lib.session_user_id stored.session) cred
    write_json 200 (registered (P.uuid_string user.id) (P.uuid_string saved.id))
