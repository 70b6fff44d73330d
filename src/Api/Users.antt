-- ===== src/Api/Users.antt =====
-- internal/api/handler/user.go: the endpoints under /users/me.
use go_passkey_auth.Prelude.{ℕ, String, Option, none, some, ◌==◌, nat_eq, not, any, map}
use go_passkey_auth.Domain.{Credential, Err, user_not_found, last_credential, credential_not_found}
use go_passkey_auth.Platform.{Platform}
use go_passkey_auth.Store.Postgres.Users.{get_by_id}
use go_passkey_auth.Store.Postgres.Credentials.{list_by_user_id}
use go_passkey_auth.Store.Postgres.SoftDelete.{soft_delete}
use go_passkey_auth.Api.Http.{
  Request, CredentialResponse, Handler, ◌>>=◌, ◌>>◌, write_error, write_json, internal_error,
  or_else, refuse_if, attempt, no_body, profile, credential_list,
}

abbrev pub uuid_text : Platform → Option ℕ → Option String
uuid_text P none = none
uuid_text P (some id) = some (P.uuid_string id)

-- One item of the listing.
abbrev pub credential_response : Platform → Credential → CredentialResponse
credential_response P c = record {
  id = P.uuid_string c.id;
  name = c.name;
  aaguid = uuid_text P c.aaguid;
  transports = c.transports;
  backup_eligible = c.backup_eligible;
  backup_state = c.backup_state;
  created_at = c.created_at;
  last_used_at = c.last_used_at;
}

module _ {P : Platform} where
  unfoldable pub me_error : {A : Type 0} → Err → Handler P A
  me_error user_not_found = write_error 401 "unauthorized"
  me_error _ = internal_error "user me: get user"

  unfoldable pub me : Request → Handler P ⊥
  me r = do
    user_id ← or_else r.context_user (write_error 401 "unauthorized")
    user ← attempt (get_by_id user_id) me_error
    write_json 200 (profile (P.uuid_string user.id) user.username user.display_name user.is_guest)

  unfoldable pub list_credentials : Request → Handler P ⊥
  list_credentials r = do
    user_id ← or_else r.context_user (write_error 401 "unauthorized")
    creds ← attempt (list_by_user_id user_id) (λ _. internal_error "list credentials")
    write_json 200 (credential_list (map (credential_response P) creds))

  unfoldable pub delete_error : {A : Type 0} → Err → Handler P A
  delete_error last_credential = write_error 409 "last_credential"
  delete_error credential_not_found = write_error 404 "not_found"
  delete_error _ = internal_error "delete credential: soft delete"

  -- The credential must be among those of the user before the store is asked to delete it.
  unfoldable pub delete_credential : Request → Handler P ⊥
  delete_credential r = do
    user_id ← or_else r.context_user (write_error 401 "unauthorized")
    cred_id ← or_else (P.uuid_parse r.id_param) (write_error 400 "invalid_request")
    owned ← attempt (list_by_user_id user_id) (λ _. internal_error "delete credential: list")
    refuse_if (not (any (λ (c : Credential). c.id == cred_id) owned)) 404 "not_found"
    attempt (soft_delete cred_id) delete_error
    write_json 204 no_body
