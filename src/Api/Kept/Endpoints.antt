-- ===== src/Api/Kept/Endpoints.antt =====
-- Every endpoint keeps what its calls keep, and ends in a stable response.
use go_passkey_auth.Prelude.{ℕ, String, Option, none, some, [], ◌∷◌}
use go_passkey_auth.Domain.{Result, ok, err, Err, User, Credential}
use go_passkey_auth.Platform as Go
use go_passkey_auth.Platform.{Platform, World, warn_line, counted, LogLine}
use go_passkey_auth.Platform.Library.{LibCredential, WaUser, LoginPlan, refused, settled, ask}
use go_passkey_auth.Webauthn.Service.{begin_login as service_begin_login, validate_login}
use go_passkey_auth.Store.Postgres.Users.{get_by_username, get_by_id}
use go_passkey_auth.Store.Postgres.Credentials.{get_by_credential_id}
use go_passkey_auth.Store.Redis.Guest as GuestStore
use go_passkey_auth.Api.Http.{Request, logged}
use go_passkey_auth.Api.Http.Ensures.{Ensures, Preserves, Keeps, Preserves-bind}
use go_passkey_auth.Api.Http.Stable.{IsStable}
use go_passkey_auth.Api.Cookie.{
  non_empty, session_cookie_name, guest_cookie_name, set_session_cookie, clear_guest_cookie,
  cookie_of,
}
use go_passkey_auth.Api.Kept.{KeptByLookups, KeptByWrites, KeptBySaves}
use go_passkey_auth.Api.Kept.Steps.{
  ensures, take_error-Ensures, begin_ceremony-Ensures, verify_ceremony-Ensures,
  store_credential-Ensures, read_names-Ensures, read_envelope-Ensures, Ensures-new_session_id,
}
use go_passkey_auth.Api.Auth.Deps.{Deps}
use go_passkey_auth.Api.Auth.Convert.{record_counter_anomalies, counter_anomalies}
use go_passkey_auth.Api.Auth.Ceremony.{drop_guest, delete_guest}
use go_passkey_auth.Api.Auth.Register.{
  is_free, check_name, begin_register, create_error, complete_register,
}
use go_passkey_auth.Api.Auth.Login.{
  begin_login, resolve, resolver, validate, complete_login, finish_login,
}

module _ {P : Platform} {Q : World P → Type 0} (kept : KeptByLookups Q) where
  is_free-Ensures : (r : Result User) → Ensures Q IsStable (is_free {P = P} r)
  unfolding is_free
  is_free-Ensures (ok u) = search ensures
  is_free-Ensures (err Err.user_not_found) = search ensures
  is_free-Ensures (err _) = search ensures

  check_name-Ensures : (n : String) → Ensures Q IsStable (check_name {P = P} n)
  unfolding check_name
  check_name-Ensures n = record {
    at = λ w q.
        (is_free-Ensures (get_by_username n w).0).at (get_by_username n w).1
          ((kept.user_by_name n).at w q);
  }

  pub begin_register-Ensures :
      {Fresh : String → Type 0}
      → KeptBySaves Fresh Q
      → (deps : Deps) (r : Request) → Ensures Q IsStable (begin_register {P = P} deps r)
  unfolding begin_register
  begin_register-Ensures {Fresh} saves deps r =
      search (ensures, read_names-Ensures, check_name-Ensures, begin_ceremony-Ensures) depth 8

  pub create_error-Ensures :
      {A : Type 0} (e : Err) → Ensures {A = A} Q IsStable (create_error {P = P} e)
  unfolding create_error
  create_error-Ensures Err.username_taken = search ensures
  create_error-Ensures _ = search ensures

  pub complete_register-Ensures :
      KeptByWrites Q → (r : Request) → Ensures Q IsStable (complete_register {P = P} r)
  unfolding complete_register
  complete_register-Ensures writes r =
      search
        (
          ensures, verify_ceremony-Ensures, create_error-Ensures, store_credential-Ensures,
          writes.new_user_row,
        )
        depth 10

  begin_login_call-Preserves : (sid : String) → Preserves Q (service_begin_login {P = P} sid)
  unfolding service_begin_login
  begin_login_call-Preserves sid = record { at = kept.count_call.at }

  pub begin_login-Ensures :
      {Fresh : String → Type 0}
      → KeptBySaves Fresh Q
      → (deps : Deps) → Ensures Q IsStable (begin_login {P = P} deps)
  unfolding begin_login
  begin_login-Ensures saves deps =
      Ensures-new_session_id kept saves _ _
        (λ s fresh. search (ensures, begin_login_call-Preserves, saves.save_challenge) depth 12)

  pure-Preserves : {A : Type 0} (a : A) → Preserves Q (Go.pure {P = P} a)
  pure-Preserves a = record { at = λ w q. q }

  resolve-Preserves : (parsed : P.lib.ParsedAssertion) → Preserves Q (resolve {P = P} parsed)
  unfolding resolve
  resolve-Preserves parsed =
      Preserves-bind (get_by_credential_id (P.lib.raw_id parsed))
        (λ c. Go.◌>>=◌ (get_by_id c.user_id) (λ u. Go.pure (u, c)))
        (kept.credential_by_id (P.lib.raw_id parsed))
        λ c.
          Preserves-bind (get_by_id c.user_id) (λ u. Go.pure (u, c)) (kept.user_by_id c.user_id)
            (λ u. pure-Preserves (u, c))

  validate_login-Preserves :
      {R : Type 0} (handler : World P → (Option WaUser × Option R) × World P)
      (session : P.lib.SessionData) (parsed : P.lib.ParsedAssertion)
      → Preserves Q handler
      → Preserves Q (validate_login {P = P} handler session parsed)
  unfolding validate_login
  validate_login-Preserves {R} handler session parsed h = record {
    at = λ w q. go (P.lib.validate_discoverable_login w.now session parsed) w q;
  }
    where
      go :
          (plan : LoginPlan) (w : World P)
          → Q w
          → let r : (Option LibCredential × Option R) × World P = elim plan [
            | refused ↦ ((none, none), w)
            | settled cred ↦ ((some cred, none), w)
            | ask _ _ k ↦ let ((user, resolved), w') = handler w in ((k user, resolved), w')
          ] in
            Q r.1
      go refused w q = q
      go (settled cred) w q = q
      go (ask _ _ k) w q = h.at w q

  pub validate-Ensures :
      (session : P.lib.SessionData) (parsed : P.lib.ParsedAssertion)
      → Ensures Q IsStable (validate {P = P} session parsed)
  unfolding validate
  validate-Ensures session parsed =
      let run : Preserves Q (validate_login {P = P} (resolver parsed) session parsed) =
        validate_login-Preserves (resolver parsed) session parsed
          (record { at = (resolve-Preserves parsed).at }) in
      search (ensures, run) depth 8

  delete_guest-Keeps : (line token : String) → Keeps Q (delete_guest {P = P} line token)
  delete_guest-Keeps line token = record {
    at = λ w q. go (GuestStore.delete token w) ((kept.guest_delete token).at w q);
  }
    where
      go :
          (s : Result (Unit {0}) × World P)
          → Q s.1
          → let r : World P = elim s.0 [ ok _ ↦ s.1 | err _ ↦ logged (warn_line line) s.1 ] in Q r
      go (ok _, w) q = q
      go (err _, w) q = kept.log.at (warn_line line ∷ []) w q

  pub drop_guest-Keeps : (line : String) (r : Request) → Keeps Q (drop_guest {P = P} line r)
  unfolding drop_guest
  drop_guest-Keeps line r = record { at = λ w q. go (non_empty (r.cookie guest_cookie_name)) w q }
    where
      go :
          (o : Option String) (w : World P)
          → Q w
          → let r : World P = elim o [
            | none ↦ w
            | some token ↦ clear_guest_cookie r (delete_guest line token w)
          ] in
            Q r
      go none w q = q
      go (some token) w q =
          (kept.cookie (cookie_of r guest_cookie_name "" none)).at (delete_guest line token w)
            ((delete_guest-Keeps line token).at w q)

  anomalies-Keeps :
      (stored : Credential) (asserted : LibCredential)
      → Keeps Q (record_counter_anomalies {P = P} stored asserted)
  anomalies-Keeps stored asserted = record {
    at = λ w q. kept.log.at (counter_anomalies P stored asserted) w q;
  }

  pub set_session_cookie-Keeps :
      (r : Request) (token : String) (age : ℕ) → Keeps Q (set_session_cookie {P = P} r token age)
  set_session_cookie-Keeps r token age =
      kept.cookie (cookie_of r session_cookie_name token (some age))

  pub finish_login-Ensures :
      KeptByWrites Q
      → (deps : Deps) (r : Request) (cred : LibCredential) (user : User) (found : Credential)
      → Ensures Q IsStable (finish_login {P = P} deps r cred user found)
  unfolding finish_login
  finish_login-Ensures writes deps r cred user found =
      search
        (
          ensures, anomalies-Keeps, writes.assertion, kept.session_create, set_session_cookie-Keeps,
          drop_guest-Keeps,
        )
        depth 20

  pub complete_login-Ensures :
      KeptByWrites Q
      → (deps : Deps) (r : Request) → Ensures Q IsStable (complete_login {P = P} deps r)
  unfolding complete_login
  complete_login-Ensures writes deps r =
      search
        (
          ensures,
          read_envelope-Ensures,
          take_error-Ensures,
          kept.take_challenge,
          validate-Ensures,
          finish_login-Ensures writes,
        )
        depth 20
