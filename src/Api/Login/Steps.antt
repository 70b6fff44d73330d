-- ===== src/Api/Login/Steps.antt =====
-- internal/api/handler/auth.go, CompleteLogin: what each step that goes on has found.
use go_passkey_auth.Prelude.{
  String, Option, none, some, ◌≡◌, refl, arith, Option-cases, inl, inr, find, Bytes,
}
use go_passkey_auth.Domain.{Result, ok, err, Err, User, Credential, challenge_not_found}
use go_passkey_auth.Platform.{Platform, World, warn_line, CompleteRequest}
use go_passkey_auth.Platform.Library.{LibCredential, WaUser, LoginPlan, refused, settled, ask}
use go_passkey_auth.Store.Tables.{CredentialRow}
use go_passkey_auth.Store.Postgres.Run.{run_sql}
use go_passkey_auth.Store.Postgres.Users.{has_id, get_by_id, select_by_id}
use go_passkey_auth.Store.Postgres.Credentials.{
  is_live_with, scanned, get_by_credential_id, select_live,
}
use go_passkey_auth.Webauthn.Service.{validate_login}
use go_passkey_auth.Api.Http.{
  Request, ◌>>=◌, ◌>>◌, write_json, log_error, internal_error, or_else, gets, gets_call, refuse_if,
  write_error, next,
}
use go_passkey_auth.Api.Http.Success.{
  Fails, Ends, or_else-Fails, write_error-Fails, refuse_if-Fails, log_error-Fails,
  internal_error-Fails, write_error-Ends, internal_error-Ends,
}
use go_passkey_auth.Api.Http.Ensures.{Ensures-bind, Ensures-seq, Ensures-gets, Ensures-gets_call}
use go_passkey_auth.Api.Auth.Ceremony.{read_envelope, take_error}
use go_passkey_auth.Api.Auth.Login.{validate, resolver, resolve, resolver_result, login_user}

module _ {P : Platform} where
  pub read_envelope-Fails : (r : Request) → Fails {P = P} (read_envelope r)
  unfolding read_envelope
  read_envelope-Fails r =
      Ensures-bind (or_else-Fails _ (write_error-Fails 400 "invalid_request"))
        λ req. Ensures-seq (refuse_if-Fails _ 400 "missing_fields") (Ensures-gets (λ _. req))

  pub take_error-Fails :
      {A : Type 0} (line : String) (e : Err) → Fails {P = P} {A = A} (take_error line e)
  unfolding take_error
  take_error-Fails line challenge_not_found = write_error-Fails 401 "session_invalid"
  take_error-Fails line _ = internal_error-Fails line

  pub take_error-Ends :
      {A : Type 0} (line : String) (e : Err) → Ends {P = P} {A = A} (take_error line e)
  unfolding take_error
  take_error-Ends line challenge_not_found = write_error-Ends 401 "session_invalid"
  take_error-Ends line _ = internal_error-Ends line

  pub validate-Fails :
      (s : P.lib.SessionData) (parsed : P.lib.ParsedAssertion) → Fails {P = P} (validate s parsed)
  unfolding validate
  validate-Fails s parsed = Ensures-bind (Ensures-gets_call (record { at = λ w q. tt })) λ found.
      Ensures-bind (or_else-Fails found.0 (log_error-Fails _ 401 "unauthorized"))
        λ cred. Ensures-bind (or_else-Fails found.1 (internal_error-Fails _)) λ both. Ensures-gets _

  pub read_envelope_inv :
      (r : Request) (w : World P) {req : CompleteRequest}
      → (read_envelope r w).0 ≡ next req
      → (P.decode_complete r.body ≡ some req) × ((read_envelope r w).1 ≡ w)
  unfolding read_envelope refuse_if or_else gets write_error write_json ◌>>=◌ ◌>>◌
  read_envelope_inv r w h = elim (Option-cases (P.decode_complete r.body)) [
    | inl e ↦ ground (arith, e)
    | inr (q, e) ↦ (ground arith, ground arith)
  ]

  pub validate_inv :
      (s : P.lib.SessionData) (parsed : P.lib.ParsedAssertion) (w : World P) {c : LibCredential}
      {u : User} {f : Credential}
      → (validate s parsed w).0 ≡ next (c, u, f)
      → (validate_login (resolver parsed) s parsed w).0 ≡ (some c, some (u, f))
  unfolding validate or_else gets gets_call ◌>>=◌ log_error internal_error write_error write_json
  validate_inv s parsed w {c} {u} {f} h =
      let v = (validate_login (resolver parsed) s parsed w) in go v.0.0 v.0.1 v.1 h
    where
      go :
          (x : Option LibCredential) (y : Option (User × Credential)) (w' : World P)
          → ((or_else x (log_error (warn_line "login complete: validate") 401 "unauthorized")
                >>= λ cred.
                    or_else y (internal_error "login complete: resolver bypassed") >>= λ both.
                    let t : LibCredential × User × Credential = (cred, both.0, both.1) in
                    gets (λ _. t))
              w').0
            ≡ next (c, u, f)
          → ◌≡◌ {A = Option LibCredential × Option (User × Credential)} (x, y) (some c, some (u, f))
      go none y w' h = cc
      go (some x) none w' h = cc
      go (some x) (some y) w' h = ground arith

  pub resolve_inv :
      (parsed : P.lib.ParsedAssertion) (w : World P) {u : User} {f : Credential}
      → (resolve {P = P} parsed w).0 ≡ ok (u, f)
      → (x : CredentialRow) × (find (is_live_with (P.lib.raw_id parsed)) w.db.credentials ≡ some x)
        × (f ≡ scanned x.columns)
        × (find (has_id f.user_id) w.db.users ≡ some u)
  unfolding resolve get_by_credential_id get_by_id run_sql select_live select_by_id
  resolve_inv parsed w h =
      elim (Option-cases (find (is_live_with (P.lib.raw_id parsed)) w.db.credentials)) [
        | inl e ↦ ground (arith, e)
        | inr (x, e) ↦ (x, e, ground arith, ground arith)
      ]

  pub validate_login_inv :
      (s : P.lib.SessionData) (parsed : P.lib.ParsedAssertion) (w : World P) {c : LibCredential}
      {u : User} {f : Credential}
      → (validate_login (resolver parsed) s parsed w).0 ≡ (some c, some (u, f))
      → (ids : Bytes × Bytes) × (k : Option WaUser → Option LibCredential)
        × (P.lib.validate_discoverable_login w.now s parsed ≡ ask ids.0 ids.1 k)
        × (k (some (login_user P u f)) ≡ some c)
        × ((resolve {P = P} parsed w).0 ≡ ok (u, f))
  unfolding validate_login
  validate_login_inv s parsed w {c} {u} {f} h =
      go (P.lib.validate_discoverable_login w.now s parsed) refl h
    where
      settle :
          (k : Option WaUser → Option LibCredential) (x : Result (User × Credential))
          → ◌≡◌ {A = Option LibCredential × Option (User × Credential)}
              (k (resolver_result P x).0, (resolver_result P x).1)
              (some c, some (u, f))
          → (k (some (login_user P u f)) ≡ some c) × (x ≡ ok (u, f))
      settle k (ok (u2, f2)) e = ground arith
      settle k (err x) e = cc

      go :
          (plan : LoginPlan)
          → P.lib.validate_discoverable_login w.now s parsed ≡ plan
          → let v : (Option LibCredential × Option (User × Credential)) × World P = elim plan [
            | refused ↦ ((none, none), w)
            | settled cred ↦ ((some cred, none), w)
            | ask _ _ k ↦ let ((user, resolved), w') = resolver parsed w in ((k user, resolved), w')
          ] in
            v.0 ≡ (some c, some (u, f))
            → (ids : Bytes × Bytes) × (k : Option WaUser → Option LibCredential)
              × (P.lib.validate_discoverable_login w.now s parsed ≡ ask ids.0 ids.1 k)
              × (k (some (login_user P u f)) ≡ some c)
              × ((resolve {P = P} parsed w).0 ≡ ok (u, f))
      go refused e v = cc
      go (settled cred) e v = cc
      go (ask a b k) e v =
          let (accepted, found) = settle k (resolve {P = P} parsed w).0 v in
          ((a, b), k, e, accepted, found)
