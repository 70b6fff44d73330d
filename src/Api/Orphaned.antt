-- ===== src/Api/Orphaned.antt =====
-- internal/api/handler/auth.go, CompleteRegister: what a registration leaves whose credential is
-- refused by the table.
use go_passkey_auth.Prelude.{
  ℕ, suc, Bytes, String, Bool, true, false, ◌||◌, ◌≡◌, refl, ap, ◌∙◌, some, arith, [], ◌∷◌, ◌++◌,
  any, ◌==◌, string_eq,
}
use go_passkey_auth.Domain.{ok, err, Credential, credential_exists}
use go_passkey_auth.Platform.{
  Platform, World, counted, CompleteRequest, RegistrationSession, answered,
}
use go_passkey_auth.Platform.Library.{LibCredential}
use go_passkey_auth.Store.Redis.Challenge.{take}
use go_passkey_auth.Store.Postgres.Run.{run_sql}
use go_passkey_auth.Store.Postgres.Users.{create_registered, insert_user, is_registered_as, has_id}
use go_passkey_auth.Store.Postgres.Credentials.{insert, insert_credential, is_live_with}
use go_passkey_auth.Store.Postgres.Effects.{new_user}
use go_passkey_auth.Webauthn.Service.{check_attestation_policy, create_credential}
use go_passkey_auth.Api.Http.{
  Request, respond, ◌>>=◌, ◌>>◌, write_error, write_json, refuse_if, next, or_else, attempt, gets,
  outcome, error_body,
}
use go_passkey_auth.Api.Http.Forward.{bind_next, bind_respond, attempted, attempt_run}
use go_passkey_auth.Api.Verified.{IsVerified}
use go_passkey_auth.Api.Auth.Convert.{domain_credential_from_lib}
use go_passkey_auth.Api.Auth.Ceremony.{
  read_envelope, take_error, accepted, verify_ceremony, verify_stored, insert_error,
  store_credential,
}
use go_passkey_auth.Api.Auth.Register.{complete_register, create_error, complete_line}

module _ {P : Platform} where
  verify_stored_next :
      (line : String → String) (promote : Bool) (r : Request) (w u : World P)
      (stored : RegistrationSession P.lib.SessionData) (cred : LibCredential)
      (v : IsVerified promote r w stored cred)
      → u.now ≡ w.now
      → verify_stored line promote v.req.credential stored u ≡ (next (stored, cred), u)
  unfolding verify_stored or_else refuse_if gets accepted create_credential check_attestation_policy
      ◌>>=◌ ◌>>◌
  verify_stored_next line promote r w u stored cred v clock =
      ground (arith, v.same_flow, v.is_parsed, v.attested, v.accepts_format, v.accepts_type, clock)

  pub read_envelope_next :
      (r : Request) (w : World P) {req : CompleteRequest}
      → P.decode_complete r.body ≡ some req
      → (req.session_id == "" || req.credential == "") ≡ false
      → read_envelope r w ≡ (next req, w)
  unfolding read_envelope or_else refuse_if gets ◌>>=◌ ◌>>◌
  read_envelope_next r w e filled = ground (arith, e, filled)

  pub take_next :
      (sid line raw : String) (w : World P)
      → (take sid w).0 ≡ ok raw
      → attempt (take sid) (take_error line) w ≡ (next raw, (take sid w).1)
  unfolding attempt
  take_next sid line raw w e = ground (arith, e)

  pub create_registered_run :
      (n d : String) (w : World P)
      → P.pg_outcome w.calls ≡ answered
      → (any (has_id (P.new_uuid w.calls)) w.db.users || any (is_registered_as n) w.db.users)
        ≡ false
      → create_registered n d w ≡ (
        ok (new_user (P.new_uuid w.calls) w.now n d false),
        record (counted w) {
          db = record (w.db) {
            users = w.db.users ++ new_user (P.new_uuid w.calls) w.now n d false ∷ [];
          };
        },
      )
  unfolding create_registered run_sql insert_user
  create_registered_run n d w answers free = ground (arith, answers, free)

  insert_run :
      (d : Credential) (w : World P)
      → P.pg_outcome w.calls ≡ answered
      → any (is_live_with d.credential_id) w.db.credentials ≡ true
      → insert d w ≡ (err credential_exists, counted w)
  unfolding insert run_sql insert_credential
  insert_run d w answers taken = ground (arith, answers, taken)

  store_credential_run :
      (line : String → String) (id : ℕ) (handle : Bytes) (cred : LibCredential) (d : Credential)
      (w : World P)
      → domain_credential_from_lib P id handle cred ≡ some d
      → P.pg_outcome w.calls ≡ answered
      → any (is_live_with d.credential_id) w.db.credentials ≡ true
      → store_credential line id handle cred w ≡ (
        respond (record {
          status = 409;
          body = error_body "credential_exists" "That credential is already registered.";
        }),
        counted w,
      )
  unfolding store_credential or_else insert_error write_error write_json attempted
  store_credential_run line id handle cred d w made answers taken =
      bind_next _ _ w (ground (arith, made))
      ∙ attempt_run (insert d) _ w (insert_run d w answers taken)

  pub verify_ceremony_next :
      (line : String → String) (promote : Bool) (r : Request) (w : World P)
      (stored : RegistrationSession P.lib.SessionData) (cred : LibCredential)
      (v : IsVerified promote r w stored cred)
      → (v.req.session_id == "" || v.req.credential == "") ≡ false
      → verify_ceremony line promote r w ≡ (next (stored, cred), (take v.req.session_id w).1)
  unfolding verify_ceremony or_else take
  verify_ceremony_next line promote r w stored cred v filled =
      bind_next _ _ w (read_envelope_next r w v.decoded filled)
      ∙ bind_next _ _ w (take_next v.req.session_id _ v.raw w v.took)
      ∙ bind_next _ _ _ (ground (arith, v.unmarshalled))
      ∙ verify_stored_next line promote r w _ stored cred v refl

  -- A registration whose user can be created and whose credential id another live credential has is
  -- answered by 409 credential_exists, and still adds its user row, with no credential. Postgres
  -- answers both statements.
  pub complete_register-orphan :
      (r : Request) (w : World P) (stored : RegistrationSession P.lib.SessionData)
      (cred : LibCredential) (d : Credential) (v : IsVerified false r w stored cred)
      → (v.req.session_id == "" || v.req.credential == "") ≡ false
      → ((n : ℕ) → P.pg_outcome n ≡ answered)
      → (any (has_id (P.new_uuid (suc w.calls))) w.db.users
          || any (is_registered_as stored.username) w.db.users)
        ≡ false
      → domain_credential_from_lib P
          (P.new_uuid (suc w.calls))
          (P.lib.session_user_id stored.session)
          cred
        ≡ some d
      → any (is_live_with d.credential_id) w.db.credentials ≡ true
      → (outcome (complete_register r w).0 ≡ record {
        status = 409;
        body = error_body "credential_exists" "That credential is already registered.";
      })
        × ((complete_register r w).1.db ≡ record (w.db) {
          users =
              w.db.users
              ++ new_user (P.new_uuid (suc w.calls)) w.now stored.username stored.display_name false
                ∷ [];
        })
  unfolding complete_register take attempted
  complete_register-orphan r w stored cred d v filled answers free made taken =
      let u : World P = (take v.req.session_id w).1 in
      let whole =
        bind_next _ _ w (verify_ceremony_next complete_line false r w stored cred v filled)
        ∙ bind_next _ _ u (
            attempt_run (create_registered stored.username stored.display_name) create_error u (
              create_registered_run stored.username stored.display_name u (answers (suc w.calls))
                free))
        ∙ bind_respond _ _ _ (
            store_credential_run complete_line (P.new_uuid (suc w.calls))
              (P.lib.session_user_id stored.session) cred d _ made (answers (suc (suc w.calls)))
              taken) in
      (ap (λ s. outcome s.0) whole, ap (λ s. s.1.db) whole)
