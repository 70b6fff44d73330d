-- ===== src/Api/Journey/Second.antt =====
-- internal/api/handler/auth.go, CompleteRegister: a verified registration that the tables take.
use go_passkey_auth.Prelude.{
  ℕ, suc, Bytes, String, false, true, ◌||◌, ◌≡◌, refl, ap, ◌∙◌, some, arith, [], ◌∷◌, ◌++◌, any,
  Option-cases, inl, inr, ◌==◌, string_eq, nat_eq, nat_beq_iff,
}
use go_passkey_auth.Domain.{ok, Credential}
use go_passkey_auth.Platform.{Platform, World, counted, RegistrationSession, answered}
use go_passkey_auth.Platform.Library.{LibCredential}
use go_passkey_auth.Store.Redis.Challenge.{take}
use go_passkey_auth.Store.Postgres.Rows.{any-append}
use go_passkey_auth.Store.Postgres.Run.{run_sql}
use go_passkey_auth.Store.Postgres.Users.{create_registered, is_registered_as, has_id}
use go_passkey_auth.Store.Postgres.Credentials.{
  insert, insert_credential, is_live_with, has_key, scanned,
}
use go_passkey_auth.Store.Postgres.Effects.{new_user, new_row}
use go_passkey_auth.Api.Http.{Request, next, write_json, outcome, registered}
use go_passkey_auth.Api.Http.Forward.{bind_next, attempted, attempt_run, or_else_run}
use go_passkey_auth.Api.Verified.{IsVerified}
use go_passkey_auth.Api.Orphaned.{create_registered_run, verify_ceremony_next}
use go_passkey_auth.Api.Auth.Convert.{domain_credential_from_lib, aaguid_of}
use go_passkey_auth.Api.Auth.Ceremony.{store_credential, insert_error}
use go_passkey_auth.Api.Auth.Register.{complete_register, create_error, complete_line}

domain_user_id :
    (P : Platform) (id : ℕ) (handle : Bytes) (cred : LibCredential) (d : Credential)
    → domain_credential_from_lib P id handle cred ≡ some d
    → d.user_id ≡ id
unfolding domain_credential_from_lib
domain_user_id P id handle cred d e = elim (Option-cases (aaguid_of P cred.aaguid)) [
  | inl x ↦ ground (arith, x)
  | inr (a, x) ↦ ground (arith, x)
]

module _ {P : Platform} where
  insert_run :
      (d : Credential) (w : World P)
      → P.pg_outcome w.calls ≡ answered
      → any (has_key (P.new_uuid w.calls)) w.db.credentials ≡ false
      → any (is_live_with d.credential_id) w.db.credentials ≡ false
      → any (has_id d.user_id) w.db.users ≡ true
      → let row = new_row (P.new_uuid w.calls) w.now d in
        insert {P = P} d w ≡ (
          ok (scanned row.columns),
          record (counted w) { db = record (w.db) { credentials = w.db.credentials ++ row ∷ [] } },
        )
  unfolding insert run_sql insert_credential
  insert_run d w answers new_key new_credential owned =
      ground (arith, answers, new_key, new_credential, owned)

  store_run :
      (line : String → String) (id : ℕ) (handle : Bytes) (cred : LibCredential) (d : Credential)
      (w : World P)
      → domain_credential_from_lib P id handle cred ≡ some d
      → P.pg_outcome w.calls ≡ answered
      → any (has_key (P.new_uuid w.calls)) w.db.credentials ≡ false
      → any (is_live_with d.credential_id) w.db.credentials ≡ false
      → any (has_id d.user_id) w.db.users ≡ true
      → let row = new_row (P.new_uuid w.calls) w.now d in
        store_credential {P = P} line id handle cred w ≡ (
          next (scanned row.columns),
          record (counted w) { db = record (w.db) { credentials = w.db.credentials ++ row ∷ [] } },
        )
  unfolding store_credential attempted
  store_run line id handle cred d w made answers new_key new_credential owned =
      bind_next _ _ w (or_else_run _ _ w made)
      ∙ attempt_run (insert {P = P} d) (insert_error (line "insert credential")) w
          (insert_run d w answers new_key new_credential owned)

  -- A registration that is verified, and that neither table refuses.
  pub complete_register_run :
      (r : Request) (w : World P) (stored : RegistrationSession P.lib.SessionData)
      (cred : LibCredential) (d : Credential) (v : IsVerified {P = P} false r w stored cred)
      → (v.req.session_id == "" || v.req.credential == "") ≡ false
      → ((n : ℕ) → P.pg_outcome n ≡ answered)
      → any (has_id (P.new_uuid (suc w.calls))) w.db.users ≡ false
      → any (is_registered_as stored.username) w.db.users ≡ false
      → domain_credential_from_lib P
          (P.new_uuid (suc w.calls))
          (P.lib.session_user_id stored.session)
          cred
        ≡ some d
      → any (has_key (P.new_uuid (suc (suc w.calls)))) w.db.credentials ≡ false
      → any (is_live_with d.credential_id) w.db.credentials ≡ false
      → (outcome (complete_register {P = P} r w).0 ≡ record {
        status = 200;
        body =
            registered
              (P.uuid_string (P.new_uuid (suc w.calls)))
              (P.uuid_string (P.new_uuid (suc (suc w.calls))));
      })
        × ((complete_register {P = P} r w).1.db ≡ record {
          users =
              w.db.users
              ++ new_user (P.new_uuid (suc w.calls)) w.now stored.username stored.display_name false
                ∷ [];
          credentials = w.db.credentials ++ new_row (P.new_uuid (suc (suc w.calls))) w.now d ∷ [];
        })
  unfolding complete_register take attempted write_json
  complete_register_run r w stored cred d v filled answers new_id free made new_key new_credential =
      let u : World P = (take {P = P} v.req.session_id w).1 in
      let id = P.new_uuid (suc w.calls) in
      let user = new_user id w.now stored.username stored.display_name false in
      let x : World P = record (counted u) {
        db = record (u.db) { users = u.db.users ++ user ∷ [] };
      } in
      let whole =
        bind_next _ _ w (verify_ceremony_next complete_line false r w stored cred v filled)
        ∙ bind_next _ _ u (
            attempt_run (create_registered stored.username stored.display_name) create_error u (
              create_registered_run stored.username stored.display_name u (answers (suc w.calls))
                (rw new_id free)))
        ∙ bind_next _ _ x (
            store_run complete_line id (P.lib.session_user_id stored.session) cred d x made
              (answers (suc (suc w.calls))) new_key new_credential
              (ap (λ i. any (has_id i) x.db.users)
                  (domain_user_id P id (P.lib.session_user_id stored.session) cred d made)
                ∙ any-append (has_id id) w.db.users (user ∷ [])
                ∙ rw (new_id, (nat_beq_iff id id).1 refl) refl)) in
      (ap (λ s. outcome s.0) whole, ap (λ s. s.1.db) whole)
