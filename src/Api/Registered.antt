-- ===== src/Api/Registered.antt =====
-- internal/api/handler/auth.go, CompleteRegister and CompletePromote: what a success writes.
use go_passkey_auth.Prelude.{
  ℕ, String, true, false, ◌≡◌, sym, ap, ◌∙◌, some, List, [], ◌∷◌, ◌++◌, any, Bytes, arith,
}
use go_passkey_auth.Domain.{Err, credential_exists, username_taken, User, Credential}
use go_passkey_auth.Store.Tables.{Db}
use go_passkey_auth.Store.Postgres.Users.{has_id, is_registered_as, create_registered}
use go_passkey_auth.Store.Postgres.Credentials.{is_live_with, scanned, insert}
use go_passkey_auth.Store.Postgres.Effects.{new_user, new_row, create_registered-ok, insert-ok}
use go_passkey_auth.Store.Redis.Challenge.{take}
use go_passkey_auth.Platform.{Platform, World, RegistrationSession}
use go_passkey_auth.Platform.Library.{LibCredential}
use go_passkey_auth.Api.Http.{
  Request, write_json, internal_error, next, or_else, attempt, outcome, registered,
}
use go_passkey_auth.Api.Http.Success.{
  Fails, Ends, Succeeds, bind-Runs, bind-next, or_else-next, attempt-next, or_else-Fails,
  attempt-Fails, write_error-Fails, internal_error-Fails, write_error-Ends, internal_error-Ends,
}
use go_passkey_auth.Api.Http.Ensures.{Ensures-bind}
use go_passkey_auth.Api.Verified.{IsVerified, verify_ceremony-Fails, verify_ceremony_inv}
use go_passkey_auth.Api.Auth.Convert.{domain_credential_from_lib}
use go_passkey_auth.Api.Auth.Ceremony.{verify_ceremony, store_credential, insert_error}
use go_passkey_auth.Api.Auth.Register.{
  complete_register, create_error, complete_line as register_line,
}

-- Two writes in a row, one to each table.
pub both_tables :
    (before : Db) {middle after : Db} {us : List User} {t now : ℕ} (key : ℕ) (d : Credential)
    → middle ≡ record before { users = us }
    → after ≡ record middle { credentials = middle.credentials ++ new_row key t d ∷ [] }
    → t ≡ now
    → after ≡ record { users = us; credentials = before.credentials ++ new_row key now d ∷ [] }
both_tables before key d p q e = ground arith

module _ {P : Platform} where
  insert_error-Fails :
      {A : Type 0} (line : String) (e : Err) → Fails {P = P} {A = A} (insert_error line e)
  unfolding insert_error
  insert_error-Fails line credential_exists = write_error-Fails 409 "credential_exists"
  insert_error-Fails line _ = internal_error-Fails line

  insert_error-Ends :
      {A : Type 0} (line : String) (e : Err) → Ends {P = P} {A = A} (insert_error line e)
  unfolding insert_error
  insert_error-Ends line credential_exists = write_error-Ends 409 "credential_exists"
  insert_error-Ends line _ = internal_error-Ends line

  create_error-Fails : {A : Type 0} (e : Err) → Fails {P = P} {A = A} (create_error e)
  unfolding create_error
  create_error-Fails username_taken = write_error-Fails 409 "username_taken"
  create_error-Fails _ = internal_error-Fails "register complete: create user"

  create_error-Ends : {A : Type 0} (e : Err) → Ends {P = P} {A = A} (create_error e)
  unfolding create_error
  create_error-Ends username_taken = write_error-Ends 409 "username_taken"
  create_error-Ends _ = internal_error-Ends "register complete: create user"

  pub store_credential-Fails :
      (line : String → String) (user_id : ℕ) (handle : Bytes) (cred : LibCredential)
      → Fails {P = P} (store_credential line user_id handle cred)
  unfolding store_credential
  store_credential-Fails line user_id handle cred =
      Ensures-bind
        (or_else-Fails (domain_credential_from_lib P user_id handle cred) (internal_error-Fails _))
        λ d. attempt-Fails (insert d) (insert_error-Fails _)

  -- The one row that is added, and the user whose credential it is.
  pub store_credential-next :
      (line : String → String) (user_id : ℕ) (handle : Bytes) (cred : LibCredential) (w : World P)
      (saved : Credential)
      → (store_credential line user_id handle cred w).0 ≡ next saved
      → (d : Credential) × (key : ℕ) × (domain_credential_from_lib P user_id handle cred ≡ some d)
        × (saved ≡ scanned (new_row key w.now d).columns)
        × (any (is_live_with d.credential_id) w.db.credentials ≡ false)
        × (any (has_id d.user_id) w.db.users ≡ true)
        × ((store_credential line user_id handle cred w).1.db
            ≡ record (w.db) { credentials = w.db.credentials ++ new_row key w.now d ∷ [] })
  unfolding store_credential
  store_credential-next line user_id handle cred w saved h =
      let (d, e1, h1, w1) =
        bind-next
          (or_else (domain_credential_from_lib P user_id handle cred)
            (internal_error (line "convert credential")))
          _ w h in
      let (made, q1) =
        or_else-next (domain_credential_from_lib P user_id handle cred) _ w (internal_error-Ends _)
          e1 in
      let (done, q2) = attempt-next (insert d) _ _ (insert_error-Ends _) h1 in
      let (same, fresh, owned, after) =
        insert-ok w d saved (ap (λ v. (insert d v).0) (sym q1) ∙ done) in
      (
        d,
        _,
        made,
        same,
        fresh,
        owned,
        ap (λ v. v.db) (w1 ∙ q2 ∙ ap (λ v. (insert d v).1) q1) ∙ after,
      )

  -- What a success of the endpoint comes with, from the state before the request.
  abbrev pub Registers : Request → World P → Type 0
  Registers r w =
      (stored : RegistrationSession P.lib.SessionData) × (cred : LibCredential) × (d : Credential)
      × (id : ℕ) × (key : ℕ) × IsVerified false r w stored cred
      × (any (is_registered_as stored.username) w.db.users ≡ false)
      × (domain_credential_from_lib P id (P.lib.session_user_id stored.session) cred ≡ some d)
      × (any (is_live_with d.credential_id) w.db.credentials ≡ false)
      × ((complete_register r w).1.db ≡ record {
        users = w.db.users ++ new_user id w.now stored.username stored.display_name false ∷ [];
        credentials = w.db.credentials ++ new_row key w.now d ∷ [];
      })
      × (outcome (complete_register r w).0
          ≡ record { status = 200; body = registered (P.uuid_string id) (P.uuid_string key) })

  -- A registration that succeeds rests on a verified ceremony of its own flow, for a name that no
  -- registered user had and a credential id that no live credential had. It adds one row to each
  -- table, the registered user with the name of the session and the user's credential, changes no
  -- other row, and answers with the keys of the two. `w` is the state before the request.
  pub complete_register-ok :
      (r : Request) (w : World P) → Succeeds (complete_register r w).0 → Registers r w
  unfolding complete_register write_json take
  complete_register-ok r w h =
      let (x, e1, h1, s1) =
        bind-Runs {m = verify_ceremony register_line false r} _ w (verify_ceremony-Fails _ false r)
          h in
      let (user, e2, h2, s2) =
        bind-Runs {m = attempt (create_registered x.0.username x.0.display_name) create_error} _ _
          (attempt-Fails _ create_error-Fails) h1 in
      let (saved, e3, h3, s3) =
        bind-Runs
          {m = store_credential register_line user.id (P.lib.session_user_id x.0.session) x.1} _ _
          (store_credential-Fails register_line user.id (P.lib.session_user_id x.0.session) x.1)
          h2 in
      let (v, q1) = verify_ceremony_inv register_line false r w x e1 in
      let (made, q2) =
        attempt-next (create_registered x.0.username x.0.display_name) _ _ create_error-Ends e2 in
      let (same, free, grown, clock) =
        create_registered-ok (verify_ceremony register_line false r w).1 x.0.username
          x.0.display_name user made in
      let (d, key, converted, stored, fresh, owned, grown2) =
        store_credential-next register_line user.id (P.lib.session_user_id x.0.session) x.1 _ saved
          e3 in
      let dbs : (verify_ceremony register_line false r w).1.db ≡ w.db = ap (λ u. u.db) q1 in
      let times : (verify_ceremony register_line false r w).1.now ≡ w.now = ap (λ u. u.now) q1 in
      let middle = ap (λ u. u.db) q2 ∙ grown in
      let grown1 = middle ∙ ap (λ (b : Db). record b { users = b.users ++ user ∷ [] }) dbs in
      let born : user ≡ new_user user.id w.now x.0.username x.0.display_name false =
        ground (arith, same, times) in
      let when = ap (λ u. u.now) q2 ∙ clock ∙ times in
      (
        x.0,
        x.1,
        d,
        user.id,
        key,
        v,
        ap (λ (b : Db). any (is_registered_as x.0.username) b.users) (sym dbs) ∙ free,
        converted,
        ap (λ (b : Db). any (is_live_with d.credential_id) b.credentials)
              (sym (ap (λ (b : Db). record b { users = [] }) grown1))
            ∙ fresh,
        ap (λ u. u.1.db) (s1 ∙ s2 ∙ s3)
            ∙ both_tables w.db key d grown1 grown2 when
            ∙ ap
                (λ (u : User). record {
                  users = w.db.users ++ u ∷ [];
                  credentials = w.db.credentials ++ new_row key w.now d ∷ [];
                })
                born,
        ap (λ u. outcome u.0) (s1 ∙ s2 ∙ s3)
            ∙ ap
                (λ (c : Credential). record {
                  status = 200;
                  body = registered (P.uuid_string user.id) (P.uuid_string c.id);
                })
                stored,
      )
