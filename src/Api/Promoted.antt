-- ===== src/Api/Promoted.antt =====
-- internal/api/handler/auth.go, CompletePromote: what a success writes.
use go_passkey_auth.Api.Cookie.{set_session_cookie}
use go_passkey_auth.Prelude.{
  ℕ, String, true, false, ◌≡◌, refl, sym, ap, ◌∙◌, some, [], ◌∷◌, ◌++◌, any, find, update,
}
use go_passkey_auth.Domain.{Err, username_taken, user_not_found, User, Credential}
use go_passkey_auth.Store.Tables.{Db}
use go_passkey_auth.Store.Postgres.Users.{is_registered_as, is_guest_row, promoted, promote_guest}
use go_passkey_auth.Store.Postgres.Credentials.{is_live_with}
use go_passkey_auth.Store.Postgres.Effects.{new_row, promote_guest-ok}
use go_passkey_auth.Store.Redis.Challenge.{take}
use go_passkey_auth.Store.Redis.Session as SessionStore
use go_passkey_auth.Platform.{Platform, World, RegistrationSession}
use go_passkey_auth.Platform.Library.{LibCredential}
use go_passkey_auth.Api.Http.{
  Request, Handler, ◌>>=◌, ◌>>◌, write_json, internal_error, attempt, outcome, modify, logged_in,
}
use go_passkey_auth.Api.Http.Success.{
  Fails, Ends, Succeeds, bind-Runs, seq-Runs, attempt-next, attempt-Fails, write_error-Fails,
  internal_error-Fails, write_error-Ends, internal_error-Ends,
}
use go_passkey_auth.Api.Http.Ensures.{Ensures-modify}
use go_passkey_auth.Api.Kept.Endpoints.{drop_guest-Keeps}
use go_passkey_auth.Api.Tables.{tables-KeptByLookups}
use go_passkey_auth.Api.Verified.{IsVerified, verify_ceremony-Fails, verify_ceremony_inv}
use go_passkey_auth.Api.Registered.{both_tables, store_credential-Fails, store_credential-next}
use go_passkey_auth.Api.Auth.Convert.{domain_credential_from_lib}
use go_passkey_auth.Api.Auth.Ceremony.{verify_ceremony, store_credential, drop_guest}
use go_passkey_auth.Api.Auth.Deps.{Deps}
use go_passkey_auth.Api.Auth.Promote.{complete_promote, promote_error, complete_line}

module _ {P : Platform} where
  promote_error-Fails : {A : Type 0} (e : Err) → Fails {P = P} {A = A} (promote_error e)
  unfolding promote_error
  promote_error-Fails username_taken = write_error-Fails 409 "username_taken"
  promote_error-Fails user_not_found = write_error-Fails 409 "not_a_guest"
  promote_error-Fails _ = internal_error-Fails "promote complete: promote user"

  promote_error-Ends : {A : Type 0} (e : Err) → Ends {P = P} {A = A} (promote_error e)
  unfolding promote_error
  promote_error-Ends username_taken = write_error-Ends 409 "username_taken"
  promote_error-Ends user_not_found = write_error-Ends 409 "not_a_guest"
  promote_error-Ends _ = internal_error-Ends "promote complete: promote user"

  session_create-db : (ttl u : ℕ) (w : World P) → (SessionStore.create ttl u w).1.db ≡ w.db
  session_create-db ttl u w =
      ((tables-KeptByLookups (λ d. d ≡ w.db)).session_create ttl u).at w refl

  drop_guest-db : (line : String) (r : Request) (w : World P) → (drop_guest line r w).db ≡ w.db
  drop_guest-db line r w =
      (drop_guest-Keeps (tables-KeptByLookups (λ d. d ≡ w.db)) line r).at w refl

  finish_inv :
      (deps : Deps) (r : Request) (user : User) (w : World P)
      → let rest : Handler P ⊥ =
          (attempt
              (SessionStore.create deps.session_ttl user.id)
              (λ _. internal_error "promote complete: create session")
            >>= λ token.
                modify (drop_guest "promote complete: delete guest" r)
                >> (modify (set_session_cookie r token deps.session_max_age)
                    >> write_json 200
                        (logged_in (P.uuid_string user.id) user.username user.display_name))) in
        Succeeds (rest w).0
        → (outcome (rest w).0 ≡ record {
          status = 200;
          body = logged_in (P.uuid_string user.id) user.username user.display_name;
        })
          × ((rest w).1.db ≡ w.db)
  unfolding write_json modify
  finish_inv deps r user w h =
      let (token, e1, h1, s1) =
        bind-Runs
          {m = attempt (SessionStore.create deps.session_ttl user.id)
            (λ _. internal_error "promote complete: create session")}
          _ w (attempt-Fails _ (λ e. internal_error-Fails _)) h in
      let (_, e2, h2, s2) =
        seq-Runs {m = modify (drop_guest "promote complete: delete guest" r)} _ _
          (Ensures-modify (record { at = λ w q. tt })) h1 in
      let (_, e3, h3, s3) =
        seq-Runs {m = modify (set_session_cookie r token deps.session_max_age)} _ _
          (Ensures-modify (record { at = λ w q. tt })) h2 in
      let (issued, q1) =
        attempt-next (SessionStore.create deps.session_ttl user.id)
          (λ _. internal_error "promote complete: create session") w (λ e. internal_error-Ends _)
          e1 in
      let all = s1 ∙ s2 ∙ s3 in
      (
        ap (λ u. outcome u.0) all,
        ap (λ u. u.1.db) all
            ∙ drop_guest-db "promote complete: delete guest" r _
            ∙ ap (λ u. u.db) q1
            ∙ session_create-db deps.session_ttl user.id w,
      )

  -- What a success of the endpoint comes with, from the state before the request.
  abbrev pub Promotes : Deps → Request → World P → Type 0
  Promotes deps r w =
      (stored : RegistrationSession P.lib.SessionData) × (cred : LibCredential) × (d : Credential)
      × (guest : User) × (key : ℕ) × IsVerified true r w stored cred
      × (find (is_guest_row stored.promote_user_id) w.db.users ≡ some guest)
      × (any (is_registered_as stored.username) w.db.users ≡ false)
      × (domain_credential_from_lib P guest.id (P.lib.session_user_id stored.session) cred ≡ some d)
      × (any (is_live_with d.credential_id) w.db.credentials ≡ false)
      × ((complete_promote deps r w).1.db ≡ record {
        users =
            update (is_guest_row stored.promote_user_id)
              (promoted w.now stored.username stored.display_name) w.db.users;
        credentials = w.db.credentials ++ new_row key w.now d ∷ [];
      })
      × (outcome (complete_promote deps r w).0 ≡ record {
        status = 200;
        body = logged_in (P.uuid_string guest.id) stored.username stored.display_name;
      })

  -- A promotion that succeeds rests on a verified ceremony of its own flow, begun by a guest row that
  -- is still one, for a name that no registered user had and a credential id that no live credential
  -- had. It promotes that row, which keeps its id, and adds one credential of that user; no other row
  -- changes; and the response names the user by the same id, with the new names. `w` is the state
  -- before the request.
  pub complete_promote-ok :
      (deps : Deps) (r : Request) (w : World P)
      → Succeeds (complete_promote deps r w).0
      → Promotes deps r w
  unfolding complete_promote take
  complete_promote-ok deps r w h =
      let (x, e1, h1, s1) =
        bind-Runs {m = verify_ceremony complete_line true r} _ w (verify_ceremony-Fails _ true r)
          h in
      let (user, e2, h2, s2) =
        bind-Runs
          {m = attempt (promote_guest x.0.promote_user_id x.0.username x.0.display_name)
            promote_error}
          _ _ (attempt-Fails _ promote_error-Fails) h1 in
      let (saved, e3, h3, s3) =
        seq-Runs
          {m = store_credential complete_line user.id (P.lib.session_user_id x.0.session) x.1} _ _
          (store_credential-Fails complete_line user.id (P.lib.session_user_id x.0.session) x.1)
          h2 in
      let (v, q1) = verify_ceremony_inv complete_line true r w x e1 in
      let (made, q2) =
        attempt-next (promote_guest x.0.promote_user_id x.0.username x.0.display_name) _ _
          promote_error-Ends e2 in
      let (g, was, same, free, grown, clock) =
        promote_guest-ok (verify_ceremony complete_line true r w).1 x.0.promote_user_id x.0.username
          x.0.display_name user made in
      let (d, key, converted, stored, fresh, owned, grown2) =
        store_credential-next complete_line user.id (P.lib.session_user_id x.0.session) x.1 _ saved
          e3 in
      let dbs : (verify_ceremony complete_line true r w).1.db ≡ w.db = ap (λ u. u.db) q1 in
      let times : (verify_ceremony complete_line true r w).1.now ≡ w.now = ap (λ u. u.now) q1 in
      let (answered, kept) = finish_inv deps r user _ h3 in
      let grown1 =
        ap (λ u. u.db) q2
        ∙ grown
        ∙ ap
            (λ (b : Db). record b {
              users =
                  update (is_guest_row x.0.promote_user_id)
                    (promoted (verify_ceremony complete_line true r w).1.now x.0.username
                      x.0.display_name)
                    b.users;
            })
            dbs
        ∙ ap
            (λ (t : ℕ). record (w.db) {
              users =
                  update (is_guest_row x.0.promote_user_id)
                    (promoted t x.0.username x.0.display_name) w.db.users;
            })
            times in
      let when = ap (λ u. u.now) q2 ∙ clock ∙ times in
      let names = ap (λ (u : User). u.username) same in
      (
        x.0,
        x.1,
        d,
        g,
        key,
        v,
        ap (λ (b : Db). find (is_guest_row x.0.promote_user_id) b.users) (sym dbs) ∙ was,
        ap (λ (b : Db). any (is_registered_as x.0.username) b.users) (sym dbs) ∙ free,
        ap (λ (u : User). domain_credential_from_lib P u.id (P.lib.session_user_id x.0.session) x.1)
              (sym same)
            ∙ converted,
        ap (λ (b : Db). any (is_live_with d.credential_id) b.credentials)
              (sym (ap (λ (b : Db). record b { users = [] }) grown1))
            ∙ fresh,
        ap (λ u. u.1.db) (s1 ∙ s2 ∙ s3) ∙ kept ∙ both_tables w.db key d grown1 grown2 when,
        ap (λ u. outcome u.0) (s1 ∙ s2 ∙ s3)
            ∙ answered
            ∙ ap
                (λ (u : User). record {
                  status = 200;
                  body = logged_in (P.uuid_string u.id) u.username u.display_name;
                })
                same,
      )
