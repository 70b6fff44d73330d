-- ===== src/Api/Login/Forward.antt =====
-- internal/api/handler/auth.go, CompleteLogin: a login that the library accepts, call by call.
use go_passkey_auth.Prelude.{
  ℕ, zero, suc, ◌≤◌, Bool, Bytes, ◌≡◌, refl, ap, ◌∙◌, none, some, Option, arith, List, [], ◌∷◌,
  nat_beq_iff, count, find, update, string_eq, nat_eq,
}
use go_passkey_auth.Domain.{ok, Credential, User}
use go_passkey_auth.Store.Tables.{CredentialRow, row}
use go_passkey_auth.Platform.{Platform, World, counted, answered}
use go_passkey_auth.Platform.Redis.{value}
use go_passkey_auth.Platform.Library.{LibCredential, WaUser, refused, settled, ask}
use go_passkey_auth.Store.Postgres.Run.{run_sql}
use go_passkey_auth.Store.Postgres.Users.{has_id, get_by_id, select_by_id}
use go_passkey_auth.Store.Postgres.Credentials.{
  get_by_credential_id, select_live, update_after_assertion, update_rows, set_assertion,
  is_live_with, is_live_key, scanned, rows_affected,
}
use go_passkey_auth.Store.Redis.Token.{new_token}
use go_passkey_auth.Store.Redis.Session as SessionStore
use go_passkey_auth.Store.Redis.Session.{session_key, issued}
use go_passkey_auth.Webauthn.Service.{validate_login}
use go_passkey_auth.Api.Http.{
  Request, next, respond, gets_call, gets, modify, write_json, logged_in,
}
use go_passkey_auth.Api.Cookie.{set_session_cookie}
use go_passkey_auth.Api.Auth.Deps.{Deps}
use go_passkey_auth.Api.Auth.Convert.{record_counter_anomalies}
use go_passkey_auth.Api.Auth.Ceremony.{drop_guest}
use go_passkey_auth.Api.Http.Forward.{bind_next, seq_next, attempted, attempt_run, or_else_run}
use go_passkey_auth.Api.Auth.Login.{
  finish_login, validate, resolver, resolver_result, resolve, login_user,
}

rows_affected-ok : (n : ℕ) → 1 ≤ n → rows_affected (row n) ≡ ok tt
rows_affected-ok zero h = absurd (omega arith)
rows_affected-ok (suc n) h = refl

-- The row that is found by its credential id is a live one of its own key.
live_found :
    (c : Bytes) (rows : List CredentialRow) (r : CredentialRow)
    → find (is_live_with c) rows ≡ some r
    → 1 ≤ count (is_live_key r.columns.id) rows
live_found c [] r e = cc
live_found c (x ∷ rows) r e =
    ground (arith, live_found c rows r, nat_beq_iff x.columns.id x.columns.id)

module _ {P : Platform} where
  -- The row that was found is there to be updated.
  pub update_run :
      (c : Bytes) (r : CredentialRow) (n : ℕ) (be bs : Bool) (w : World P)
      → P.pg_outcome w.calls ≡ answered
      → find (is_live_with c) w.db.credentials ≡ some r
      → update_after_assertion {P = P} r.columns.id n be bs w ≡ (
        ok tt,
        record (counted w) {
          db = record (w.db) {
            credentials =
                update (is_live_key r.columns.id) (set_assertion w.now n be bs) w.db.credentials;
          };
        },
      )
  unfolding update_after_assertion run_sql update_rows
  update_run c r n be bs w answers found =
      let affected =
        rows_affected-ok (count (is_live_key r.columns.id) w.db.credentials)
          (live_found c w.db.credentials r found) in
      ground (arith, answers, affected)

  resolve_run :
      (parsed : P.lib.ParsedAssertion) (r : CredentialRow) (user : User) (w : World P)
      → ((n : ℕ) → P.pg_outcome n ≡ answered)
      → find (is_live_with (P.lib.raw_id parsed)) w.db.credentials ≡ some r
      → find (has_id r.columns.user_id) w.db.users ≡ some user
      → resolve {P = P} parsed w ≡ (ok (user, scanned r.columns), counted (counted w))
  unfolding resolve get_by_credential_id get_by_id run_sql select_live select_by_id
  resolve_run parsed r user w answers found owner =
      let first = answers w.calls in
      let second = answers (suc w.calls) in ground (arith, first, second, found, owner)

  validate_login_run :
      (s : P.lib.SessionData) (parsed : P.lib.ParsedAssertion) (ids : Bytes × Bytes)
      (judge : Option WaUser → Option LibCredential) (cred : LibCredential) (user : User)
      (found : Credential) (w u : World P)
      → resolve {P = P} parsed w ≡ (ok (user, found), u)
      → P.lib.validate_discoverable_login w.now s parsed ≡ ask ids.0 ids.1 judge
      → judge (some (login_user P user found)) ≡ some cred
      → validate_login (resolver {P = P} parsed) s parsed w ≡ ((some cred, some (user, found)), u)
  unfolding validate_login
  validate_login_run s parsed ids judge cred user found w u resolved asks accepts =
      ap
        (λ plan. elim plan [
          | refused ↦ ((none, none), w)
          | settled c ↦ ((some c, none), w)
          | ask _ _ k ↦ let ((wa, both), w') = resolver {P = P} parsed w in ((k wa, both), w')
        ])
        asks
      ∙ ap (λ x. ((judge (resolver_result P x.0).0, (resolver_result P x.0).1), x.1)) resolved
      ∙ ap (λ j. ((j, some (user, found)), u)) accepts

  pub validate_run :
      (s : P.lib.SessionData) (parsed : P.lib.ParsedAssertion) (ids : Bytes × Bytes)
      (judge : Option WaUser → Option LibCredential) (cred : LibCredential) (r : CredentialRow)
      (user : User) (w : World P)
      → ((n : ℕ) → P.pg_outcome n ≡ answered)
      → find (is_live_with (P.lib.raw_id parsed)) w.db.credentials ≡ some r
      → find (has_id r.columns.user_id) w.db.users ≡ some user
      → P.lib.validate_discoverable_login w.now s parsed ≡ ask ids.0 ids.1 judge
      → judge (some (login_user P user (scanned r.columns))) ≡ some cred
      → validate {P = P} s parsed w ≡ (next (cred, user, scanned r.columns), counted (counted w))
  unfolding validate validate_login gets_call gets
  validate_run s parsed ids judge cred r user w answers found owner asks accepts =
      let u : World P = counted (counted w) in
      let verdict =
        validate_login_run s parsed ids judge cred user (scanned r.columns) w u
          (resolve_run parsed r user w answers found owner) asks accepts in
      bind_next (gets_call (validate_login (resolver {P = P} parsed) s parsed)) _ w
        (ap (λ v. (next v.0, v.1)) verdict)
      ∙ bind_next _ _ u (or_else_run (some cred) _ u refl)
      ∙ bind_next _ _ u (or_else_run (some (user, scanned r.columns)) _ u refl)

  pub create_run :
      (ttl id : ℕ) (secret : Bytes) (w : World P)
      → P.rand_read w.calls 32 ≡ some secret
      → (P.redis.set w.now (session_key (P.encode_base64 secret)) (P.uuid_string id) ttl w.redis).0
        ≡ value tt
      → SessionStore.create {P = P} ttl id w ≡ (
        ok (P.encode_base64 secret),
        record (counted (counted w)) {
          redis =
              (P.redis.set w.now
                (session_key (P.encode_base64 secret))
                (P.uuid_string id)
                ttl
                w.redis).1;
        },
      )
  unfolding SessionStore.create new_token
  create_run ttl id secret w drawn stores = ground (arith, drawn, stores)

  -- From the validated assertion on.
  pub finish_login_run :
      (deps : Deps) (r : Request) (cred : LibCredential) (user : User) (c : Bytes)
      (x : CredentialRow) (secret : Bytes) (w : World P)
      → P.pg_outcome w.calls ≡ answered
      → find (is_live_with c) w.db.credentials ≡ some x
      → P.rand_read (suc w.calls) 32 ≡ some secret
      → (P.redis.set w.now
          (session_key (P.encode_base64 secret))
          (P.uuid_string user.id)
          deps.session_ttl
          w.redis).0
        ≡ value tt
      → (v : World P) × (v.db ≡ record (w.db) {
        credentials =
            update
              (is_live_key x.columns.id)
              (set_assertion w.now cred.sign_count cred.backup_eligible cred.backup_state)
              w.db.credentials;
      })
        × (finish_login {P = P} deps r cred user (scanned x.columns) w ≡ (
          respond (record {
            status = 200;
            body = logged_in (P.uuid_string user.id) user.username user.display_name;
          }),
          drop_guest "login complete: delete guest" r v,
        ))
  unfolding finish_login modify write_json attempted
  finish_login_run deps r cred user c x secret w answers found drawn stores =
      let v0 : World P = record_counter_anomalies (scanned x.columns) cred w in
      let set = set_assertion w.now cred.sign_count cred.backup_eligible cred.backup_state in
      let v1 : World P = record (counted v0) {
        db = record (w.db) { credentials = update (is_live_key x.columns.id) set w.db.credentials };
      } in
      let token = P.encode_base64 secret in
      let v2 : World P = record (counted (counted v1)) {
        redis =
            (P.redis.set w.now (session_key token) (P.uuid_string user.id) deps.session_ttl
              w.redis).1;
      } in
      let v3 : World P = set_session_cookie r token deps.session_max_age v2 in
      (
        v3,
        refl,
        seq_next (modify {P = P} (record_counter_anomalies (scanned x.columns) cred)) _ w refl
            ∙ seq_next _ _ v0 (
                attempt_run
                  (update_after_assertion {P = P} x.columns.id cred.sign_count cred.backup_eligible
                    cred.backup_state)
                  _ v0
                  (update_run c x cred.sign_count cred.backup_eligible cred.backup_state v0 answers
                    found))
            ∙ bind_next _ _ v1 (
                attempt_run (SessionStore.create {P = P} deps.session_ttl user.id) _ v1
                  (create_run deps.session_ttl user.id secret v1 drawn stores))
            ∙ seq_next (modify {P = P} (set_session_cookie r token deps.session_max_age)) _ v2 refl
            ∙ seq_next (modify {P = P} (drop_guest "login complete: delete guest" r)) _ v3 refl,
      )
