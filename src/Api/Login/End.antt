-- ===== src/Api/Login/End.antt =====
-- internal/api/handler/auth.go, CompleteLogin from the validated assertion on, and dropGuest.
use go_passkey_auth.Prelude.{
  Option, ℕ, String, ◌≡◌, refl, sym, ap, ◌∙◌, List, [], ◌∷◌, ◌++◌, none, some, string_eq, nat_eq,
  inl, inr, Option-cases,
}
use mathlib.Core.List.{append-nil}
use go_passkey_auth.Domain.{ok, err, User, Credential}
use go_passkey_auth.Platform.{Platform, World, Cookie, counted, warn_line}
use go_passkey_auth.Platform.Redis.{IsRedis, Reply, value, nil, failed}
use go_passkey_auth.Platform.Library.{LibCredential}
use go_passkey_auth.Store.Postgres.Credentials.{update_after_assertion}
use go_passkey_auth.Store.Redis.Session as SessionStore
use go_passkey_auth.Store.Redis.Session.{session_key, resolved}
use go_passkey_auth.Store.Redis.Guest as GuestStore
use go_passkey_auth.Store.Redis.Guest.{guest_key}
use go_passkey_auth.Store.Redis.Keys.{session_key-ne-guest_key}
use go_passkey_auth.Api.Http.{Request, Step, logged, write_json, modify, respond, logged_in}
use go_passkey_auth.Api.Http.Success.{
  Succeeds, bind-Runs, seq-Runs, attempt-next, attempt-Fails, internal_error-Fails,
  internal_error-Ends,
}
use go_passkey_auth.Api.Http.Ensures.{Ensures-modify}
use go_passkey_auth.Api.Cookie.{
  guest_cookie_name, cookie_of, non_empty, set_session_cookie, clear_guest_cookie,
}
use go_passkey_auth.Api.Auth.Deps.{Deps}
use go_passkey_auth.Api.Auth.Convert.{record_counter_anomalies}
use go_passkey_auth.Api.Auth.Ceremony.{drop_guest}
use go_passkey_auth.Api.Auth.Login.{finish_login}

-- The Set-Cookie header of dropGuest: the guest cookie is cleared if the request has one.
abbrev dropped_of : Request → Option String → List Cookie
dropped_of r none = []
dropped_of r (some _) = cookie_of r guest_cookie_name "" none ∷ []

abbrev pub dropped_cookies : Request → List Cookie
dropped_cookies r = dropped_of r (non_empty (r.cookie guest_cookie_name))

module _ {P : Platform} where
  -- The end of a login that succeeds, call by call.
  pub finish_run :
      (deps : Deps) (r : Request) (cred : LibCredential) (user : User) (found : Credential)
      (u : World P)
      → Succeeds (finish_login {P = P} deps r cred user found u).0
      → let updated : World P =
          (update_after_assertion {P = P} found.id cred.sign_count cred.backup_eligible
            cred.backup_state
            (record_counter_anomalies found cred u)).1 in
        (token : String) × ((update_after_assertion {P = P} found.id cred.sign_count
            cred.backup_eligible cred.backup_state
            (record_counter_anomalies found cred u)).0
          ≡ ok tt)
        × ((SessionStore.create {P = P} deps.session_ttl user.id updated).0 ≡ ok token)
        × (finish_login {P = P} deps r cred user found u ≡ (
          respond (record {
            status = 200;
            body = logged_in (P.uuid_string user.id) user.username user.display_name;
          }),
          drop_guest "login complete: delete guest" r (
              set_session_cookie r token deps.session_max_age
                (SessionStore.create {P = P} deps.session_ttl user.id updated).1),
        ))
  unfolding finish_login write_json modify
  finish_run deps r cred user found u h =
      let update =
        update_after_assertion {P = P} found.id cred.sign_count cred.backup_eligible
          cred.backup_state in
      let create = SessionStore.create {P = P} deps.session_ttl user.id in
      let (_, e6, h6, s6) =
        seq-Runs {m = modify {P = P} (record_counter_anomalies found cred)} _ u
          (Ensures-modify (record { at = λ w q. tt })) h in
      let (_, e7, h7, s7) = seq-Runs _ _ (attempt-Fails update (λ e. internal_error-Fails _)) h6 in
      let (token, e8, h8, s8) =
        bind-Runs _ _ (attempt-Fails create (λ e. internal_error-Fails _)) h7 in
      let (_, e9, h9, s9) = seq-Runs _ _ (Ensures-modify (record { at = λ w q. tt })) h8 in
      let (_, e10, h10, s10) = seq-Runs _ _ (Ensures-modify (record { at = λ w q. tt })) h9 in
      let (written, q7) = attempt-next update _ _ (λ e. internal_error-Ends _) e7 in
      let (issued, q8) = attempt-next create _ _ (λ e. internal_error-Ends _) e8 in
      let answer : World P → Step P ⊥ × World P = λ x. (
        respond (record {
          status = 200;
          body = logged_in (P.uuid_string user.id) user.username user.display_name;
        }),
        drop_guest "login complete: delete guest" r
            (set_session_cookie r token deps.session_max_age x),
      ) in
      (
        token,
        written,
        ap (λ x. (create x).0) (sym q7) ∙ issued,
        s6 ∙ s7 ∙ s8 ∙ s9 ∙ s10 ∙ ap answer q8 ∙ ap (λ x. answer (create x).1) q7,
      )

  -- A guest that is dropped leaves the tables and the clock.
  pub drop_guest_rest :
      (line : String) (r : Request) (w : World P)
      → ((drop_guest line r w).cookies ≡ w.cookies ++ dropped_cookies r)
        × ((drop_guest line r w).db ≡ w.db)
        × ((drop_guest line r w).now ≡ w.now)
  unfolding drop_guest GuestStore.delete
  drop_guest_rest line r w = elim (Option-cases (non_empty (r.cookie guest_cookie_name))) [
    | inl e ↦ rw (e, drop_guest) (sym (append-nil w.cookies), refl, refl)
    | inr (guest, e) ↦ rw (e, drop_guest) (go (P.redis.del w.now (guest_key guest) w.redis))
  ]
    where
      go :
          (d : Reply (Unit {0}) × P.redis.State)
          → let v : World P = clear_guest_cookie r (elim (SessionStore.deleted d.0) [
            | ok _ ↦ record (counted w) { redis = d.1 }
            | err _ ↦ logged (warn_line line) (record (counted w) { redis = d.1 })
          ]) in
            (v.cookies ≡ w.cookies ++ cookie_of r guest_cookie_name "" none ∷ [])
            × (v.db ≡ w.db)
            × (v.now ≡ w.now)
      go (value _, s) = (refl, refl, refl)
      go (nil, s) = (refl, refl, refl)
      go (failed, s) = (refl, refl, refl)

  -- It leaves the sessions.
  pub drop_guest_view :
      (L : IsRedis P.redis) (line : String) (r : Request) (w : World P) (later : ℕ) (token : String)
      → L.view (drop_guest line r w).redis later (session_key token)
        ≡ L.view w.redis later (session_key token)
  unfolding drop_guest GuestStore.delete
  drop_guest_view L line r w later token =
      elim (Option-cases (non_empty (r.cookie guest_cookie_name))) [
        | inl e ↦ rw (e, drop_guest) refl
        | inr (guest, e) ↦
            rw (e, drop_guest)
              (go (P.redis.del w.now (guest_key guest) w.redis)
                ∙ L.del_frame w.now later (guest_key guest) (session_key token) w.redis
                    (λ p. session_key-ne-guest_key token guest (sym p)))
      ]
    where
      go :
          (d : Reply (Unit {0}) × P.redis.State)
          → let v : World P = elim (SessionStore.deleted d.0) [
            | ok _ ↦ record (counted w) { redis = d.1 }
            | err _ ↦ logged (warn_line line) (record (counted w) { redis = d.1 })
          ] in
            L.view v.redis later (session_key token) ≡ L.view d.1 later (session_key token)
      go (value _, s) = refl
      go (nil, s) = refl
      go (failed, s) = refl
