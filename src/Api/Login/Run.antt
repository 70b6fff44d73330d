-- ===== src/Api/Login/Run.antt =====
-- internal/api/handler/auth.go, CompleteLogin: a login that succeeds, call by call, and what it leaves.
use go_passkey_auth.Prelude.{
  ℕ, ◌+◌, ◌≤◌, ◌<◌, String, ◌≡◌, ◌≢◌, ap, ◌∙◌, none, some, [], ◌∷◌, ◌++◌, string_eq, nat_eq, ltb,
  if◌then◌else◌, find,
}
use go_passkey_auth.Domain.{User}
use go_passkey_auth.Platform.{Platform, World}
use go_passkey_auth.Platform.Redis.{IsRedis}
use go_passkey_auth.Store.Postgres.Users.{has_id}
use go_passkey_auth.Store.Postgres.Credentials.{update_after_assertion}
use go_passkey_auth.Store.Redis.Challenge.{take}
use go_passkey_auth.Store.Redis.Session as SessionStore
use go_passkey_auth.Store.Redis.Session.{session_key, resolved}
use go_passkey_auth.Store.Redis.Laws.{create_inv}
use go_passkey_auth.Api.Http.{Request, outcome, logged_in}
use go_passkey_auth.Api.Http.Success.{Succeeds}
use go_passkey_auth.Api.Cookie.{session_cookie_name, cookie_of, set_session_cookie}
use go_passkey_auth.Api.Auth.Deps.{Deps}
use go_passkey_auth.Api.Auth.Convert.{record_counter_anomalies}
use go_passkey_auth.Api.Auth.Login.{complete_login, validate}
use go_passkey_auth.Api.Login.Steps.{validate_inv, resolve_inv, validate_login_inv}
use go_passkey_auth.Api.Login.Inverse.{verified_inv}
use go_passkey_auth.Api.Tokens.{NeverEmpty, session_drawn, find_self}
use go_passkey_auth.Api.Login.Same.{update-ok, create_same, validate_same}
use go_passkey_auth.Api.Login.End.{dropped_cookies, finish_run, drop_guest_rest, drop_guest_view}

module _ {P : Platform} where
  -- What a login that succeeds leaves for its user.
  pub complete_login_run :
      (L : IsRedis P.redis) (deps : Deps) (r : Request) (w : World P)
      → NeverEmpty P
      → Succeeds (complete_login {P = P} deps r w).0
      → (token : String) × (user : User) × (outcome (complete_login {P = P} deps r w).0 ≡ record {
        status = 200;
        body = logged_in (P.uuid_string user.id) user.username user.display_name;
      })
        × ((complete_login {P = P} deps r w).1.cookies
            ≡ (w.cookies ++ cookie_of r session_cookie_name token (some deps.session_max_age) ∷ [])
              ++ dropped_cookies r)
        × (token ≢ "")
        × (find (has_id user.id) (complete_login {P = P} deps r w).1.db.users ≡ some user)
        × ((later : ℕ)
            → w.now ≤ later
            → 0 < deps.session_ttl
            → L.view (complete_login {P = P} deps r w).1.redis later (session_key token) ≡ (
                if ltb later (w.now + deps.session_ttl)
                then some (P.uuid_string user.id)
                else none))
  unfolding take
  complete_login_run L deps r w drawn h =
      let (req, raw, stored, parsed, x, u, decoded, took, unmarshalled, is_parsed, at, e, h2, s) =
        verified_inv deps r w h in
      let (ids, judge, asked, accepts, resolved) =
        validate_login_inv stored.session parsed u (validate_inv stored.session parsed u e) in
      let (row, is_live, reads, owns) = resolve_inv parsed u resolved in
      let v : World P = (validate {P = P} stored.session parsed u).1 in
      let checked = validate_same stored.session parsed u e in
      let (token, written, issued, ran) = finish_run deps r x.0 x.1 x.2 v h2 in
      let counted_on : World P = record_counter_anomalies x.2 x.0 v in
      let updated : World P =
        (update_after_assertion {P = P} x.2.id x.0.sign_count x.0.backup_eligible x.0.backup_state
          counted_on).1 in
      let (wrote, clock_kept, cookies_kept) =
        update-ok x.2.id x.0.sign_count x.0.backup_eligible x.0.backup_state counted_on written in
      let created : World P = (SessionStore.create {P = P} deps.session_ttl x.1.id updated).1 in
      let minted = create_same deps.session_ttl x.1.id updated in
      let signed : World P = set_session_cookie r token deps.session_max_age created in
      let (cookies, db, clock) = drop_guest_rest "login complete: delete guest" r signed in
      let whole = s ∙ ran in
      let now : updated.now ≡ w.now = clock_kept ∙ checked.clock ∙ ap (λ z. z.now) at in
      let (replied, redis, _) = create_inv deps.session_ttl x.1.id updated token issued in
      let users : created.db.users ≡ u.db.users =
        ap (λ d. d.users) (minted.db ∙ wrote) ∙ ap (λ d. d.users) checked.db in
      (
        token,
        x.1,
        ap (λ z. outcome z.0) whole,
        ap (λ z. z.1.cookies) whole
            ∙ cookies
            ∙ ap
                (λ c.
                  (c ++ cookie_of r session_cookie_name token (some deps.session_max_age) ∷ [])
                  ++ dropped_cookies r)
                (minted.cookies ∙ cookies_kept ∙ checked.cookies ∙ ap (λ z. z.cookies) at),
        session_drawn deps.session_ttl x.1.id updated token drawn issued,
        ap (λ z. find (has_id x.1.id) z.1.db.users) whole
            ∙ ap (λ d. find (has_id x.1.id) d.users) db
            ∙ ap (find (has_id x.1.id)) users
            ∙ find_self x.2.user_id u.db.users x.1 owns,
        λ later after lasts.
            ap (λ z. L.view z.1.redis later (session_key token)) whole
            ∙ drop_guest_view L "login complete: delete guest" r signed later token
            ∙ ap (λ z. L.view z later (session_key token)) redis
            ∙ L.set_value updated.now later deps.session_ttl (session_key token)
                (P.uuid_string x.1.id) updated.redis lasts replied (rw now after)
            ∙ ap
                (λ t.
                  if ltb later (t + deps.session_ttl) then some (P.uuid_string x.1.id) else none)
                now,
      )
