-- ===== src/Api/LoggedOut.antt =====
-- internal/api/handler/auth.go, Logout, with internal/api/middleware/session.go: a token that is
-- logged out.
use go_passkey_auth.Prelude.{
  ℕ, Bool, true, false, ◌≤◌, String, ◌≡◌, refl, ap, sym, ◌∙◌, some, List, [], arith, inl, inr, ◌⊎◌,
}
use go_passkey_auth.Domain.{ok, err, session_not_found, other}
use mathlib.Core.Path.{subst}
use mathlib.Core.Bool.{false≢true}
use go_passkey_auth.Platform.{Platform, World, warn_line}
use go_passkey_auth.Platform.Library.{WebauthnLib}
use go_passkey_auth.Platform.Redis.{IsRedis, Reply, value, nil, failed}
use go_passkey_auth.Store.Redis.Session as SessionStore
use go_passkey_auth.Store.Redis.Session.{session_key, resolved, deleted}
use go_passkey_auth.Store.Redis.Laws.{deleted-ok}
use go_passkey_auth.Store.Redis.Keys.{
  session_key_ne, session_key-ne-guest_key, session_key-ne-challenge_key,
}
use go_passkey_auth.Api.Http.{
  Request, Response, Handler, write_json, modify, or_else, outcome, error_body, logged, ◌>>◌, ◌>>=◌,
}
use go_passkey_auth.Api.Users.{me, list_credentials, delete_credential}
use go_passkey_auth.Api.Http.Forward.{bind_next, bind_respond, attempted, attempt_run, or_else_run}
use go_passkey_auth.Api.Cookie.{session_cookie_name, non_empty}
use go_passkey_auth.Api.Auth.Deps.{Deps}
use go_passkey_auth.Api.Auth.Login.{logout, delete_session}
use go_passkey_auth.Api.Middleware.{
  require_session, lookup_error, write_unauthorized, write_internal_error,
}
use go_passkey_auth.Api.Router.{Route, serve, handler_of, Event, run}
use go_passkey_auth.Api.Gone.{Spent, NeverDrawn}
use go_passkey_auth.Api.Gone.History.{run-Spent}

-- The routes behind the session check.
abbrev pub is_guarded : Route → Bool
is_guarded Route.users_me = true
is_guarded Route.users_credentials = true
is_guarded Route.users_delete = true
is_guarded _ = false

-- The two answers of the session check to a request that it does not let through.
abbrev pub Rejected : {L : WebauthnLib} → Response L → Type 0
Rejected x =
    (x ≡ record { status = 401; body = error_body "unauthorized" "Authentication required." })
    ⊎ (x ≡ record { status = 500; body = error_body "internal_error" "Internal server error." })

module _ {P : Platform} (L : IsRedis P.redis) (from : ℕ) (token : String) where
  -- What is deleted is gone.
  delete-Spent :
      (w : World P)
      → from ≤ w.calls
      → (SessionStore.delete {P = P} token w).0 ≡ ok tt
      → Spent L from (session_key token) (SessionStore.delete {P = P} token w).1
  unfolding SessionStore.delete
  delete-Spent w le h =
      let done =
        deleted-ok (P.redis.del w.now (session_key token) w.redis).0
          (L.del_not_nil w.now (session_key token) w.redis) h in
      record {
        reached = omega arith;
        gone = λ u after. L.del_value w.now u (session_key token) w.redis done after;
      }

  get_gone :
      (w : World P)
      → Spent L from (session_key token) w
      → ((SessionStore.get {P = P} token w).0 ≡ err session_not_found)
        ⊎ ((SessionStore.get {P = P} token w).0 ≡ err other)
  unfolding SessionStore.get
  get_gone w s =
      go (P.redis.get w.now (session_key token) w.redis).0
        λ v e. L.get_value w.now (session_key token) v w.redis e
    where
      go :
          (x : Reply String)
          → ((v : String) → x ≡ value v → L.view w.redis w.now (session_key token) ≡ some v)
          → (resolved P session_not_found x ≡ err session_not_found)
            ⊎ (resolved P session_not_found x ≡ err other)
      go (value v) held =
          let was = held v refl in let gone = s.gone w.now (omega arith) in absurd (cc)
      go nil held = inl refl
      go failed held = inr refl

  -- A request with such a token gets no further than the session check.
  require_gone :
      (inner : Request → Handler P ⊥) (r : Request) (w : World P)
      → Spent L from (session_key token) w
      → non_empty (r.cookie session_cookie_name) ≡ some token
      → Rejected (outcome (require_session inner r w).0) × ((require_session inner r w).1.db ≡ w.db)
  unfolding require_session SessionStore.get lookup_error write_unauthorized write_internal_error
      write_json attempted
  require_gone inner r w s carried =
      let u : World P = (SessionStore.get {P = P} token w).1 in
      let started =
        bind_next (or_else (non_empty (r.cookie session_cookie_name)) write_unauthorized) _ w
          (or_else_run (non_empty (r.cookie session_cookie_name)) _ w carried) in
      elim (get_gone w s) [
        | inl unknown ↦
            let whole =
              started
              ∙ bind_respond _ _ w (
                  attempt_run (SessionStore.get token) lookup_error w (ap (λ x. (x, u)) unknown)) in
            (inl (ap (λ z. outcome z.0) whole), ap (λ z. z.1.db) whole)
        | inr broken ↦
            let whole =
              started
              ∙ bind_respond _ _ w
                  (attempt_run (SessionStore.get token) lookup_error w (ap (λ x. (x, u)) broken)) in
            (inr (ap (λ z. outcome z.0) whole), ap (λ z. z.1.db) whole)
      ]

module _ {P : Platform} where
  logout_leaves :
      (L : IsRedis P.redis) (from : ℕ) (r : Request) (w : World P) (token : String)
      → non_empty (r.cookie session_cookie_name) ≡ some token
      → (SessionStore.delete {P = P} token w).0 ≡ ok tt
      → Spent L from (session_key token) (SessionStore.delete {P = P} token w).1
      → Spent L from (session_key token) (logout {P = P} r w).1
  unfolding logout modify write_json ◌>>◌ ◌>>=◌
  logout_leaves L from r w token carried done s =
      let u : World P = (SessionStore.delete {P = P} token w).1 in
      let gone : delete_session {P = P} (non_empty (r.cookie session_cookie_name)) w ≡ u =
        ap (λ o. delete_session {P = P} o w) carried
        ∙ ap (λ x. elim x [ ok _ ↦ u | err _ ↦ logged (warn_line "logout: delete session") u ])
            done in
      let t = subst (Spent {P = P} L from (session_key token)) (sym gone) s in
      record { reached = t.reached; gone = t.gone }

  guarded_by :
      (deps : Deps) (route : Route)
      → is_guarded route ≡ true
      → (inner : Request → Handler P ⊥) × (handler_of {P = P} deps route ≡ require_session inner)
  unfolding handler_of
  guarded_by deps Route.users_me h = (me, refl)
  guarded_by deps Route.users_credentials h = (list_credentials, refl)
  guarded_by deps Route.users_delete h = (delete_credential, refl)
  guarded_by deps _ h = absurd (false≢true h)

  -- After a logout whose deletion Redis has carried out, and any history of requests and elapsed
  -- time, every request to a route under /users/me with the same session token is answered by 401
  -- unauthorized, or by 500 where the lookup fails, and leaves both tables as they are. The tokens
  -- drawn from then on must be others, and Redis must behave as documented.
  pub serve-logged_out :
      (L : IsRedis P.redis) (deps : Deps) (route : Route) (r again : Request) (w : World P)
      (es : List Event) (token : String)
      → non_empty (r.cookie session_cookie_name) ≡ some token
      → (SessionStore.delete {P = P} token (record w { cookies = [] })).0 ≡ ok tt
      → NeverDrawn P w.calls token
      → is_guarded route ≡ true
      → non_empty (again.cookie session_cookie_name) ≡ some token
      → let after : World P = run deps es (serve deps Route.logout_route r w).1 in
        Rejected (serve deps route again after).0 × ((serve deps route again after).1.db ≡ after.db)
  unfolding serve handler_of
  serve-logged_out L deps route r again w es token carried done never guarded back =
      let w0 : World P = record w { cookies = [] } in
      let deletes = delete-Spent L w.calls token w0 (omega arith) done in
      let left = logout_leaves L w.calls r w0 token carried done deletes in
      let after : World P = run deps es (serve deps Route.logout_route r w).1 in
      let spent : Spent L w.calls (session_key token) after =
        run-Spent L w.calls (session_key token)
          (λ n b le e. session_key_ne (P.encode_base64 b) token (never n b le e))
          (λ n b le e same. session_key-ne-guest_key token (P.encode_base64 b) (sym same))
          (λ n b le e same. session_key-ne-challenge_key token (P.encode_base64 b) (sym same)) deps
          es (logout {P = P} r w0).1 left in
      let (inner, is_inner) = guarded_by deps route guarded in
      rw is_inner (
        require_gone L w.calls token inner again (record after { cookies = [] })
          (record { reached = spent.reached; gone = spent.gone }) back)
