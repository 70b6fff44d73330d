-- ===== src/Api/Guarded.antt =====
-- internal/api/middleware/session.go, RequireSession: who gets past it.
use go_passkey_auth.Prelude.{ℕ, String, ◌≡◌, refl, some, ap, sym, ◌∙◌}
use go_passkey_auth.Domain.{Err, ok, session_not_found}
use go_passkey_auth.Platform.{Platform, World}
use go_passkey_auth.Store.Redis.Session as SessionStore
use go_passkey_auth.Api.Http.{Request, Handler, write_json, or_else}
use go_passkey_auth.Api.Http.Success.{
  Fails, Ends, Succeeds, bind-Succeeds, or_else-next, attempt-next, or_else-Fails, attempt-Fails,
}
use go_passkey_auth.Api.Cookie.{session_cookie_name, non_empty}
use go_passkey_auth.Api.Middleware.{
  require_session, lookup_error, write_unauthorized, write_internal_error, with_user,
}

module _ {P : Platform} where
  write_unauthorized-Fails : {A : Type 0} → Fails {P = P} {A = A} write_unauthorized
  unfolding write_unauthorized write_json
  write_unauthorized-Fails = record { at = λ w q. (tt, refl) }

  write_unauthorized-Ends : {A : Type 0} → Ends {P = P} {A = A} write_unauthorized
  unfolding write_unauthorized write_json
  write_unauthorized-Ends w a h = cc

  lookup_error-Fails : {A : Type 0} (e : Err) → Fails {P = P} {A = A} (lookup_error e)
  unfolding lookup_error write_internal_error write_json
  lookup_error-Fails session_not_found = write_unauthorized-Fails
  lookup_error-Fails _ = record { at = λ w q. (tt, refl) }

  lookup_error-Ends : {A : Type 0} (e : Err) → Ends {P = P} {A = A} (lookup_error e)
  unfolding lookup_error write_internal_error write_json
  lookup_error-Ends session_not_found w a h = write_unauthorized-Ends w a h
  lookup_error-Ends _ w a h = cc

  -- A request that gets a response without an error from behind the session check carries a session
  -- cookie that is not empty, whose token resolves to a user; and the response is that of the handler
  -- behind, on the request with that user's id.
  pub require_session-resolved :
      (inner : Request → Handler P ⊥) (r : Request) (w : World P)
      → Succeeds (require_session inner r w).0
      → (token : String) × (user_id : ℕ) × (non_empty (r.cookie session_cookie_name) ≡ some token)
        × ((SessionStore.get token w).0 ≡ ok user_id)
        × ((require_session inner r w).0
            ≡ (inner (with_user user_id r) (SessionStore.get token w).1).0)
  unfolding require_session
  require_session-resolved inner r w h =
      let (token, e1, h1, s1) =
        bind-Succeeds {m = or_else (non_empty (r.cookie session_cookie_name)) write_unauthorized} _
          w (or_else-Fails _ write_unauthorized-Fails) h in
      let (user_id, e2, h2, s2) =
        bind-Succeeds _ _ (attempt-Fails (SessionStore.get token) lookup_error-Fails) h1 in
      let (carried, q1) =
        or_else-next (non_empty (r.cookie session_cookie_name)) _ w write_unauthorized-Ends e1 in
      let (resolved, q2) = attempt-next (SessionStore.get token) _ _ lookup_error-Ends e2 in
      (
        token,
        user_id,
        carried,
        ap (λ v. (SessionStore.get token v).0) (sym q1) ∙ resolved,
        s1
            ∙ s2
            ∙ ap (λ v. (inner (with_user user_id r) v).0)
                (q2 ∙ ap (λ v. (SessionStore.get token v).1) q1),
      )
