-- ===== src/Api/Kept/Routes.antt =====
-- Serving a request keeps what all calls keep, and answers with a stable response.
use go_passkey_auth.Prelude.{[], String}
use go_passkey_auth.Platform.{Platform, World}
use go_passkey_auth.Api.Http.{Request, Step, next, respond, outcome}
use go_passkey_auth.Api.Http.Ensures.{Ensures, Answers}
use go_passkey_auth.Api.Http.Stable.{IsStable}
use go_passkey_auth.Api.Kept.{KeptByLookups, KeptByWrites, KeptBySaves}
use go_passkey_auth.Api.Kept.Endpoints.{
  begin_register-Ensures, complete_register-Ensures, begin_login-Ensures, complete_login-Ensures,
}
use go_passkey_auth.Api.Kept.Guests.{guest-Ensures, begin_promote-Ensures, complete_promote-Ensures}
use go_passkey_auth.Api.Kept.Members.{
  logout-Ensures, require_session-Ensures, me-Ensures, list_credentials-Ensures,
  delete_credential-Ensures,
}
use go_passkey_auth.Api.Auth.Deps.{Deps}
use go_passkey_auth.Api.Users.{me, list_credentials, delete_credential}
use go_passkey_auth.Api.Router.{Route, handler_of, serve}

module _ {P : Platform} {Q : World P → Type 0} (kept : KeptByLookups Q) (writes : KeptByWrites Q)
    {Fresh : String → Type 0} (saves : KeptBySaves Fresh Q) where
  handler_of-Ensures :
      (deps : Deps) (route : Route) (r : Request)
      → Ensures Q IsStable (handler_of {P = P} deps route r)
  unfolding handler_of
  handler_of-Ensures deps Route.register_begin r = begin_register-Ensures kept saves deps r
  handler_of-Ensures deps Route.register_complete r = complete_register-Ensures kept writes r
  handler_of-Ensures deps Route.login_begin r = begin_login-Ensures kept saves deps
  handler_of-Ensures deps Route.login_complete r = complete_login-Ensures kept writes deps r
  handler_of-Ensures deps Route.logout_route r = logout-Ensures kept r
  handler_of-Ensures deps Route.guest_route r = guest-Ensures kept writes deps r
  handler_of-Ensures deps Route.promote_begin r = begin_promote-Ensures kept saves deps r
  handler_of-Ensures deps Route.promote_complete r = complete_promote-Ensures kept writes deps r
  handler_of-Ensures deps Route.users_me r = require_session-Ensures kept me (me-Ensures kept) r
  handler_of-Ensures deps Route.users_credentials r =
      require_session-Ensures kept list_credentials (list_credentials-Ensures kept) r
  handler_of-Ensures deps Route.users_delete r =
      require_session-Ensures kept delete_credential (delete_credential-Ensures kept writes) r

  answered : (s : Step P ⊥) → Answers IsStable s → IsStable (outcome s)
  answered (next a) h = absurd a
  answered (respond r) h = h

  pub serve-Ensures :
      (deps : Deps) (route : Route) (r : Request) (w : World P)
      → Q (record w { cookies = [] })
      → Q (serve deps route r w).1 × IsStable (serve deps route r w).0
  unfolding serve
  serve-Ensures deps route r w q =
      let h = (handler_of-Ensures deps route r).at (record w { cookies = [] }) q in
      (h.0, answered (handler_of deps route r (record w { cookies = [] })).0 h.1)
