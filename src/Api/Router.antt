-- ===== src/Api/Router.antt =====
-- internal/api/router.go: the routes under /api/v1, each with its handler. The routes of /users/me
-- stand behind the session check. A request is served from an empty list of Set-Cookie headers.
use go_passkey_auth.Prelude.{[], ℕ, ◌+◌, List, ◌∷◌}
use go_passkey_auth.Platform.{Platform, World}
use go_passkey_auth.Api.Http.{Request, Response, Handler, outcome}
use go_passkey_auth.Api.Middleware.{require_session}
use go_passkey_auth.Api.Auth.Deps.{Deps}
use go_passkey_auth.Api.Auth.Register.{begin_register, complete_register}
use go_passkey_auth.Api.Auth.Login.{begin_login, complete_login, logout}
use go_passkey_auth.Api.Auth.Guest.{guest}
use go_passkey_auth.Api.Auth.Promote.{begin_promote, complete_promote}
use go_passkey_auth.Api.Users.{me, list_credentials, delete_credential}

pub data Route : Type 0 where
  register_begin register_complete login_begin login_complete logout_route : Route
  guest_route promote_begin promote_complete : Route
  users_me users_credentials users_delete : Route

module _ {P : Platform} where
  unfoldable pub handler_of : Deps → Route → Request → Handler P ⊥
  handler_of deps Route.register_begin = begin_register deps
  handler_of deps Route.register_complete = complete_register
  handler_of deps Route.login_begin = λ _. begin_login deps
  handler_of deps Route.login_complete = complete_login deps
  handler_of deps Route.logout_route = logout
  handler_of deps Route.guest_route = guest deps
  handler_of deps Route.promote_begin = begin_promote deps
  handler_of deps Route.promote_complete = complete_promote deps
  handler_of deps Route.users_me = require_session me
  handler_of deps Route.users_credentials = require_session list_credentials
  handler_of deps Route.users_delete = require_session delete_credential

  unfoldable pub serve : Deps → Route → Request → World P → Response P.lib × World P
  serve deps route r w =
      let (s, w') = handler_of deps route r (record w { cookies = [] }) in (outcome s, w')

-- What happens to a server over time: requests come in, and time passes between them.
pub data Event : Type 0 where
  request : Route → Request → Event
  elapse : ℕ → Event

module _ {P : Platform} where
  unfoldable pub run_event : Deps → Event → World P → World P
  unfolding serve
  run_event deps (request route r) w = (serve deps route r w).1
  run_event deps (elapse n) w = record w { now = w.now + n }

  unfoldable pub run : Deps → List Event → World P → World P
  unfolding run_event
  run deps [] w = w
  run deps (e ∷ es) w = run deps es (run_event deps e w)
