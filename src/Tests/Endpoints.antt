-- ===== src/Tests/Endpoints.antt =====
-- Histories of requests on concrete platforms.
use go_passkey_auth.Prelude.{◌≡◌, refl, false, List, [], ◌∷◌}
use go_passkey_auth.Store.Tables.{empty_db}
use go_passkey_auth.Store.Postgres.Users.{insert_user}
use go_passkey_auth.Store.Postgres.Consistent.{IsConsistent, IsConsistent-empty}
use go_passkey_auth.Api.Http.Stable.{IsStable}
use go_passkey_auth.Api.Router.{Route, Event, request, elapse, run, serve}
use go_passkey_auth.Api.Tables.Integrity.{
  start as none_yet, then_write, user_row, Interleaved-IsConsistent, run-IsConsistent,
  serve-IsStable, serve-db,
}
use go_passkey_auth.Tests.Fixture.{platform, start, deps, request_of}

-- The name is looked up by call 1, the handle is drawn by call 2 and the session id by call 3.
abbrev history : List Event
history =
    request Route.register_begin (request_of "names")
    ∷ elapse 5
    ∷ request Route.register_complete (request_of "aaa")
    ∷ []

run-IsConsistent_example : IsConsistent (run deps history start).db
run-IsConsistent_example = run-IsConsistent deps history start IsConsistent-empty

Interleaved-IsConsistent_example : IsConsistent (insert_user 1 10 "alice" "Alice" false empty_db).1
Interleaved-IsConsistent_example =
    Interleaved-IsConsistent (then_write none_yet (user_row empty_db 1 10 "alice" "Alice" false))
      IsConsistent-empty

serve-IsStable_example :
    IsStable (serve {P = platform} deps Route.register_complete (request_of "aaa") start).0
serve-IsStable_example = serve-IsStable deps Route.register_complete (request_of "aaa") start

serve-db_example :
    (serve {P = platform} deps Route.register_begin (request_of "names") start).1.db ≡ empty_db
serve-db_example = serve-db deps Route.register_begin (request_of "names") start refl
