-- ===== src/Api/Gone/History.antt =====
-- What is gone stays gone over a history of requests.
use go_passkey_auth.Prelude.{ℕ, String, List, [], ◌∷◌, ◌≤◌, ◌+◌, arith}
use go_passkey_auth.Platform.{Platform, World}
use go_passkey_auth.Platform.Redis.{IsRedis}
use go_passkey_auth.Store.Redis.Challenge.{challenge_key}
use go_passkey_auth.Store.Redis.Session.{session_key}
use go_passkey_auth.Store.Redis.Guest.{guest_key}
use go_passkey_auth.Api.Http.{Request}
use go_passkey_auth.Api.Auth.Deps.{Deps}
use go_passkey_auth.Api.Router.{Route, serve, Event, request, elapse, run_event, run}
use go_passkey_auth.Api.Kept.Routes.{serve-Ensures}
use go_passkey_auth.Api.Gone.{Spent, Misses, Spent-KeptByLookups, Spent-KeptBySaves}
use go_passkey_auth.Api.Gone.Writes.{Spent-KeptByWrites}

module _ {P : Platform} (L : IsRedis P.redis) (from : ℕ) (key : String)
    (sessions : Misses P from key session_key) (guests : Misses P from key guest_key)
    (challenges : Misses P from key challenge_key) where
  serve-Spent :
      (deps : Deps) (route : Route) (r : Request) (w : World P)
      → Spent L from key w
      → Spent L from key (serve deps route r w).1
  serve-Spent deps route r w s =
      (serve-Ensures (Spent-KeptByLookups L from key sessions guests)
        (Spent-KeptByWrites L from key) (Spent-KeptBySaves L from key challenges) deps route r w
        (record { reached = s.reached; gone = s.gone })).0

  run_event-Spent :
      (deps : Deps) (e : Event) (w : World P)
      → Spent L from key w
      → Spent L from key (run_event deps e w)
  unfolding run_event
  run_event-Spent deps (request route r) w s = serve-Spent deps route r w s
  run_event-Spent deps (elapse n) w s = record {
    reached = s.reached;
    gone = λ u (after : w.now + n ≤ u). s.gone u (omega arith);
  }

  pub run-Spent :
      (deps : Deps) (es : List Event) (w : World P)
      → Spent L from key w
      → Spent L from key (run deps es w)
  unfolding run
  run-Spent deps [] w s = s
  run-Spent deps (e ∷ es) w s = run-Spent deps es (run_event deps e w) (run_event-Spent deps e w s)
