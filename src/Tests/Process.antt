-- ===== src/Tests/Process.antt =====
-- A process that starts, and one whose Redis does not answer.
use go_passkey_auth.Prelude.{ap, true, ◌≡◌, refl, ◌⊎◌, [], ◌∷◌, arith, any}
use go_passkey_auth.Domain.{ok, err, other}
use go_passkey_auth.Store.Redis.Token.{new_token}
use go_passkey_auth.Store.Redis.Session as SessionStore
use go_passkey_auth.Config.{Config, loaded, load, new_service}
use go_passkey_auth.Server.{
  Outside, no_change, stop_signal, run, opened, closed, migration_db, pool, redis_client, listener,
  deps_of,
}
use go_passkey_auth.Server.Start.{is_listening, IsReady, run-IsReady, run-actions}
use go_passkey_auth.Server.Lifetimes.{get-create-deps_of}
use go_passkey_auth.Tests.Fixture.{start, redis_server-IsRedis, platform-IsUuid}
use go_passkey_auth.Tests.Settings.{env, settings, load_test}

abbrev outside : Outside
outside = record {
  iofs_new = true;
  sql_open = λ _. true;
  with_instance = true;
  new_with_instance = true;
  up = no_change;
  pg_parse = λ _. true;
  pg_open = true;
  pg_ping = true;
  redis_parse = λ _. true;
  redis_ping = true;
  accepts = λ _. true;
  ending = stop_signal;
  shutdown = true;
}

outside-IsReady : IsReady outside settings
unfolding new_service
outside-IsReady = record {
  iofs_new = refl;
  sql_open = refl;
  with_instance = refl;
  new_with_instance = refl;
  up = λ e. cc;
  pg_parse = refl;
  pg_open = refl;
  pg_ping = refl;
  redis_parse = refl;
  redis_ping = refl;
  service = refl;
  ending = refl;
}

run-actions_example :
    (run outside env []).1
    ≡ opened migration_db
      ∷ closed migration_db
      ∷ opened pool
      ∷ opened redis_client
      ∷ opened listener
      ∷ closed listener
      ∷ closed redis_client
      ∷ closed pool
      ∷ []
run-actions_example = run-actions outside env settings load_test outside-IsReady

listens_test : any is_listening (run outside env []).1 ≡ true
listens_test = ap (any is_listening) (run-actions outside env settings load_test outside-IsReady)

run-IsReady_example : (cfg : Config) × (load env ≡ loaded cfg) × IsReady outside cfg
run-IsReady_example = run-IsReady outside env listens_test

-- Two seconds and a half.
abbrev short : Config
short = record settings { session_ttl = 2_500_000_000 }

create_test : (SessionStore.create (deps_of short).session_ttl 7 start).0 ≡ ok "a"
unfolding SessionStore.create new_token
create_test = refl

get-create-deps_of_example :
    let r =
      (SessionStore.get "a" (record (SessionStore.create (deps_of short).session_ttl 7 start).1 {
        now = 2_000_000_000;
      })).0 in
    (r ≡ ok 7) ⊎ (r ≡ err other)
get-create-deps_of_example =
    get-create-deps_of redis_server-IsRedis platform-IsUuid short 7 2_000_000_000 start "a"
      create_test (omega arith) (omega arith)
