-- ===== src/Server/Start.antt =====
-- cmd/server/main.go: when the server listens.
use go_passkey_auth.Prelude.{
  Bool, true, false, ◌≡◌, ◌≢◌, arith, none, [], ◌∷◌, any, inl, inr, ◌⊎◌, refl, ap,
}
use go_passkey_auth.Config.{
  Config, ConfigErr, Env, Loaded, loaded, invalid, load, new_service, service_config,
}
use go_passkey_auth.Server.{
  Action, opened, closed, migration_db, pool, redis_client, listener, Outside, up_failed, Ending,
  not_listening, early_signal, pinged, ◌>>=◌, ◌>>◌, run, apply_migrations, new_pool, new_client,
  serving, listening,
}

loaded_cases :
    (l : Loaded Config) → ((cfg : Config) × (l ≡ loaded cfg)) ⊎ ((e : ConfigErr) × (l ≡ invalid e))
loaded_cases (loaded cfg) = inl (cfg, refl)
loaded_cases (invalid e) = inr (e, refl)

abbrev pub is_listening : Action → Bool
is_listening (opened listener) = true
is_listening _ = false

-- ListenAndServe came to listen.
abbrev pub has_listened : Ending → Bool
has_listened not_listening = false
has_listened early_signal = false
has_listened _ = true

-- What the start stands on, for a configuration, up to a ListenAndServe that listens.
pub record IsReady (o : Outside) (cfg : Config) : Type 0 where
  pub iofs_new : o.iofs_new ≡ true
  pub sql_open : o.sql_open cfg.database_url ≡ true
  pub with_instance : o.with_instance ≡ true
  pub new_with_instance : o.new_with_instance ≡ true
  pub up : o.up ≢ up_failed
  pub pg_parse : o.pg_parse cfg.database_url ≡ true
  pub pg_open : o.pg_open ≡ true
  pub pg_ping : o.pg_ping ≡ true
  pub redis_parse : o.redis_parse cfg.redis_url ≡ true
  pub redis_ping : o.redis_ping ≡ true
  pub service : new_service o.accepts (service_config cfg) ≡ none
  pub ending : has_listened o.ending ≡ true

loaded-IsReady :
    (o : Outside) (env : Env) (cfg : Config)
    → load env ≡ loaded cfg
    → any is_listening (run o env []).1 ≡ true
    → IsReady o cfg
unfolding run pinged apply_migrations new_pool new_client serving listening ◌>>=◌ ◌>>◌
loaded-IsReady o env cfg l h = record {
  iofs_new = ground (arith, l, h);
  sql_open = ground (arith, l, h);
  with_instance = ground (arith, l, h);
  new_with_instance = ground (arith, l, h);
  up = ground (arith, l, h);
  pg_parse = ground (arith, l, h);
  pg_open = ground (arith, l, h);
  pg_ping = ground (arith, l, h);
  redis_parse = ground (arith, l, h);
  redis_ping = ground (arith, l, h);
  service = ground (arith, l, h);
  ending = ground (arith, l, h);
}

invalid_silent :
    (o : Outside) (env : Env) (e : ConfigErr) → load env ≡ invalid e → (run o env []).1 ≡ []
unfolding run ◌>>=◌ ◌>>◌
invalid_silent o env e l = ground (arith, l)

-- The process listens only after its configuration has loaded, every migration is applied or none
-- was pending, both databases have answered a ping, and the WebAuthn service is built, all with
-- that configuration.
pub run-IsReady :
    (o : Outside) (env : Env)
    → any is_listening (run o env []).1 ≡ true
    → (cfg : Config) × (load env ≡ loaded cfg) × IsReady o cfg
run-IsReady o env h = elim (loaded_cases (load env)) [
  | inl (cfg, l) ↦ (cfg, l, loaded-IsReady o env cfg l h)
  | inr (e, l) ↦ absurd (cc (ap (any is_listening) (invalid_silent o env e l), h))
]

-- When the configuration loads, the migrations are applied or none was pending, both databases
-- answer, the service is built, and ListenAndServe comes to listen before an error or a signal ends
-- the wait, the process opens and closes the migration database, then opens the pool, the Redis
-- client and the listener, and closes them in reverse, whatever ends it.
pub run-actions :
    (o : Outside) (env : Env) (cfg : Config)
    → load env ≡ loaded cfg
    → IsReady o cfg
    → (run o env []).1
      ≡ opened migration_db
        ∷ closed migration_db
        ∷ opened pool
        ∷ opened redis_client
        ∷ opened listener
        ∷ closed listener
        ∷ closed redis_client
        ∷ closed pool
        ∷ []
unfolding run pinged apply_migrations new_pool new_client serving listening ◌>>=◌ ◌>>◌
run-actions o env cfg l ready = ground (
  arith, l, ready.iofs_new, ready.sql_open, ready.with_instance, ready.new_with_instance, ready.up,
  ready.pg_parse, ready.pg_open, ready.pg_ping, ready.redis_parse, ready.redis_ping, ready.service,
  ready.ending,
)
