-- ===== src/Server.antt =====
-- cmd/server/main.go, NewPool of internal/store/postgres/postgres.go and NewClient of
-- internal/store/redis/redis.go: the start and the end of the process. What is opened and closed is
-- recorded in order.
pub mod Held
pub mod Released
pub mod Lifetimes
pub mod Start
use go_passkey_auth.Prelude.{
  ℕ, ◌/◌, Bool, true, false, String, Option, none, some, List, [], ◌∷◌, ◌++◌, if◌then◌else◌,
}
use go_passkey_auth.Config.{
  Config, ConfigErr, Env, Loaded, loaded, invalid, load, ServiceConfig, ServiceConfigErr,
  new_service, service_config,
}
use go_passkey_auth.Api.Auth.Deps.{Deps}

-- What the process holds and gives back. The listener is that of ListenAndServe.
pub data Resource : Type 0 where
  migration_db pool redis_client listener : Resource

pub data Action : Type 0 where
  opened closed : Resource → Action

-- The error that `run` returns, by the call that it comes from.
pub data Failure : Type 0 where
  config_error : ConfigErr → Failure
  iofs_error sql_open_error driver_error migrate_error up_error : Failure
  pg_parse_error pg_open_error pg_ping_error redis_parse_error redis_ping_error : Failure
  service_error : ServiceConfigErr → Failure
  listen_error shutdown_error : Failure

-- `mig.Up`
pub data UpOutcome : Type 0 where
  migrated no_change up_failed : UpOutcome

-- What the select of `run` receives: ListenAndServe failed before it listened or later, it returned
-- `http.ErrServerClosed`, or a signal came, before ListenAndServe listened or later.
pub data Ending : Type 0 where
  not_listening accept_failed server_closed early_signal stop_signal : Ending

-- The outcomes of the calls outside the program; `true` is no error.
pub record Outside : Type 0 where
  pub iofs_new : Bool
  pub sql_open : String → Bool
  pub with_instance : Bool
  pub new_with_instance : Bool
  pub up : UpOutcome
  pub pg_parse : String → Bool
  pub pg_open : Bool
  pub pg_ping : Bool
  pub redis_parse : String → Bool
  pub redis_ping : Bool
  pub accepts : ServiceConfig → Bool
  pub ending : Ending
  pub shutdown : Bool

pub data Outcome (A : Type 0) : Type 0 where
  done : A → Outcome A
  failed : Failure → Outcome A

-- A part of the start, over what was opened and closed so far.
abbrev pub Proc : Type 0 → Type 0
Proc A = List Action → Outcome A × List Action

infixl 5 ◌>>=◌ ◌>>◌
unfoldable pub ◌>>=◌ : {A B : Type 0} → Proc A → (A → Proc B) → Proc B
(m >>= f) t = let (x, t') = m t in elim x [ done a ↦ f a t' | failed e ↦ (failed e, t') ]

unfoldable pub ◌>>◌ : {A B : Type 0} → Proc A → Proc B → Proc B
unfolding ◌>>=◌
m >> k = m >>= λ _. k

abbrev pub finish : {A : Type 0} → A → Proc A
finish a t = (done a, t)

abbrev pub fail : {A : Type 0} → Failure → Proc A
fail e t = (failed e, t)

-- `if err != nil { return err }`
abbrev pub need : Bool → Failure → Proc (Unit {0})
need true e = finish tt
need false e = fail e

abbrev pub perform : Action → Proc (Unit {0})
perform a t = (done tt, t ++ a ∷ [])

-- `defer`: the resource is closed when the rest has returned.
abbrev pub deferred : {A : Type 0} → Resource → Proc A → Proc A
deferred r body t = let (x, t') = body t in (x, t' ++ closed r ∷ [])

-- After a ping: a resource that does not answer is closed at once.
unfoldable pub pinged : Resource → Bool → Failure → Proc (Unit {0})
unfolding ◌>>◌
pinged r true e = finish tt
pinged r false e = perform (closed r) >> fail e

abbrev pub migrating : UpOutcome → Proc (Unit {0})
migrating up_failed = fail up_error
migrating _ = finish tt

abbrev pub loading : Loaded Config → Proc Config
loading (loaded c) = finish c
loading (invalid e) = fail (config_error e)

abbrev pub built : Option ServiceConfigErr → Proc (Unit {0})
built none = finish tt
built (some e) = fail (service_error e)

-- The end of `run`: the listener closes by itself on an error, and by Shutdown otherwise.
unfoldable pub listening : Proc (Unit {0})
unfolding ◌>>◌
listening = perform (opened listener) >> perform (closed listener)

module _ (o : Outside) where
  unfoldable pub apply_migrations : String → Proc (Unit {0})
  unfolding ◌>>◌
  apply_migrations dsn = do
    need o.iofs_new iofs_error
    need (o.sql_open dsn) sql_open_error
    perform (opened migration_db)
    deferred migration_db (
        need o.with_instance driver_error
        >> need o.new_with_instance migrate_error
        >> migrating o.up)

  -- `NewPool`, which closes the pool again when the ping fails
  unfoldable pub new_pool : String → Proc (Unit {0})
  unfolding ◌>>◌ pinged
  new_pool url = do
    need (o.pg_parse url) pg_parse_error
    need o.pg_open pg_open_error
    perform (opened pool)
    pinged pool o.pg_ping pg_ping_error

  -- `NewClient`
  unfoldable pub new_client : String → Proc (Unit {0})
  unfolding ◌>>◌ pinged
  new_client url = do
    need (o.redis_parse url) redis_parse_error
    perform (opened redis_client)
    pinged redis_client o.redis_ping redis_ping_error

  unfoldable pub serving : Ending → Proc (Unit {0})
  unfolding ◌>>◌ listening
  serving not_listening = fail listen_error
  serving accept_failed = listening >> fail listen_error
  serving server_closed = listening >> need o.shutdown shutdown_error
  serving early_signal = need o.shutdown shutdown_error
  serving stop_signal = listening >> need o.shutdown shutdown_error

  unfoldable pub run : Env → Proc (Unit {0})
  unfolding ◌>>=◌ ◌>>◌ apply_migrations new_pool new_client serving
  run env = do
    cfg ← loading (load env)
    apply_migrations cfg.database_url
    new_pool cfg.database_url
    deferred pool (do
      new_client cfg.redis_url
      deferred redis_client
          (do built (new_service o.accepts (service_config cfg)); serving o.ending))

  -- `main`: the exit status of the process.
  abbrev pub exit_status : Env → ℕ
  exit_status env = elim (run env []).0 [ done _ ↦ 0 | failed _ ↦ 1 ]

-- `int(d.Seconds())` of a positive duration: its whole seconds. (Seconds is a float64, which is exact
-- enough for that up to 2^22 seconds, and at any number of whole seconds up to 2^53.)
abbrev pub whole_seconds : ℕ → ℕ
whole_seconds ns = ns / 1_000_000_000

-- The lifetimes that `run` gives to the stores and to NewAuth.
abbrev pub deps_of : Config → Deps
deps_of cfg = record {
  challenge_ttl = cfg.challenge_ttl;
  session_ttl = cfg.session_ttl;
  guest_ttl = cfg.guest_ttl;
  session_max_age = whole_seconds cfg.session_ttl;
  guest_max_age = whole_seconds cfg.guest_ttl;
}
