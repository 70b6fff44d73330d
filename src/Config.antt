-- ===== src/Config.antt =====
-- internal/config/config.go, and the checks of internal/webauthn/options.go on what it yields.
--
-- The environment, `time.ParseDuration`, `strings.Split` and `strings.TrimSpace` are parameters. A
-- duration is a signed number of nanoseconds; one that has passed the test `d > 0` is a ℕ.
pub mod Laws
use go_passkey_auth.Prelude.{
  ℕ, zero, suc, Bool, String, Option, none, some, List, [], ◌∷◌, ◌==◌, string_eq, if◌then◌else◌,
}

pub data ConfigErr : Type 0 where
  missing_http_addr missing_database_url missing_redis_url missing_rp_id : ConfigErr
  missing_rp_display_name missing_rp_origins invalid_session_ttl invalid_challenge_ttl : ConfigErr
  invalid_guest_ttl : ConfigErr

pub record Config : Type 0 where
  pub http_addr : String
  pub database_url : String
  pub redis_url : String
  pub rp_id : String
  pub rp_display_name : String
  pub rp_origins : List String
  pub session_ttl : ℕ
  pub challenge_ttl : ℕ
  pub guest_ttl : ℕ

pub data Loaded (A : Type 0) : Type 0 where
  loaded : A → Loaded A
  invalid : ConfigErr → Loaded A

-- A `time.Duration`: `negsuc n` is -(n + 1).
pub data Duration : Type 0 where
  pos negsuc : ℕ → Duration

-- What the loader calls outside the program.
pub record Env : Type 0 where
  pub getenv : String → String
  pub parse_duration : String → Option Duration
  pub split : String → String → List String
  pub trim_space : String → String

infixl 5 ◌>>=◌
abbrev pub ◌>>=◌ : {A B : Type 0} → Loaded A → (A → Loaded B) → Loaded B
loaded a >>= f = f a
invalid e >>= f = invalid e

abbrev positive_or : ConfigErr → Option Duration → Loaded ℕ
positive_or sentinel none = invalid sentinel
positive_or sentinel (some (negsuc _)) = invalid sentinel
positive_or sentinel (some (pos zero)) = invalid sentinel
positive_or sentinel (some (pos (suc n))) = loaded (suc n)

-- `parseDuration`
unfoldable pub parse_ttl : Env → String → ConfigErr → Loaded ℕ
parse_ttl env raw sentinel =
    if raw == "" then invalid sentinel else positive_or sentinel (env.parse_duration raw)

-- The loop of `splitAndTrim`.
unfoldable pub trim_all : Env → List String → List String
trim_all env [] = []
trim_all env (p ∷ ps) =
    let rest = trim_all env ps in if env.trim_space p == "" then rest else env.trim_space p ∷ rest

unfoldable pub split_and_trim : Env → String → String → List String
unfolding trim_all
split_and_trim env s sep = if s == "" then [] else trim_all env (env.split s sep)

abbrev is_empty : List String → Bool
is_empty [] = Bool.true
is_empty (_ ∷ _) = Bool.false

-- `Config.validate`
unfoldable pub validate : Config → Loaded Config
validate c =
    if c.http_addr == ""
    then invalid missing_http_addr
    else if c.database_url == ""
    then invalid missing_database_url
    else if c.redis_url == ""
    then invalid missing_redis_url
    else if c.rp_id == ""
    then invalid missing_rp_id
    else if c.rp_display_name == ""
    then invalid missing_rp_display_name
    else if is_empty c.rp_origins
    then invalid missing_rp_origins
    else loaded c

-- The configuration that `Load` puts together, given the three lifetimes.
abbrev pub config_of : Env → ℕ → ℕ → ℕ → Config
config_of env session_ttl challenge_ttl guest_ttl = record {
  http_addr = env.getenv "HTTP_ADDR";
  database_url = env.getenv "DATABASE_URL";
  redis_url = env.getenv "REDIS_URL";
  rp_id = env.getenv "RP_ID";
  rp_display_name = env.getenv "RP_DISPLAY_NAME";
  rp_origins = split_and_trim env (env.getenv "RP_ORIGINS") ",";
  session_ttl = session_ttl;
  challenge_ttl = challenge_ttl;
  guest_ttl = guest_ttl;
}

unfoldable pub load : Env → Loaded Config
unfolding parse_ttl validate
load env = do
  session_ttl ← parse_ttl env (env.getenv "SESSION_TTL") invalid_session_ttl
  challenge_ttl ← parse_ttl env (env.getenv "CHALLENGE_TTL") invalid_challenge_ttl
  guest_ttl ← parse_ttl env (env.getenv "GUEST_TTL") invalid_guest_ttl
  validate (config_of env session_ttl challenge_ttl guest_ttl)

-- `NewService` of internal/webauthn: the tests on its `Config`, whose fields `run` of cmd/server
-- fills from the loaded configuration. The library's own constructor may refuse too.
pub data ServiceConfigErr : Type 0 where
  config_missing_rp_id config_missing_rp_display_name config_missing_rp_origins : ServiceConfigErr
  config_invalid_timeout library_refused : ServiceConfigErr

pub record ServiceConfig : Type 0 where
  pub rp_id : String
  pub rp_display_name : String
  pub rp_origins : List String
  pub ceremony_timeout : Duration

abbrev is_positive : Duration → Bool
is_positive (pos (suc _)) = Bool.true
is_positive _ = Bool.false

-- `none` for a service; `accepts` is the verdict of `gowebauthn.New`.
unfoldable pub new_service : (ServiceConfig → Bool) → ServiceConfig → Option ServiceConfigErr
new_service accepts c =
    if c.rp_id == ""
    then some config_missing_rp_id
    else if c.rp_display_name == ""
    then some config_missing_rp_display_name
    else if is_empty c.rp_origins
    then some config_missing_rp_origins
    else if is_positive c.ceremony_timeout
    then (if accepts c then none else some library_refused)
    else some config_invalid_timeout

-- The call of `NewService` in `run`.
abbrev pub service_config : Config → ServiceConfig
service_config c = record {
  rp_id = c.rp_id;
  rp_display_name = c.rp_display_name;
  rp_origins = c.rp_origins;
  ceremony_timeout = pos c.challenge_ttl;
}
