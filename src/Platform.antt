-- ===== src/Platform.antt =====
-- Everything that the program calls and does not implement, as one parameter, and the state that
-- its operations act on.
pub mod Redis
pub mod Library
use go_passkey_auth.Prelude.{ℕ, suc, Bool, String, Option, List, ◌≡◌, some, ◌+◌, Bytes}
use go_passkey_auth.Domain.{Err, Result, ok, err}
use go_passkey_auth.Store.Tables.{Db}
use Redis.{RedisServer, IsRedis}
use Library.{WebauthnLib}

-- What becomes of a statement that is sent to Postgres: it is carried out and answered, it is not
-- carried out and the call returns an error, or it is carried out and the answer is lost.
pub data PgOutcome : Type 0 where
  answered refused lost : PgOutcome

-- `beginRegisterRequest` and `beginPromoteRequest`
pub record NamesRequest : Type 0 where
  pub username : String
  pub display_name : String

-- `completeRegisterRequest` and `completeLoginRequest`
pub record CompleteRequest : Type 0 where
  pub session_id : String
  pub credential : String

-- `registrationSession`, over the library's `SessionData`
pub record RegistrationSession (S : Type 0) : Type 0 where
  pub session : S
  pub username : String
  pub display_name : String
  pub promote_user_id : ℕ
  pub promote : Bool

-- `loginSession`
pub record LoginSession (S : Type 0) : Type 0 where
  pub session : S

-- A failure of `crypto/rand`, of a statement or of the library shows as `none` or as an outcome.
-- The numbers that index them count the calls, so every pattern of failures is an instance.
pub record Platform : Type 1 where
  pub redis : RedisServer
  pub lib : WebauthnLib
  pub pg_outcome : ℕ → PgOutcome
  -- `gen_random_uuid()` of Postgres and `uuid.New`
  pub new_uuid : ℕ → ℕ
  pub rand_read : ℕ → ℕ → Option Bytes
  pub encode_base64 : Bytes → String
  pub uuid_string : ℕ → String
  pub uuid_parse : String → Option ℕ
  pub uuid_from_bytes : Bytes → Option ℕ
  -- `id[:]`
  pub uuid_bytes : ℕ → Bytes
  -- encoding/json, at each type that the program encodes or decodes
  pub decode_names : String → Option NamesRequest
  pub decode_complete : String → Option CompleteRequest
  pub marshal_session : lib.SessionData → Option String
  pub unmarshal_session : String → Option lib.SessionData
  pub marshal_registration : RegistrationSession lib.SessionData → Option String
  pub unmarshal_registration : String → Option (RegistrationSession lib.SessionData)
  pub marshal_login : LoginSession lib.SessionData → Option String
  pub unmarshal_login : String → Option (LoginSession lib.SessionData)

-- The documented behaviour of google/uuid that the stores rely on.
pub record IsUuid (P : Platform) : Type 0 where
  pub parse_string : (u : ℕ) → P.uuid_parse (P.uuid_string u) ≡ some u
  pub from_bytes : (u : ℕ) → P.uuid_from_bytes (P.uuid_bytes u) ≡ some u
  pub bytes : (b : Bytes) (u : ℕ) → P.uuid_from_bytes b ≡ some u → P.uuid_bytes u ≡ b

-- `http.SameSite`
pub data SameSite : Type 0 where
  lax_mode : SameSite

-- `http.Cookie`, the fields that the program sets
pub record Cookie : Type 0 where
  pub name : String
  pub value : String
  pub path : String
  pub http_only : Bool
  pub secure : Bool
  pub same_site : SameSite
  -- `none` stands for a negative MaxAge, which expires the cookie
  pub max_age : Option ℕ

-- What a handler logs, less the attributes of the line.
pub data LogLine : Type 0 where
  error_line warn_line info_line : String → LogLine

-- The databases, the clock, the number of calls made so far, the Set-Cookie headers of the response
-- under way and the log.
pub record World (P : Platform) : Type 0 where
  pub db : Db
  pub redis : P.redis.State
  pub now : ℕ
  pub calls : ℕ
  pub cookies : List Cookie
  pub log : List LogLine

-- A Go function that may act on the world and returns a value or an error.
abbrev pub Call : Platform → Type 0 → Type 0
Call P A = World P → Result A × World P

module _ {P : Platform} where
  infixl 5 ◌>>=◌ ◌>>◌
  abbrev pub ◌>>=◌ : {A B : Type 0} → Call P A → (A → Call P B) → Call P B
  ◌>>=◌ m f w = let (r, w') = m w in elim r [ ok a ↦ f a w' | err e ↦ (err e, w') ]

  abbrev pub ◌>>◌ : {A B : Type 0} → Call P A → Call P B → Call P B
  m >> k = m >>= λ _. k

  abbrev pub pure : {A : Type 0} → A → Call P A
  pure a w = (ok a, w)

  abbrev pub raise : {A : Type 0} → Err → Call P A
  raise e w = (err e, w)

  -- The next number of a call.
  abbrev pub counted : World P → World P
  counted w = record w { calls = suc w.calls }
