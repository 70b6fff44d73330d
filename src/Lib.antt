-- ===== src/Lib.antt =====
-- go-passkey-auth: a passkey (WebAuthn) authentication server, module by module.
--
-- The server answers the routes of internal/api/router.go. A handler (internal/api/handler)
-- reads a request, calls the WebAuthn service (internal/webauthn), the Postgres stores
-- (internal/store/postgres) and the Redis stores (internal/store/redis), and writes a JSON
-- response, cookies and log lines. A ceremony is two requests: /begin saves a challenge session
-- in Redis under a random id, /complete takes it, once, and acts on it. RequireSession
-- (internal/api/middleware) puts the user of a session cookie in front of the handlers under
-- /users/me.
--
-- Where each part stands:
--   * Domain: internal/domain, the entities and the sentinel errors.
--   * Config: internal/config and the checks of internal/webauthn/options.go.
--   * Store.Tables and Store.Postgres: the two tables of migrations/000001_init.up.sql and the
--     statements of user.go and credential.go, one function on the tables for each statement and
--     one call for each method. SoftDelete is its transaction, call by call.
--   * Store.Redis: newToken, ChallengeStore, SessionStore and GuestStore. Store.Redis.Spec and
--     Refinement set the challenge store against a map from session ids to payloads with
--     deadlines.
--   * Platform: what the program calls and does not implement (Redis, go-webauthn, crypto/rand,
--     google/uuid, encoding/json, and whether Postgres answers), as one record of functions, and
--     the state that the program acts on. The laws of Redis and of google/uuid that a result
--     relies on are IsRedis and IsUuid.
--   * Webauthn: internal/webauthn/attestation.go, service.go and user.go.
--   * Api.Http: response.go, and handlers as state passing with an early return. Api.Cookie:
--     cookie.go. Api.Auth: the eight endpoints of auth.go, where Ceremony holds the steps that
--     the register and promote handlers repeat. Api.Users: user.go. Api.Health: health.go.
--     Api.Middleware and Api.RequestLog: session.go and logger.go. Api.Router: the routes and
--     histories of requests.
--   * Store.Postgres.Consistent, LastCredential and Race: the integrity of the tables, and
--     SoftDelete alone and against another SoftDelete. Store.Postgres.Effects: what a statement
--     that succeeds has changed. Api.Login, Authentic, Verified, Registered, Promoted, Ownership
--     and Guarded: what a success of CompleteLogin, of the shared part of CompleteRegister and
--     CompletePromote, of the two, of DeleteCredential and of RequireSession stands on.
--     Api.Gone: a Redis key that is gone, over a history of requests. Api.Replay: a challenge
--     that was taken. Api.LoggedOut: a session that was logged out. Api.Journey: a registration
--     and a login, each from /begin to /complete. Api.Tokens, GuestRun, SignedIn and Reused: the
--     session of a login and the token of a guest, sent back in their cookies. Api.Held and
--     Begun: the session that a /begin leaves. Api.Orphaned: CompleteRegister when the
--     credential is refused. Api.Foreign: DeleteCredential of a credential of somebody else.
--     Api.Decided: DeleteCredential against a reference. Api.Readiness: Ready by its two pings.
--     Api.Listed: the order and the content of a listing.
--   * Server: cmd/server/main.go with NewPool (internal/store/postgres/postgres.go) and
--     NewClient (internal/store/redis/redis.go), over the outcomes of the calls outside, with
--     what is opened and closed in order, and the lifetimes that run hands out.
--   * Webauthntest: internal/testutil/webauthntest, the software authenticator of the
--     integration tests, over CBOR, JSON, base64, SHA-256 and ECDSA as parameters.
--     Webauthntest.Reader reads authenticator data by the layout that the source describes.
--   * Api.Kept and Api.Tables: proofs that what every call of an endpoint keeps, the endpoint
--     keeps. Tests: a concrete platform and runs on it.
--
-- How the code is read. A request is served as a whole and the next follows, unless a module
-- says otherwise. A call of Postgres is answered, refused without effect, or carried out with
-- its answer lost; every call has a number, and a function of it says which, so that each
-- pattern of failures is an instance. Calls of the random source and the library fail in the
-- same way. Times are in nanoseconds on one clock, and a lifetime in Redis ends at its
-- nanosecond, where go-redis sends it in milliseconds. Nothing loops on fuel: the loops of the
-- code go over lists.
--
-- Not modelled: JSON text, the HTTP server, path matching, timeouts and panic recovery (chi),
-- the log lines of cmd/server, the attributes of the handlers' log lines, and the demo page.
pub mod Prelude
pub mod Domain
pub mod Store
pub mod Platform
pub mod Webauthn
pub mod Api
pub mod Config
pub mod Tests
pub mod Webauthntest
pub mod Server
