-- ===== src/Api/Middleware.antt =====
-- internal/api/middleware: the session check in front of /users/me, and what the request logger
-- decides. `writeUnauthorized` and `writeInternalError` send the bodies that the handlers' table of
-- messages gives for these codes.
use go_passkey_auth.Prelude.{ℕ, Bool, ◌||◌, String, some, ◌==◌, string_eq, if◌then◌else◌, leb}
use go_passkey_auth.Domain.{Err, session_not_found}
use go_passkey_auth.Platform.{Platform, LogLine, error_line, warn_line, info_line}
use go_passkey_auth.Store.Redis.Session as SessionStore
use go_passkey_auth.Api.Http.{
  Request, Handler, ◌>>=◌, write_json, error_body, attempt, logged, or_else,
}
use go_passkey_auth.Api.Cookie.{session_cookie_name, non_empty}

-- `http.Request.WithContext`, with the user id put in
abbrev pub with_user : ℕ → Request → Request
with_user id r = record r { context_user = some id }

-- `skipLogging`
unfoldable pub skip_logging : String → Bool
skip_logging path = path == "/health" || path == "/health/ready"

-- The level of the line that `RequestLogger` writes about a response of this status.
abbrev pub line_of_status : ℕ → String → LogLine
line_of_status status message =
    if leb 500 status
    then error_line message
    else if leb 400 status
    then warn_line message
    else info_line message

module _ {P : Platform} where
  unfoldable pub write_unauthorized : {A : Type 0} → Handler P A
  write_unauthorized = write_json 401 (error_body "unauthorized" "Authentication required.")

  unfoldable pub write_internal_error : {A : Type 0} → Handler P A
  write_internal_error = write_json 500 (error_body "internal_error" "Internal server error.")

  unfoldable pub lookup_error : {A : Type 0} → Err → Handler P A
  lookup_error session_not_found = write_unauthorized
  lookup_error _ = λ w. write_internal_error (logged (error_line "session lookup") w)

  unfoldable pub require_session : (Request → Handler P ⊥) → Request → Handler P ⊥
  require_session inner r = do
    token ← or_else (non_empty (r.cookie session_cookie_name)) write_unauthorized
    user_id ← attempt (SessionStore.get token) lookup_error
    inner (with_user user_id r)
