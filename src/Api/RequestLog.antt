-- ===== src/Api/RequestLog.antt =====
-- internal/api/middleware/logger.go: the line about a request and its attributes.
use go_passkey_auth.Prelude.{
  ℕ, Bool, false, String, ap, ◌∙◌, if◌then◌else◌, Option, none, some, List, [], ◌∷◌, ◌++◌, ◌≡◌,
  refl, any, ◌==◌, string_eq, is_some,
}
use go_passkey_auth.Domain.{ok}
use go_passkey_auth.Platform.{Platform, World}
use go_passkey_auth.Store.Redis.Session as SessionStore
use go_passkey_auth.Api.Http.{Request, Response, Handler, outcome, logged}
use go_passkey_auth.Api.Http.Success.{Succeeds}
use go_passkey_auth.Api.Cookie.{session_cookie_name, non_empty}
use go_passkey_auth.Api.Middleware.{require_session, with_user, skip_logging, line_of_status}
use go_passkey_auth.Api.Guarded.{require_session-resolved}

-- A value of the list of keys and values.
pub data AttrValue : Type 0 where
  text : String → AttrValue
  number : ℕ → AttrValue

-- What the logger reads beside the request's context and the response's status: of the request, of
-- the wrapped writer, the clock and the request id.
pub record Served : Type 0 where
  pub method : String
  pub path : String
  pub bytes_written : ℕ
  pub duration_ms : ℕ
  pub remote_addr : String
  pub request_id : String

-- `key, _ := kv[i].(string)`
abbrev pub key_of : AttrValue → String
key_of (text s) = s
key_of (number _) = ""

-- The loop of `toAttrs`: a key without a value is dropped.
unfoldable pub to_attrs : List AttrValue → List (String × AttrValue)
to_attrs [] = []
to_attrs (k ∷ []) = []
to_attrs (k ∷ v ∷ rest) = (key_of k, v) ∷ to_attrs rest

-- `UserIDFromContext`, as two more entries
abbrev pub user_entries : Platform → Option ℕ → List AttrValue
user_entries P none = []
user_entries P (some id) = text "user_id" ∷ text (P.uuid_string id) ∷ []

abbrev base_attrs : Served → ℕ → List AttrValue
base_attrs s status =
    text "method"
    ∷ text s.method
    ∷ text "path"
    ∷ text s.path
    ∷ text "status"
    ∷ number status
    ∷ text "bytes"
    ∷ number s.bytes_written
    ∷ text "duration_ms"
    ∷ number s.duration_ms
    ∷ text "remote_ip"
    ∷ text s.remote_addr
    ∷ text "request_id"
    ∷ text s.request_id
    ∷ []

-- The attributes that `RequestLogger` writes about the request that it was given.
unfoldable pub request_attrs : Platform → Request → Served → ℕ → List (String × AttrValue)
unfolding to_attrs
request_attrs P r s status = to_attrs (base_attrs s status ++ user_entries P r.context_user)

-- The response, and the attributes of the line if there is one.
pub record Traced (P : Platform) : Type 0 where
  pub response : Response P.lib
  pub attrs : Option (List (String × AttrValue))

-- Whether the line names a user.
abbrev pub has_user_id : List (String × AttrValue) → Bool
has_user_id attrs = any (λ a. a.0 == "user_id") attrs

request_attrs-user_id :
    (P : Platform) (r : Request) (s : Served) (status : ℕ)
    → has_user_id (request_attrs P r s status) ≡ is_some r.context_user
unfolding request_attrs to_attrs
request_attrs-user_id P r s status = go r.context_user
  where
    go :
        (o : Option ℕ)
        → has_user_id (to_attrs (base_attrs s status ++ user_entries P o)) ≡ is_some o
    go none = refl
    go (some id) = refl

module _ {P : Platform} where
  -- `RequestLogger`: the line follows the handler behind, which gets the same request, and health
  -- probes get none.
  unfoldable pub request_logger :
      Served → (Request → Handler P ⊥) → Request → World P → Traced P × World P
  unfolding skip_logging request_attrs
  request_logger s inner r w =
      let (step, w') = inner r w in
      let answer = outcome step in
      if skip_logging s.path then (record { response = answer; attrs = none }, w') else (
        record { response = answer; attrs = some (request_attrs P r s answer.status) },
        logged (line_of_status answer.status "http request") w',
      )

  -- A request that comes in without a user in its context, on another path than a health probe's,
  -- and that gets a response without an error from behind the session check, is answered by the
  -- handler behind it on the request with the id of the session's user, and is logged with
  -- attributes of which none is a user_id.
  pub request_logger-require_session :
      (s : Served) (inner : Request → Handler P ⊥) (r : Request) (w : World P)
      → r.context_user ≡ none
      → skip_logging s.path ≡ false
      → Succeeds (require_session inner r w).0
      → let traced = (request_logger s (require_session inner) r w).0 in
        (token : String) × (user_id : ℕ) × (attrs : List (String × AttrValue)) × (non_empty
            (r.cookie session_cookie_name)
          ≡ some token)
        × ((SessionStore.get token w).0 ≡ ok user_id)
        × (traced.response ≡ outcome (inner (with_user user_id r) (SessionStore.get token w).1).0)
        × (traced.attrs ≡ some attrs)
        × (has_user_id attrs ≡ false)
  unfolding request_logger
  request_logger-require_session s inner r w no_user shown h =
      let (token, user_id, carried, resolved, behind) = require_session-resolved inner r w h in
      let attrs = request_attrs P r s (outcome (require_session inner r w).0).status in
      (
        token,
        user_id,
        attrs,
        carried,
        resolved,
        rw shown (ap outcome behind),
        rw shown refl,
        request_attrs-user_id P r s (outcome (require_session inner r w).0).status
            ∙ ap is_some no_user,
      )
