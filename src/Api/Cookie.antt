-- ===== src/Api/Cookie.antt =====
-- internal/api/handler/cookie.go: the two cookies.
use go_passkey_auth.Prelude.{
  ℕ, Bool, true, String, Option, none, some, [], ◌∷◌, ◌++◌, ◌==◌, string_eq, ◌||◌, if◌then◌else◌,
}
use go_passkey_auth.Platform.{Platform, World, Cookie, lax_mode}
use go_passkey_auth.Api.Http.{Request}

abbrev pub session_cookie_name : String
session_cookie_name = "passkey_session"

abbrev pub guest_cookie_name : String
guest_cookie_name = "passkey_guest"

unfoldable pub is_https : Request → Bool
is_https r = r.tls || r.header "X-Forwarded-Proto" == "https"

-- The attributes that all four writers share.
abbrev pub cookie_of : Request → String → String → Option ℕ → Cookie
cookie_of r name value max_age = record {
  name = name;
  value = value;
  path = "/";
  http_only = true;
  secure = is_https r;
  same_site = lax_mode;
  max_age = max_age;
}

-- The value of a cookie that is present and not empty.
abbrev pub non_empty : Option String → Option String
non_empty none = none
non_empty (some v) = if v == "" then none else some v

-- A client that sends a cookie back.
abbrev pub with_cookie : String → String → Request → Request
with_cookie name value r = record r { cookie = λ n. if n == name then some value else r.cookie n }

module _ {P : Platform} where
  -- `http.SetCookie`
  abbrev pub set_cookie : Cookie → World P → World P
  set_cookie c w = record w { cookies = w.cookies ++ c ∷ [] }

  abbrev pub set_session_cookie : Request → String → ℕ → World P → World P
  set_session_cookie r token max_age =
      set_cookie (cookie_of r session_cookie_name token (some max_age))

  abbrev pub clear_session_cookie : Request → World P → World P
  clear_session_cookie r = set_cookie (cookie_of r session_cookie_name "" none)

  abbrev pub set_guest_cookie : Request → String → ℕ → World P → World P
  set_guest_cookie r token max_age = set_cookie (cookie_of r guest_cookie_name token (some max_age))

  abbrev pub clear_guest_cookie : Request → World P → World P
  clear_guest_cookie r = set_cookie (cookie_of r guest_cookie_name "" none)
