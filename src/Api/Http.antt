-- ===== src/Api/Http.antt =====
-- internal/api/handler/response.go, and what a handler is: it reads a request, acts on the world
-- and returns early with a response, or goes on.
pub mod Ensures
pub mod Stable
pub mod Success
pub mod Forward
use go_passkey_auth.Prelude.{
  ℕ, Bool, true, false, String, Option, none, some, List, [], ◌∷◌, ◌++◌, ◌==◌, string_eq,
  if◌then◌else◌,
}
use go_passkey_auth.Domain.{ok, err, Err}
use go_passkey_auth.Platform.{Platform, World, Call, LogLine, error_line}
use go_passkey_auth.Platform.Library.{WebauthnLib}

-- What a handler reads of `*http.Request`.
pub record Request : Type 0 where
  -- the value of the first cookie of a name
  pub cookie : String → Option String
  -- `r.TLS != nil`
  pub tls : Bool
  pub header : String → String
  pub body : String
  -- `chi.URLParam(r, "id")`
  pub id_param : String
  -- the user id that the session middleware puts into the context
  pub context_user : Option ℕ

pub record CredentialResponse : Type 0 where
  pub id : String
  pub name : Option String
  pub aaguid : Option String
  pub transports : List String
  pub backup_eligible : Bool
  pub backup_state : Bool
  pub created_at : ℕ
  pub last_used_at : Option ℕ

-- The values that handlers hand to `writeJSON`, before their encoding.
pub data Body (L : WebauthnLib) : Type 0 where
  no_body : Body L
  -- code and message
  error_body : String → String → Body L
  creation_options : L.CreationOptions → String → Body L
  assertion_options : L.RequestOptions → String → Body L
  -- `completeRegisterResponse`: the user id and the credential id
  registered : String → String → Body L
  -- `completeLoginResponse`: the user id, the username and the display name
  logged_in : String → String → String → Body L
  guest_user : String → Body L
  -- `meResponse`
  profile : String → String → String → Bool → Body L
  credential_list : List CredentialResponse → Body L
  liveness : String → Body L
  -- `readyResponse`: the status, then those of Postgres and Redis
  readiness : String → Option String → Option String → Body L

pub record Response (L : WebauthnLib) : Type 0 where
  pub status : ℕ
  pub body : Body L

abbrev pub code_messages : List (String × String)
code_messages =
    ("invalid_request", "Request body could not be parsed.")
    ∷ ("missing_fields", "One or more required fields are missing.")
    ∷ ("username_taken", "That username is already registered.")
    ∷ ("credential_exists", "That credential is already registered.")
    ∷ ("session_invalid", "Registration session is invalid or has expired. Please start over.")
    ∷ ("attestation_rejected", "Authenticator returned an attestation format we do not accept.")
    ∷ ("unauthorized", "Authentication required.")
    ∷ ("not_found", "Resource not found.")
    ∷ ("last_credential", "Cannot delete the last passkey. Register another one first.")
    ∷ ("guest_invalid", "Guest session is invalid or has expired.")
    ∷ ("not_a_guest", "This account has already been registered.")
    ∷ ("internal_error", "Internal server error.")
    ∷ []

abbrev pub message_of : String → List (String × String) → Option String
message_of code [] = none
message_of code ((k, m) ∷ rest) = if k == code then some m else message_of code rest

-- How far a handler has come.
pub data Step (P : Platform) (A : Type 0) : Type 0 where
  next : A → Step P A
  respond : Response P.lib → Step P A

abbrev pub Handler : Platform → Type 0 → Type 0
Handler P A = World P → Step P A × World P

module _ {P : Platform} where
  infixl 5 ◌>>=◌ ◌>>◌
  unfoldable pub ◌>>=◌ : {A B : Type 0} → Handler P A → (A → Handler P B) → Handler P B
  ◌>>=◌ m f w = let (s, w') = m w in elim s [ next a ↦ f a w' | respond r ↦ (respond r, w') ]

  unfoldable pub ◌>>◌ : {A B : Type 0} → Handler P A → Handler P B → Handler P B
  unfolding ◌>>=◌
  m >> k = m >>= λ _. k

  abbrev pub logged : LogLine → World P → World P
  logged line w = record w { log = w.log ++ line ∷ [] }

  unfoldable pub write_json : {A : Type 0} → ℕ → Body P.lib → Handler P A
  write_json status body w = (respond (record { status = status; body = body }), w)

  -- An unknown code falls back to a 500 and is logged.
  unfoldable pub write_error : {A : Type 0} → ℕ → String → Handler P A
  unfolding write_json
  write_error status code w = elim (message_of code code_messages) [
    | some message ↦ write_json status (error_body code message) w
    | none ↦
        write_json 500 (error_body "internal_error" "Internal server error.")
          (logged (error_line "writeError called with unknown code") w)
  ]

  -- Log a line, then write an error.
  unfoldable pub log_error : {A : Type 0} → LogLine → ℕ → String → Handler P A
  log_error line status code w = write_error status code (logged line w)

  unfoldable pub internal_error : {A : Type 0} → String → Handler P A
  internal_error line = log_error (error_line line) 500 "internal_error"

  unfoldable pub refuse_if : Bool → ℕ → String → Handler P (Unit {0})
  refuse_if true status code = write_error status code
  refuse_if false status code = λ w. (next tt, w)

  -- The early return on a value that is missing.
  unfoldable pub or_else : {A : Type 0} → Option A → Handler P A → Handler P A
  or_else none failed = failed
  or_else (some a) failed = λ w. (next a, w)

  -- A store's call, and what the handler does with its error.
  unfoldable pub attempt : {A : Type 0} → Call P A → (Err → Handler P A) → Handler P A
  attempt call on_error w =
      let (r, w') = call w in elim r [ ok a ↦ (next a, w') | err e ↦ on_error e w' ]

  -- A call whose error carries nothing.
  unfoldable pub obtain : {A : Type 0} → (World P → Option A × World P) → Handler P A → Handler P A
  obtain call failed w = let (o, w') = call w in or_else o failed w'

  unfoldable pub gets : {A : Type 0} → (World P → A) → Handler P A
  gets f w = (next (f w), w)

  -- A call that cannot fail.
  unfoldable pub gets_call : {A : Type 0} → (World P → A × World P) → Handler P A
  gets_call call w = let (a, w') = call w in (next a, w')

  unfoldable pub modify : (World P → World P) → Handler P (Unit {0})
  modify f w = (next tt, f w)

  -- A handler that cannot go on has responded.
  abbrev pub outcome : Step P ⊥ → Response P.lib
  outcome (next a) = absurd a
  outcome (respond r) = r

-- To compute with a handler, open what its steps are made of.
unfoldable pub steps : Unit {0}
unfolding ◌>>=◌ ◌>>◌ write_json write_error log_error internal_error refuse_if or_else attempt
    obtain gets gets_call modify
steps = tt
