-- ===== src/Api/Http/Stable.antt =====
-- internal/api/handler/response.go: the responses of the table of codes.
use go_passkey_auth.Prelude.{
  ℕ, Bool, true, false, String, Option, none, some, ◌≡◌, refl, List, [], ◌∷◌, ◌==◌, string_eq,
  if◌then◌else◌,
}
use go_passkey_auth.Platform.{Platform, World, LogLine}
use go_passkey_auth.Api.Http.{
  Body, Response, write_json, write_error, log_error, internal_error, refuse_if, logged,
  code_messages, message_of, error_body, no_body,
}
use go_passkey_auth.Platform.{error_line}
use go_passkey_auth.Platform.Library.{WebauthnLib}
use go_passkey_auth.Api.Http.Ensures.{Ensures, IgnoresLog}

-- The status that goes with each code.
abbrev pub code_statuses : List (String × ℕ)
code_statuses =
    ("invalid_request", 400)
    ∷ ("missing_fields", 400)
    ∷ ("username_taken", 409)
    ∷ ("credential_exists", 409)
    ∷ ("session_invalid", 401)
    ∷ ("attestation_rejected", 400)
    ∷ ("unauthorized", 401)
    ∷ ("not_found", 404)
    ∷ ("last_credential", 409)
    ∷ ("guest_invalid", 401)
    ∷ ("not_a_guest", 409)
    ∷ ("internal_error", 500)
    ∷ []

abbrev pub lookup : {V : Type 0} → String → List (String × V) → Option V
lookup code [] = none
lookup code ((k, v) ∷ rest) = if k == code then some v else lookup code rest

abbrev IsStableBody : {L : WebauthnLib} → Body L → ℕ → Type 0
IsStableBody (error_body code message) status =
    (message_of code code_messages ≡ some message) × (lookup code code_statuses ≡ some status)
IsStableBody no_body status = status ≡ 204
IsStableBody _ status = status ≡ 200

-- An error response is a code of the table, with the code's message and status; any other response
-- is a 200 with a body or a 204 with none.
abbrev pub IsStable : {L : WebauthnLib} → Response L → Type 0
IsStable r = IsStableBody r.body r.status

abbrev pub text_of : String → String
text_of code = elim (message_of code code_messages) [ none ↦ "" | some message ↦ message ]

-- What keeps `Q` may log, and an error that it ends in is of the table.
module _ {P : Platform} {Q : World P → Type 0} (quiet : IgnoresLog Q) where
  pub Ensures-write_error :
      {A : Type 0} (status : ℕ) (code : String)
      → message_of code code_messages ≡ some (text_of code)
      → lookup code code_statuses ≡ some status
      → Ensures {A = A} Q IsStable (write_error status code)
  unfolding write_error write_json
  Ensures-write_error status code known right = record {
    at = λ w q. rw (known, write_error) (q, (known, right));
  }

  pub Ensures-log_error :
      {A : Type 0} (line : LogLine) (status : ℕ) (code : String)
      → message_of code code_messages ≡ some (text_of code)
      → lookup code code_statuses ≡ some status
      → Ensures {A = A} Q IsStable (log_error line status code)
  unfolding log_error
  Ensures-log_error line status code known right = record {
    at = λ w q.
        (Ensures-write_error status code known right).at (logged line w) (quiet.at (line ∷ []) w q);
  }

  pub Ensures-internal_error :
      {A : Type 0} (line : String) → Ensures {A = A} Q IsStable (internal_error line)
  unfolding internal_error
  Ensures-internal_error line = Ensures-log_error (error_line line) 500 "internal_error" refl refl

  pub Ensures-refuse_if :
      (b : Bool) (status : ℕ) (code : String)
      → message_of code code_messages ≡ some (text_of code)
      → lookup code code_statuses ≡ some status
      → Ensures Q IsStable (refuse_if b status code)
  unfolding refuse_if
  Ensures-refuse_if true status code known right = Ensures-write_error status code known right
  Ensures-refuse_if false status code known right = record { at = λ w q. (q, tt) }
