-- ===== src/Platform/Library.antt =====
-- What the program uses of go-webauthn: a parameter of the development.
use go_passkey_auth.Prelude.{ℕ, Bool, String, Option, List, Bytes}

-- The library's `Credential`, with the fields of the nested `Flags` and `Authenticator` beside the
-- others. `attestation` is the nested record of that name as one value, and [] its zero value.
pub record LibCredential : Type 0 where
  pub id : Bytes
  pub public_key : Bytes
  pub attestation_type : String
  pub attestation_format : String
  pub transport : List String
  pub user_present : Bool
  pub user_verified : Bool
  pub backup_eligible : Bool
  pub backup_state : Bool
  pub aaguid : Bytes
  pub sign_count : ℕ
  pub clone_warning : Bool
  pub attachment : String
  pub attestation : Bytes

-- `User` of internal/webauthn/user.go, what the library sees of a user.
pub record WaUser : Type 0 where
  pub handle : Bytes
  pub name : String
  pub display_name : String
  pub credentials : List LibCredential

-- How the library settles a discoverable login: on its own, or by one call of the handler that
-- resolves the user. `ask raw_id user_handle k` makes the call; `k` gets the handler's answer,
-- `none` for an error.
pub data LoginPlan : Type 0 where
  refused : LoginPlan
  settled : LibCredential → LoginPlan
  ask : Bytes → Bytes → (Option WaUser → Option LibCredential) → LoginPlan

-- Calls that draw randomness take the number of the call, those that read the clock the time.
pub record WebauthnLib : Type 1 where
  pub SessionData : Type 0
  pub CreationOptions : Type 0
  pub RequestOptions : Type 0
  pub ParsedCreation : Type 0
  pub ParsedAssertion : Type 0
  -- `SessionData.UserID`
  pub session_user_id : SessionData → Bytes
  -- `ParsedCredentialAssertionData.RawID`
  pub raw_id : ParsedAssertion → Bytes
  pub begin_registration : ℕ → WaUser → Option (CreationOptions × Option SessionData)
  pub begin_discoverable_login : ℕ → Option (RequestOptions × Option SessionData)
  pub parse_creation : String → Option ParsedCreation
  pub parse_assertion : String → Option ParsedAssertion
  pub create_credential : ℕ → WaUser → SessionData → ParsedCreation → Option LibCredential
  -- on the body of a request
  pub finish_registration : ℕ → WaUser → SessionData → String → Option LibCredential
  pub validate_discoverable_login : ℕ → SessionData → ParsedAssertion → LoginPlan
