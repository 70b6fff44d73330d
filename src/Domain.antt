-- ===== src/Domain.antt =====
-- internal/domain: the entities and the sentinel errors of the store layer.
--
-- A `uuid.UUID` is its 16 bytes read as a number, a `time.Time` a number of nanoseconds.
use go_passkey_auth.Prelude.{ℕ, Bool, String, Option, List, Bytes}

-- The sentinels of errors.go. `other` is any further error, whatever it wraps: no sentinel matches
-- it under `errors.Is`.
pub data Err : Type 0 where
  user_not_found credential_not_found username_taken credential_exists last_credential : Err
  session_not_found challenge_not_found guest_not_found other : Err

pub record User : Type 0 where
  pub id : ℕ
  pub username : String
  pub display_name : String
  pub is_guest : Bool
  pub created_at : ℕ
  pub promoted_at : Option ℕ

pub record Credential : Type 0 where
  pub id : ℕ
  pub user_id : ℕ
  pub credential_id : Bytes
  pub public_key : Bytes
  pub webauthn_user_handle : Bytes
  pub aaguid : Option ℕ
  pub sign_count : ℕ
  pub transports : List String
  pub attestation_format : String
  pub attestation_type : String
  pub backup_eligible : Bool
  pub backup_state : Bool
  pub name : Option String
  pub created_at : ℕ
  pub last_used_at : Option ℕ

-- The pair (value, error) of a Go function: the value is there exactly when the error is nil.
pub data Result (A : Type 0) : Type 0 where
  ok : A → Result A
  err : Err → Result A
