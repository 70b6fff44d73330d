-- ===== src/Webauthn/Service.antt =====
-- internal/webauthn/service.go and user.go: the calls of the library, with the attestation policy
-- applied to a new credential. Errors that are only wrapped are `lib_error`.
use go_passkey_auth.Prelude.{ℕ, String, Option, none, some, if◌then◌else◌, not, Bytes}
use go_passkey_auth.Platform.{Platform, World, counted}
use go_passkey_auth.Platform.Library.{LibCredential, WaUser, refused, settled, ask}
use go_passkey_auth.Webauthn.Attestation.{is_accepted_attestation, is_accepted_attestation_type}

pub data ServiceErr : Type 0 where
  attestation_not_accepted attestation_type_not_accepted lib_error : ServiceErr

pub data Checked (A : Type 0) : Type 0 where
  passed : A → Checked A
  rejected : ServiceErr → Checked A

-- `checkAttestationPolicy`, with the credential that it lets through
unfoldable pub check_attestation_policy : LibCredential → Checked LibCredential
unfolding is_accepted_attestation is_accepted_attestation_type
check_attestation_policy cred =
    if not (is_accepted_attestation cred.attestation_format)
    then rejected attestation_not_accepted
    else if not (is_accepted_attestation_type cred.attestation_type)
    then rejected attestation_type_not_accepted
    else passed cred

abbrev pub policy_of : Option LibCredential → Checked LibCredential
unfolding check_attestation_policy
policy_of none = rejected lib_error
policy_of (some cred) = check_attestation_policy cred

-- `CreationOptions` and `AssertionOptions`: the library's options beside the caller's session id
pub record CeremonyOptions (O : Type 0) : Type 0 where
  pub options : O
  pub session_id : String

-- What a begin returns of the library's answer, with its nil test on the session data.
abbrev pub with_session :
    {O S : Type 0} → String → Option (O × Option S) → Option (CeremonyOptions O × S)
with_session session_id none = none
with_session session_id (some (options, none)) = none
with_session session_id (some (options, some session)) =
    some (record { options = options; session_id = session_id }, session)

-- `UserHandleSize`
abbrev pub user_handle_size : ℕ
user_handle_size = 64

-- `ParseCredentialCreation` and `ParseCredentialAssertion`; no policy is applied here.
abbrev pub parse_credential_creation : (P : Platform) → String → Option P.lib.ParsedCreation
parse_credential_creation P b = P.lib.parse_creation b

abbrev pub parse_credential_assertion : (P : Platform) → String → Option P.lib.ParsedAssertion
parse_credential_assertion P b = P.lib.parse_assertion b

abbrev pub marshal_session : (P : Platform) → P.lib.SessionData → Option String
marshal_session P session = P.marshal_session session

abbrev pub unmarshal_session : (P : Platform) → String → Option P.lib.SessionData
unmarshal_session P b = P.unmarshal_session b

module _ {P : Platform} where
  -- `NewUserHandle`
  unfoldable pub new_user_handle : World P → Option Bytes × World P
  new_user_handle w = (P.rand_read w.calls user_handle_size, counted w)

  unfoldable pub begin_registration :
      WaUser
      → String
      → World P
      → Option (CeremonyOptions P.lib.CreationOptions × P.lib.SessionData) × World P
  begin_registration user session_id w =
      (with_session session_id (P.lib.begin_registration w.calls user), counted w)

  unfoldable pub begin_login :
      String → World P → Option (CeremonyOptions P.lib.RequestOptions × P.lib.SessionData) × World P
  begin_login session_id w =
      (with_session session_id (P.lib.begin_discoverable_login w.calls), counted w)

  unfoldable pub create_credential :
      WaUser → P.lib.SessionData → P.lib.ParsedCreation → World P → Checked LibCredential
  unfolding check_attestation_policy
  create_credential user session parsed w =
      policy_of (P.lib.create_credential w.now user session parsed)

  -- `FinishRegistration`, which reads the response from a request's body
  unfoldable pub finish_registration :
      WaUser → P.lib.SessionData → String → World P → Checked LibCredential
  unfolding check_attestation_policy
  finish_registration user session body w =
      policy_of (P.lib.finish_registration w.now user session body)

  -- `ValidateLogin`. The handler acts on the world and yields the user for the library, with a
  -- record of what it resolved.
  unfoldable pub validate_login :
      {R : Type 0}
      → (World P → (Option WaUser × Option R) × World P)
      → P.lib.SessionData
      → P.lib.ParsedAssertion
      → World P
      → (Option LibCredential × Option R) × World P
  validate_login handler session parsed w =
      elim (P.lib.validate_discoverable_login w.now session parsed) [
        | refused ↦ ((none, none), w)
        | settled cred ↦ ((some cred, none), w)
        | ask _ _ k ↦ let ((user, resolved), w') = handler w in ((k user, resolved), w')
      ]
