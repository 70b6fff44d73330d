-- ===== src/Api/Auth/Convert.antt =====
-- internal/api/handler/auth.go: the two conversions between the library's credential and the
-- domain's, and the warnings about an unusual assertion.
use go_passkey_auth.Prelude.{
  ℕ, Bool, true, false, ◌&&◌, ◌||◌, not, String, Option, none, some, List, [], ◌∷◌, ◌++◌, ◌==◌,
  nat_eq, ltb, Bytes,
}
use mathlib.Core.Bool.{xor}
use go_passkey_auth.Domain.{Credential}
use go_passkey_auth.Platform.{Platform, World, LogLine, warn_line}
use go_passkey_auth.Platform.Library.{LibCredential}

-- The AAGUID of the library: empty, or the bytes of a UUID. The outer `none` is the error.
abbrev pub aaguid_of : Platform → Bytes → Option (Option ℕ)
aaguid_of P [] = some none
aaguid_of P (b ∷ bs) = elim (P.uuid_from_bytes (b ∷ bs)) [ none ↦ none | some id ↦ some (some id) ]

abbrev pub with_aaguid : ℕ → Bytes → LibCredential → Option (Option ℕ) → Option Credential
with_aaguid user_id handle cred none = none
with_aaguid user_id handle cred (some aaguid) = some (record {
  id = 0;
  user_id = user_id;
  credential_id = cred.id;
  public_key = cred.public_key;
  webauthn_user_handle = handle;
  aaguid = aaguid;
  sign_count = cred.sign_count;
  transports = cred.transport;
  attestation_format = cred.attestation_format;
  attestation_type = cred.attestation_type;
  backup_eligible = cred.backup_eligible;
  backup_state = cred.backup_state;
  name = none;
  created_at = 0;
  last_used_at = none;
})

unfoldable pub domain_credential_from_lib : Platform → ℕ → Bytes → LibCredential → Option Credential
domain_credential_from_lib P user_id handle cred =
    with_aaguid user_id handle cred (aaguid_of P cred.aaguid)

abbrev pub aaguid_bytes : Platform → Option ℕ → Bytes
aaguid_bytes P none = []
aaguid_bytes P (some id) = P.uuid_bytes id

-- It returns no error on any path.
unfoldable pub lib_credential_from_domain : Platform → Credential → LibCredential
lib_credential_from_domain P c = record {
  id = c.credential_id;
  public_key = c.public_key;
  attestation_type = "";
  attestation_format = "";
  transport = c.transports;
  user_present = false;
  user_verified = false;
  backup_eligible = c.backup_eligible;
  backup_state = c.backup_state;
  aaguid = aaguid_bytes P c.aaguid;
  sign_count = c.sign_count;
  clone_warning = false;
  attachment = "";
  attestation = [];
}

abbrev pub line_if : Bool → String → List LogLine
line_if true message = warn_line message ∷ []
line_if false message = []

abbrev pub aaguid_differs : Platform → Option ℕ → Bytes → Bool
aaguid_differs P none asserted = false
aaguid_differs P (some stored) [] = false
aaguid_differs P (some stored) (b ∷ bs) = elim (P.uuid_from_bytes (b ∷ bs)) [
  | none ↦ false
  | some asserted ↦ not (stored == asserted)
]

-- The lines of `recordCounterAnomalies`.
unfoldable pub counter_anomalies : Platform → Credential → LibCredential → List LogLine
counter_anomalies P stored asserted =
    line_if (ltb 0 stored.sign_count && asserted.sign_count == 0) "passkey counter reset"
    ++ line_if (aaguid_differs P stored.aaguid asserted.aaguid) "passkey aaguid mismatch"
    ++ line_if
        (xor stored.backup_eligible asserted.backup_eligible
          || xor stored.backup_state asserted.backup_state)
        "passkey backup flags changed"

module _ {P : Platform} where
  abbrev pub record_counter_anomalies : Credential → LibCredential → World P → World P
  record_counter_anomalies stored asserted w = record w {
    log = w.log ++ counter_anomalies P stored asserted;
  }
