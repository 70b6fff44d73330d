-- ===== src/Webauthn/Attestation.antt =====
-- internal/webauthn/attestation.go: the two sets of accepted values.
use go_passkey_auth.Prelude.{Bool, String, List, [], ◌∷◌, ◌==◌, string_eq, if◌then◌else◌, any}

abbrev pub accepted_attestation_formats : List String
accepted_attestation_formats =
    "none" ∷ "packed" ∷ "tpm" ∷ "android-key" ∷ "android-safetynet" ∷ "fido-u2f" ∷ "apple" ∷ []

abbrev pub accepted_attestation_types : List String
accepted_attestation_types =
    "none" ∷ "basic_full" ∷ "basic_surrogate" ∷ "attca" ∷ "anonca" ∷ "ecdaa" ∷ []

-- `_, ok := set[key]`
abbrev pub is_in : String → List String → Bool
is_in key set = any (λ s. s == key) set

unfoldable pub is_accepted_attestation : String → Bool
is_accepted_attestation format =
    is_in (if format == "" then "none" else format) accepted_attestation_formats

unfoldable pub is_accepted_attestation_type : String → Bool
is_accepted_attestation_type t = is_in (if t == "" then "none" else t) accepted_attestation_types
