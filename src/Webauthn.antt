-- ===== src/Webauthn.antt =====
-- internal/webauthn: the policy and the service in front of the go-webauthn library.
pub mod Attestation
pub mod Service
pub mod Policy
