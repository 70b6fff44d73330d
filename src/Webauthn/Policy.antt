-- ===== src/Webauthn/Policy.antt =====
-- internal/webauthn/service.go, CreateCredential: which credentials pass.
use go_passkey_auth.Prelude.{
  String, true, ◌≡◌, sym, ap, ◌∙◌, Option, none, some, arith, Bool-cases, inl, inr, ◌↔◌,
}
use go_passkey_auth.Platform.{Platform, World}
use go_passkey_auth.Platform.Library.{LibCredential, WaUser}
use go_passkey_auth.Webauthn.Attestation.{is_accepted_attestation, is_accepted_attestation_type}
use go_passkey_auth.Webauthn.Service.{
  passed, policy_of, check_attestation_policy, create_credential, finish_registration,
}

abbrev pub Accepts : Option LibCredential → LibCredential → Type 0
Accepts o c =
    (o ≡ some c)
    × (is_accepted_attestation c.attestation_format ≡ true)
    × (is_accepted_attestation_type c.attestation_type ≡ true)

pub policy_of_inv :
    (o : Option LibCredential) (c : LibCredential) → policy_of o ≡ passed c → Accepts o c
unfolding check_attestation_policy
policy_of_inv none c h = cc
policy_of_inv (some d) c h = elim (Bool-cases (is_accepted_attestation d.attestation_format)) [
  | inr f ↦ ground (arith, f)
  | inl f ↦ elim (Bool-cases (is_accepted_attestation_type d.attestation_type)) [
    | inr t ↦ ground (arith, f, t)
    | inl t ↦
        let same : d ≡ c = ground (arith, f, t) in
        (
          ap some same,
          ap (λ (x : LibCredential). is_accepted_attestation x.attestation_format) (sym same) ∙ f,
          ap (λ (x : LibCredential). is_accepted_attestation_type x.attestation_type) (sym same)
              ∙ t,
        )
  ]
]

module _ {P : Platform} where
  -- The service hands out a credential just if the library made it and both its attestation format
  -- and its attestation type are accepted.
  pub create_credential_iff :
      (user : WaUser) (session : P.lib.SessionData) (parsed : P.lib.ParsedCreation) (w : World P)
      (c : LibCredential)
      → (create_credential {P = P} user session parsed w ≡ passed c)
        ↔ Accepts (P.lib.create_credential w.now user session parsed) c
  unfolding create_credential check_attestation_policy
  create_credential_iff user session parsed w c = (
    policy_of_inv (P.lib.create_credential w.now user session parsed) c,
    λ (made, format, type). ap policy_of made ∙ ground (arith, format, type),
  )

  -- FinishRegistration hands out a credential just if the library's call on the request's body made it
  -- and both its attestation format and its attestation type are accepted.
  pub finish_registration_iff :
      (user : WaUser) (session : P.lib.SessionData) (body : String) (w : World P)
      (c : LibCredential)
      → (finish_registration {P = P} user session body w ≡ passed c)
        ↔ Accepts (P.lib.finish_registration w.now user session body) c
  unfolding finish_registration check_attestation_policy
  finish_registration_iff user session body w c = (
    policy_of_inv (P.lib.finish_registration w.now user session body) c,
    λ (made, format, type). ap policy_of made ∙ ground (arith, format, type),
  )
