-- ===== src/Api/Verified.antt =====
-- internal/api/handler/auth.go, CompleteRegister and CompletePromote: what a success stands on.
use go_passkey_auth.Prelude.{
  String, Bool, true, false, ◌≡◌, refl, sym, ap, ◌∙◌, some, arith, if◌then◌else◌,
}
use go_passkey_auth.Domain.{ok}
use go_passkey_auth.Platform.{Platform, World, CompleteRequest, RegistrationSession, warn_line}
use go_passkey_auth.Platform.Library.{LibCredential, WaUser}
use go_passkey_auth.Store.Redis.Challenge.{take}
use go_passkey_auth.Webauthn.Attestation.{is_accepted_attestation, is_accepted_attestation_type}
use go_passkey_auth.Webauthn.Service.{
  Checked, passed, rejected, attestation_not_accepted, attestation_type_not_accepted, lib_error,
  policy_of, create_credential,
}
use go_passkey_auth.Webauthn.Policy.{policy_of_inv}
use go_passkey_auth.Api.Http.{
  Request, refuse_if, log_error, internal_error, next, or_else, attempt, gets,
}
use go_passkey_auth.Api.Http.Success.{
  Fails, bind-next, seq-next, or_else-next, attempt-next, or_else-Fails, attempt-Fails,
  refuse_if-Fails, refuse_if-next, gets-next, write_error-Fails, log_error-Fails,
  internal_error-Fails, write_error-Ends, log_error-Ends, internal_error-Ends,
}
use go_passkey_auth.Api.Http.Ensures.{Ensures-bind, Ensures-seq, Ensures-gets}
use go_passkey_auth.Api.Login.Steps.{
  read_envelope-Fails, read_envelope_inv, take_error-Fails, take_error-Ends,
}
use go_passkey_auth.Api.Auth.Ceremony.{
  read_envelope, take_error, accepted, verify_ceremony, verify_stored, stored_user,
}

-- The ceremony behind a credential that an endpoint of the given flow accepts.
pub record IsVerified {P : Platform} (promote : Bool) (r : Request) (w : World P)
    (stored : RegistrationSession P.lib.SessionData) (cred : LibCredential) : Type 0 where
  pub req : CompleteRequest
  pub raw : String
  pub parsed : P.lib.ParsedCreation
  pub decoded : P.decode_complete r.body ≡ some req
  pub took : (take req.session_id w).0 ≡ ok raw
  pub unmarshalled : P.unmarshal_registration raw ≡ some stored
  pub same_flow : stored.promote ≡ promote
  pub is_parsed : P.lib.parse_creation req.credential ≡ some parsed
  pub attested :
      P.lib.create_credential w.now (stored_user P stored) stored.session parsed ≡ some cred
  pub accepts_format : is_accepted_attestation cred.attestation_format ≡ true
  pub accepts_type : is_accepted_attestation_type cred.attestation_type ≡ true

same_flow_of :
    (promote stored : Bool)
    → (if promote then (if stored then false else true) else stored) ≡ false
    → stored ≡ promote
same_flow_of true true h = refl
same_flow_of true false h = cc
same_flow_of false true h = cc
same_flow_of false false h = refl

module _ {P : Platform} where
  accepted_inv :
      {A : Type 0} (c : Checked A) (line : String) (w : World P) {a : A}
      → (accepted c line w).0 ≡ next a
      → (c ≡ passed a) × ((accepted c line w).1 ≡ w)
  unfolding accepted gets
  accepted_inv (passed b) line w h = (ground arith, refl)
  accepted_inv (rejected attestation_not_accepted) line w h = absurd (write_error-Ends _ _ w _ h)
  accepted_inv (rejected attestation_type_not_accepted) line w h =
      absurd (log_error-Ends _ _ _ w _ h)
  accepted_inv (rejected lib_error) line w h = absurd (log_error-Ends _ _ _ w _ h)

  pub accepted-Fails :
      {A : Type 0} (c : Checked A) (line : String) → Fails {P = P} (accepted c line)
  unfolding accepted
  accepted-Fails (passed b) line = Ensures-gets (λ _. b)
  accepted-Fails (rejected attestation_not_accepted) line = write_error-Fails _ _
  accepted-Fails (rejected attestation_type_not_accepted) line = log_error-Fails _ _ _
  accepted-Fails (rejected lib_error) line = log_error-Fails _ _ _

  pub verify_ceremony-Fails :
      (line : String → String) (promote : Bool) (r : Request)
      → Fails {P = P} (verify_ceremony line promote r)
  unfolding verify_ceremony verify_stored
  verify_ceremony-Fails line promote r = Ensures-bind (read_envelope-Fails r) λ req.
      Ensures-bind (attempt-Fails (take req.session_id) (take_error-Fails _)) λ raw.
        Ensures-bind (or_else-Fails (P.unmarshal_registration raw) (internal_error-Fails _))
          λ stored. Ensures-seq (refuse_if-Fails _ 401 "session_invalid") (
            Ensures-bind
              (or_else-Fails (P.lib.parse_creation req.credential) (log_error-Fails _ _ _))
              λ parsed.
                Ensures-bind (Ensures-gets _)
                  λ checked. Ensures-bind (accepted-Fails checked _) λ cred. Ensures-gets _)

  checked_inv :
      (user : WaUser) (session : P.lib.SessionData) (parsed : P.lib.ParsedCreation) (line : String)
      (u v : World P) {checked : Checked LibCredential} {cred : LibCredential}
      → (gets (create_credential {P = P} user session parsed) u).0 ≡ next checked
      → (accepted checked line v).0 ≡ next cred
      → (P.lib.create_credential u.now user session parsed ≡ some cred)
        × (is_accepted_attestation cred.attestation_format ≡ true)
        × (is_accepted_attestation_type cred.attestation_type ≡ true)
  unfolding gets create_credential
  checked_inv user session parsed line u v {checked} {cred} e h =
      let judged : policy_of (P.lib.create_credential u.now user session parsed) ≡ checked = cc in
      policy_of_inv (P.lib.create_credential u.now user session parsed) cred
        (judged ∙ (accepted_inv checked line v h).0)

  verify_stored_inv :
      (line : String → String) (promote : Bool) (credential : String)
      (stored : RegistrationSession P.lib.SessionData) (w : World P)
      (x : RegistrationSession P.lib.SessionData × LibCredential)
      → (verify_stored line promote credential stored w).0 ≡ next x
      → (parsed : P.lib.ParsedCreation) × (x.0 ≡ stored)
        × (stored.promote ≡ promote)
        × (P.lib.parse_creation credential ≡ some parsed)
        × (P.lib.create_credential w.now (stored_user P stored) stored.session parsed ≡ some x.1)
        × (is_accepted_attestation x.1.attestation_format ≡ true)
        × (is_accepted_attestation_type x.1.attestation_type ≡ true)
        × ((verify_stored line promote credential stored w).1 ≡ w)
  unfolding verify_stored
  verify_stored_inv line promote credential stored w x h =
      let (_, e4, h4, w4) =
        seq-next
          (refuse_if (if promote then (if stored.promote then false else true) else stored.promote)
            401 "session_invalid")
          _ w h in
      let (parsed, e5, h5, w5) =
        bind-next
          (or_else (P.lib.parse_creation credential)
            (log_error (warn_line (line "parse credential")) 400 "invalid_request"))
          _ _ h4 in
      let (checked, e6, h6, w6) =
        bind-next (gets (create_credential {P = P} (stored_user P stored) stored.session parsed)) _
          _ h5 in
      let (cred, e7, h7, w7) = bind-next (accepted checked (line "verify attestation")) _ _ h6 in
      let (flow, q4) =
        refuse_if-next
          (if promote then (if stored.promote then false else true) else stored.promote) _ _ w e4 in
      let (is_parsed, q5) =
        or_else-next (P.lib.parse_creation credential) _ _ (log_error-Ends _ _ _) e5 in
      let (_, q6) =
        gets-next (create_credential {P = P} (stored_user P stored) stored.session parsed) _ e6 in
      let (_, q7) = accepted_inv checked (line "verify attestation") _ e7 in
      let (both, q8) = gets-next (λ _. (stored, cred)) _ h7 in
      let (attested, format, type) =
        checked_inv (stored_user P stored) stored.session parsed (line "verify attestation") _ _ e6
          e7 in
      let same : cred ≡ x.1 = ap (λ y. y.1) both in
      let at = q5 ∙ q4 in
      (
        parsed,
        ap (λ y. y.0) (sym both),
        same_flow_of promote stored.promote flow,
        is_parsed,
        ap (λ v. P.lib.create_credential v.now (stored_user P stored) stored.session parsed)
              (sym at)
            ∙ attested
            ∙ ap some same,
        ap (λ (c : LibCredential). is_accepted_attestation c.attestation_format) (sym same)
            ∙ format,
        ap (λ (c : LibCredential). is_accepted_attestation_type c.attestation_type) (sym same)
            ∙ type,
        w4 ∙ w5 ∙ w6 ∙ w7 ∙ q8 ∙ q7 ∙ q6 ∙ at,
      )

  -- What the session, the credential and the world are after the shared part of the two endpoints.
  pub verify_ceremony_inv :
      (line : String → String) (promote : Bool) (r : Request) (w : World P)
      (x : RegistrationSession P.lib.SessionData × LibCredential)
      → (verify_ceremony line promote r w).0 ≡ next x
      → (v : IsVerified promote r w x.0 x.1) × ((verify_ceremony line promote r w).1
          ≡ (take v.req.session_id w).1)
  unfolding verify_ceremony take
  verify_ceremony_inv line promote r w x h =
      let (req, e1, h1, w1) = bind-next (read_envelope r) _ w h in
      let (raw, e2, h2, w2) =
        bind-next (attempt (take req.session_id) (take_error (line "take challenge"))) _ _ h1 in
      let (stored, e3, h3, w3) =
        bind-next
          (or_else (P.unmarshal_registration raw) (internal_error (line "unmarshal session"))) _ _
          h2 in
      let (decoded, q1) = read_envelope_inv r w e1 in
      let (took, q2) = attempt-next (take req.session_id) _ _ (take_error-Ends _) e2 in
      let (unmarshalled, q3) =
        or_else-next (P.unmarshal_registration raw) _ _ (internal_error-Ends _) e3 in
      let (parsed, same, flow, is_parsed, attested, format, type, w4) =
        verify_stored_inv line promote req.credential stored _ x h3 in
      let at = q3 ∙ q2 ∙ ap (λ v. (take req.session_id v).1) q1 in
      (
        record {
          req = req;
          raw = raw;
          parsed = parsed;
          decoded = decoded;
          took = ap (λ v. (take req.session_id v).0) (sym q1) ∙ took;
          unmarshalled = unmarshalled ∙ ap some (sym same);
          same_flow = ap (λ (s : RegistrationSession P.lib.SessionData). s.promote) same ∙ flow;
          is_parsed = is_parsed;
          attested =
              ap
                (λ (s : RegistrationSession P.lib.SessionData).
                  P.lib.create_credential w.now (stored_user P s) s.session parsed)
                same
              ∙ ap (λ v. P.lib.create_credential v.now (stored_user P stored) stored.session parsed)
                  (sym at)
              ∙ attested;
          accepts_format = format;
          accepts_type = type;
        },
        w1 ∙ w2 ∙ w3 ∙ w4 ∙ at,
      )
