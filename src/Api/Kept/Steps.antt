-- ===== src/Api/Kept/Steps.antt =====
-- The steps that endpoints share keep what their calls keep, and end only in stable responses.
use go_passkey_auth.Api.Http.Success.{internal_error-Ends}
use go_passkey_auth.Prelude.{
  ℕ, Bool, true, false, String, Option, none, some, ◌≡◌, refl, Bytes, if◌then◌else◌,
}
use go_passkey_auth.Domain.{Err}
use go_passkey_auth.Platform.{Platform, World, counted, RegistrationSession, NamesRequest}
use go_passkey_auth.Platform.Library.{LibCredential, WaUser}
use go_passkey_auth.Webauthn.Service.{
  Checked, passed, rejected, ServiceErr, new_user_handle, begin_registration,
}
use go_passkey_auth.Api.Http.{Request, Handler, ◌>>=◌, obtain, or_else, internal_error}
use go_passkey_auth.Api.Http.Ensures.{
  Ensures, Preserves, Keeps, Ensures-bind_with, Yields, Yields-of_Answers, IgnoresLog, Ensures-bind,
  Ensures-seq, Ensures-write_json, Ensures-gets, Ensures-modify, Ensures-gets_call, Ensures-or_else,
  Ensures-obtain, Ensures-attempt,
}
use go_passkey_auth.Api.Http.Stable.{
  IsStable, Ensures-write_error, Ensures-log_error, Ensures-internal_error, Ensures-refuse_if,
}
use go_passkey_auth.Api.Kept.{KeptByLookups, KeptByWrites, KeptBySaves}
use go_passkey_auth.Api.Auth.Ceremony.{
  new_session_id, read_names, read_envelope, take_error, begin_ceremony, accepted, verify_ceremony,
  verify_stored, insert_error, store_credential,
}

pub ruleset ensures = (
  Ensures-bind, Ensures-seq, Ensures-write_json, Ensures-gets, Ensures-modify, Ensures-gets_call,
  Ensures-or_else, Ensures-obtain, Ensures-attempt, Ensures-write_error, Ensures-log_error,
  Ensures-internal_error, Ensures-refuse_if, refl,
)

module _ {P : Platform} {Q : World P → Type 0} (kept : KeptByLookups Q) where
  pub read_names-Ensures : (r : Request) → Ensures Q IsStable (read_names r)
  unfolding read_names
  read_names-Ensures r = search ensures depth 8

  pub read_envelope-Ensures : (r : Request) → Ensures Q IsStable (read_envelope r)
  unfolding read_envelope
  read_envelope-Ensures r = search ensures depth 8

  pub new_session_id-Preserves : Preserves Q new_session_id
  new_session_id-Preserves = record {
    at = λ w q. new_session_id_at (P.rand_read w.calls 32) w (kept.count_call.at w q);
  }
    where
      new_session_id_at :
          (o : Option Bytes) (w : World P)
          → Q (counted w)
          → let r : Option String × World P = elim o [
            | none ↦ (none, counted w)
            | some b ↦ (some (P.encode_base64 b), counted w)
          ] in
            Q r.1
      new_session_id_at none w q = q
      new_session_id_at (some b) w q = q

  new_user_handle-Preserves : Preserves Q (new_user_handle {P = P})
  unfolding new_user_handle
  new_user_handle-Preserves = record { at = kept.count_call.at }

  begin_registration-Preserves :
      (u : WaUser) (sid : String) → Preserves Q (begin_registration {P = P} u sid)
  unfolding begin_registration
  begin_registration-Preserves u sid = record { at = kept.count_call.at }

  pub take_error-Ensures :
      {A : Type 0} (line : String) (e : Err) → Ensures {A = A} Q IsStable (take_error line e)
  unfolding take_error
  take_error-Ensures line Err.challenge_not_found = search ensures
  take_error-Ensures line _ = search ensures

  pub accepted-Ensures :
      {A : Type 0} (c : Checked A) (line : String) → Ensures Q IsStable (accepted {P = P} c line)
  unfolding accepted
  accepted-Ensures (passed a) line = search ensures
  accepted-Ensures (rejected ServiceErr.attestation_not_accepted) line = search ensures
  accepted-Ensures (rejected ServiceErr.attestation_type_not_accepted) line = search ensures
  accepted-Ensures (rejected ServiceErr.lib_error) line = search ensures

  pub insert_error-Ensures :
      {A : Type 0} (line : String) (e : Err) → Ensures {A = A} Q IsStable (insert_error line e)
  unfolding insert_error
  insert_error-Ensures line Err.credential_exists = search ensures
  insert_error-Ensures line _ = search ensures

  drawn_id :
      {Fresh : String → Type 0} (saves : KeptBySaves Fresh Q) (line : String) (w : World P)
      → Q w
      → Q (obtain new_session_id (internal_error {A = String} line) w).1
        × Yields IsStable Fresh (obtain new_session_id (internal_error {A = String} line) w).0
  unfolding obtain or_else
  drawn_id {Fresh} saves line w q =
      go (P.rand_read w.calls 32) (λ b. saves.drawn w b q) (kept.count_call.at w q)
    where
      go :
          (o : Option Bytes)
          → ((b : Bytes) → o ≡ some b → Fresh (P.encode_base64 b))
          → Q (counted w)
          → let s : Option String × World P = elim o [
            | none ↦ (none, counted w)
            | some b ↦ (some (P.encode_base64 b), counted w)
          ] in
            let r = or_else s.0 (internal_error line) s.1 in Q r.1 × Yields IsStable Fresh r.0
      go none fresh c =
          let (after, answers) = (Ensures-internal_error kept.log line).at (counted w) c in
          (after, Yields-of_Answers IsStable Fresh _ (internal_error-Ends line (counted w)) answers)
      go (some b) fresh c = (c, fresh b refl)

  -- The session id that a ceremony goes on with has been drawn.
  pub Ensures-new_session_id :
      {A : Type 0} {Fresh : String → Type 0} (saves : KeptBySaves Fresh Q) (line : String)
      (f : String → Handler P A)
      → ((s : String) → Fresh s → Ensures Q IsStable (f s))
      → Ensures Q IsStable (obtain new_session_id (internal_error line) >>= f)
  Ensures-new_session_id {Fresh} saves line f hk =
      Ensures-bind_with Fresh (obtain new_session_id (internal_error line)) f
        (λ w q. drawn_id saves line w q) hk

  pub begin_ceremony-Ensures :
      {Fresh : String → Type 0}
      → KeptBySaves Fresh Q
      → (ttl : ℕ) (line : String → String)
        (stored : P.lib.SessionData → RegistrationSession P.lib.SessionData) (req : NamesRequest)
      → Ensures Q IsStable (begin_ceremony {P = P} ttl line stored req)
  unfolding begin_ceremony
  begin_ceremony-Ensures saves ttl line stored req =
      Ensures-bind (Ensures-obtain new_user_handle-Preserves (Ensures-internal_error kept.log _))
        λ handle.
          Ensures-new_session_id saves _ _
            λ s fresh. search (ensures, begin_registration-Preserves, saves.save_challenge) depth 14

  pub verify_ceremony-Ensures :
      (line : String → String) (promote : Bool) (r : Request)
      → Ensures Q IsStable (verify_ceremony line promote r)
  unfolding verify_ceremony verify_stored
  verify_ceremony-Ensures line promote r =
      search
        (ensures, read_envelope-Ensures, take_error-Ensures, accepted-Ensures, kept.take_challenge)
        depth 16

  pub store_credential-Ensures :
      KeptByWrites Q
      → (line : String → String) (user_id : ℕ) (handle : Bytes) (cred : LibCredential)
      → Ensures Q IsStable (store_credential line user_id handle cred)
  unfolding store_credential
  store_credential-Ensures writes line user_id handle cred =
      search (ensures, insert_error-Ensures, writes.new_credential) depth 8
