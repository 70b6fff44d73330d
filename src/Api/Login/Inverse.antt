-- ===== src/Api/Login/Inverse.antt =====
-- internal/api/handler/auth.go, CompleteLogin: a login that succeeds, up to the validated assertion.
use go_passkey_auth.Prelude.{String, some, ◌≡◌, sym, ap, ◌∙◌}
use go_passkey_auth.Domain.{ok, User, Credential}
use go_passkey_auth.Platform.{Platform, World, CompleteRequest, LoginSession}
use go_passkey_auth.Platform.Library.{LibCredential}
use go_passkey_auth.Store.Redis.Challenge.{take}
use go_passkey_auth.Api.Http.{Request, next}
use go_passkey_auth.Api.Http.Success.{
  Succeeds, bind-Runs, or_else-next, attempt-next, or_else-Fails, attempt-Fails, log_error-Fails,
  internal_error-Fails, log_error-Ends, internal_error-Ends,
}
use go_passkey_auth.Api.Auth.Deps.{Deps}
use go_passkey_auth.Api.Auth.Ceremony.{read_envelope}
use go_passkey_auth.Api.Auth.Login.{complete_login, finish_login, validate}
use go_passkey_auth.Api.Login.Steps.{
  read_envelope-Fails, read_envelope_inv, take_error-Fails, take_error-Ends, validate-Fails,
}

module _ {P : Platform} where
  -- From the request to the validated assertion.
  pub verified_inv :
      (deps : Deps) (r : Request) (w : World P)
      → Succeeds (complete_login deps r w).0
      → (req : CompleteRequest) × (raw : String) × (stored : LoginSession P.lib.SessionData)
        × (parsed : P.lib.ParsedAssertion) × (x : LibCredential × User × Credential) × (u : World P)
        × (P.decode_complete r.body ≡ some req)
        × ((take req.session_id w).0 ≡ ok raw)
        × (P.unmarshal_login raw ≡ some stored)
        × (P.lib.parse_assertion req.credential ≡ some parsed)
        × (u ≡ (take req.session_id w).1)
        × ((validate stored.session parsed u).0 ≡ next x)
        × Succeeds (finish_login deps r x.0 x.1 x.2 (validate stored.session parsed u).1).0
        × (complete_login deps r w
            ≡ finish_login deps r x.0 x.1 x.2 (validate stored.session parsed u).1)
  unfolding complete_login
  verified_inv deps r w h =
      let (req, e1, h1, s1) = bind-Runs {m = read_envelope r} _ w (read_envelope-Fails r) h in
      let (raw, e2, h2, s2) =
        bind-Runs _ _ (attempt-Fails (take req.session_id) (take_error-Fails _)) h1 in
      let (stored, e3, h3, s3) =
        bind-Runs _ _ (or_else-Fails (P.unmarshal_login raw) (internal_error-Fails _)) h2 in
      let (parsed, e4, h4, s4) =
        bind-Runs _ _ (or_else-Fails (P.lib.parse_assertion req.credential) (log_error-Fails _ _ _))
          h3 in
      let (x, e5, h5, s5) = bind-Runs _ _ (validate-Fails stored.session parsed) h4 in
      let (decoded, q1) = read_envelope_inv r w e1 in
      let (took, q2) = attempt-next (take req.session_id) _ _ (take_error-Ends _) e2 in
      let (unmarshalled, q3) =
        or_else-next (P.unmarshal_login raw) _ _ (internal_error-Ends _) e3 in
      let (is_parsed, q4) =
        or_else-next (P.lib.parse_assertion req.credential) _ _ (log_error-Ends _ _ _) e4 in
      (
        req,
        raw,
        stored,
        parsed,
        x,
        _,
        decoded,
        ap (λ x. (take req.session_id x).0) (sym q1) ∙ took,
        unmarshalled,
        is_parsed,
        q4 ∙ q3 ∙ q2 ∙ ap (λ x. (take req.session_id x).1) q1,
        e5,
        h5,
        s1 ∙ s2 ∙ s3 ∙ s4 ∙ s5,
      )
