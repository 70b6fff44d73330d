-- ===== src/Api/Replay/Taken.antt =====
-- internal/api/handler/auth.go: what a /complete endpoint that succeeds has taken.
use go_passkey_auth.Prelude.{Bool, true, false, String, ◌≡◌, sym, ap, ◌∙◌, some}
use mathlib.Core.Bool.{false≢true}
use go_passkey_auth.Domain.{ok}
use go_passkey_auth.Platform.{Platform, World, CompleteRequest}
use go_passkey_auth.Store.Redis.Challenge.{take}
use go_passkey_auth.Api.Http.{Request, Handler, ◌>>=◌, attempt}
use go_passkey_auth.Api.Http.Ensures.{Ensures}
use go_passkey_auth.Api.Http.Stable.{IsStable}
use go_passkey_auth.Api.Http.Success.{Succeeds, bind-Runs, attempt-Fails, attempt-next}
use go_passkey_auth.Api.Auth.Deps.{Deps}
use go_passkey_auth.Api.Auth.Ceremony.{read_envelope, take_error, verify_ceremony}
use go_passkey_auth.Api.Auth.Register.{complete_register, complete_line as register_line}
use go_passkey_auth.Api.Auth.Promote.{complete_promote, complete_line as promote_line}
use go_passkey_auth.Api.Auth.Login.{complete_login}
use go_passkey_auth.Api.Router.{Route, handler_of}
use go_passkey_auth.Api.Kept.{KeptByLookups, KeptByWrites}
use go_passkey_auth.Api.Kept.Steps.{ensures, store_credential-Ensures}
use go_passkey_auth.Api.Kept.Endpoints.{
  create_error-Ensures, validate-Ensures, finish_login-Ensures, drop_guest-Keeps,
  set_session_cookie-Keeps,
}
use go_passkey_auth.Api.Kept.Guests.{promote_error-Ensures}
use go_passkey_auth.Api.Login.Steps.{
  read_envelope-Fails, read_envelope_inv, take_error-Fails, take_error-Ends,
}
use go_passkey_auth.Api.Verified.{verify_ceremony-Fails, verify_ceremony_inv}

-- The endpoints that end a ceremony.
abbrev pub completes : Route → Bool
completes Route.register_complete = true
completes Route.login_complete = true
completes Route.promote_complete = true
completes _ = false

-- What a handler that succeeds took, and that it goes on by lookups and writes only.
pub record HasTaken {P : Platform} (r : Request) (w : World P) (m : Handler P ⊥) : Type 1 where
  pub req : CompleteRequest
  pub raw : String
  pub decoded : P.decode_complete r.body ≡ some req
  pub took : (take req.session_id w).0 ≡ ok raw
  pub leaves :
      (Q : World P → Type 0)
      → KeptByLookups Q
      → KeptByWrites Q
      → Q (take req.session_id w).1
      → Q (m w).1

module _ {P : Platform} where
  -- From a step on, the rest keeps what is spent.
  rest_keeps :
      {A : Type 0} (Q : World P → Type 0) (m : Handler P A) (f : A → Handler P ⊥) (w : World P)
      (a : A)
      → (m >>= f) w ≡ f a (m w).1
      → Q (m w).1
      → Ensures Q IsStable (f a)
      → Q ((m >>= f) w).1
  rest_keeps Q m f w a s q h = rw s (h.at (m w).1 q).0

  complete_register-HasTaken :
      (r : Request) (w : World P)
      → Succeeds (complete_register r w).0
      → HasTaken r w (complete_register r)
  unfolding complete_register
  complete_register-HasTaken r w h =
      let (x, e1, h1, s1) =
        bind-Runs {m = verify_ceremony register_line false r} _ w (verify_ceremony-Fails _ false r)
          h in
      let (v, q1) = verify_ceremony_inv register_line false r w x e1 in
      record {
        req = v.req;
        raw = v.raw;
        decoded = v.decoded;
        took = v.took;
        leaves = λ Q kept writes q.
            rest_keeps Q (verify_ceremony register_line false r) _ w x s1 (rw q1 q) (
              search
                (
                  ensures,
                  create_error-Ensures kept,
                  store_credential-Ensures kept writes,
                  writes.new_user_row,
                )
                depth 12);
      }

  complete_promote-HasTaken :
      (deps : Deps) (r : Request) (w : World P)
      → Succeeds (complete_promote deps r w).0
      → HasTaken r w (complete_promote deps r)
  unfolding complete_promote
  complete_promote-HasTaken deps r w h =
      let (x, e1, h1, s1) =
        bind-Runs {m = verify_ceremony promote_line true r} _ w (verify_ceremony-Fails _ true r)
          h in
      let (v, q1) = verify_ceremony_inv promote_line true r w x e1 in
      record {
        req = v.req;
        raw = v.raw;
        decoded = v.decoded;
        took = v.took;
        leaves = λ Q kept writes q.
            rest_keeps Q (verify_ceremony promote_line true r) _ w x s1 (rw q1 q) (
              search
                (
                  ensures,
                  promote_error-Ensures kept,
                  store_credential-Ensures kept writes,
                  writes.promotion,
                  kept.session_create,
                  set_session_cookie-Keeps kept,
                  drop_guest-Keeps kept,
                )
                depth 16);
      }

  complete_login-HasTaken :
      (deps : Deps) (r : Request) (w : World P)
      → Succeeds (complete_login deps r w).0
      → HasTaken r w (complete_login deps r)
  unfolding complete_login
  complete_login-HasTaken deps r w h =
      let (req, e1, h1, s1) = bind-Runs {m = read_envelope r} _ w (read_envelope-Fails r) h in
      let (raw, e2, h2, s2) =
        bind-Runs {m = attempt (take req.session_id) (take_error "login complete: take challenge")}
          _ _ (attempt-Fails (take req.session_id) (take_error-Fails _)) h1 in
      let (decoded, q1) = read_envelope_inv r w e1 in
      let (took, q2) = attempt-next (take req.session_id) _ _ (take_error-Ends _) e2 in
      record {
        req = req;
        raw = raw;
        decoded = decoded;
        took = ap (λ x. (take req.session_id x).0) (sym q1) ∙ took;
        leaves = λ Q kept writes q. rw s1 (
            rest_keeps Q
              (attempt (take req.session_id) (take_error "login complete: take challenge")) _ _ raw
              s2 (rw (q2, q1) q)
              (search (ensures, validate-Ensures kept, finish_login-Ensures kept writes deps r)
                depth 16));
      }

  pub handler_of-HasTaken :
      (deps : Deps) (route : Route) (r : Request) (w : World P)
      → completes route ≡ true
      → Succeeds (handler_of deps route r w).0
      → HasTaken r w (handler_of deps route r)
  unfolding handler_of
  handler_of-HasTaken deps Route.register_complete r w c h = complete_register-HasTaken r w h
  handler_of-HasTaken deps Route.login_complete r w c h = complete_login-HasTaken deps r w h
  handler_of-HasTaken deps Route.promote_complete r w c h = complete_promote-HasTaken deps r w h
  handler_of-HasTaken deps _ r w c h = absurd (false≢true c)
