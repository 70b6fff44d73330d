-- ===== src/Api/Login/Same.antt =====
-- internal/api/handler/auth.go, CompleteLogin: the calls of a login that leave the tables, the clock
-- and the cookies as they are, and the one that updates the credential.
use go_passkey_auth.Prelude.{
  update, ℕ, Bool, ◌≡◌, refl, sym, ◌∙◌, Option, none, some, arith, string_eq, nat_eq,
}
use mathlib.Core.Path.{subst}
use go_passkey_auth.Domain.{ok, User, Credential}
use go_passkey_auth.Platform.{Platform, World, warn_line}
use go_passkey_auth.Platform.Library.{LibCredential, LoginPlan, refused, settled, ask}
use go_passkey_auth.Store.Postgres.Run.{run_sql}
use go_passkey_auth.Store.Postgres.Users.{get_by_id, select_by_id}
use go_passkey_auth.Store.Postgres.Credentials.{
  update_after_assertion, update_rows, set_assertion, is_live_key, get_by_credential_id,
  select_live,
}
use go_passkey_auth.Store.Redis.Token.{new_token}
use go_passkey_auth.Store.Redis.Session as SessionStore
use go_passkey_auth.Store.Redis.Session.{session_key, resolved}
use go_passkey_auth.Webauthn.Service.{validate_login}
use go_passkey_auth.Api.Http.{next, gets, gets_call, or_else, log_error, internal_error}
use go_passkey_auth.Api.Http.Success.{internal_error-Ends, bind-next, or_else-next, log_error-Ends}
use go_passkey_auth.Api.Auth.Login.{validate, resolver, resolve}

-- Same tables, same clock, same Set-Cookie headers.
pub record SameTables {P : Platform} (v w : World P) : Type 0 where
  pub db : v.db ≡ w.db
  pub clock : v.now ≡ w.now
  pub cookies : v.cookies ≡ w.cookies

module _ {P : Platform} where
  -- An update that succeeds rewrites the live rows of the key.
  pub update-ok :
      (id n : ℕ) (be bs : Bool) (w : World P)
      → (update_after_assertion {P = P} id n be bs w).0 ≡ ok tt
      → let v = (update_after_assertion {P = P} id n be bs w).1 in
        (v.db ≡ record (w.db) {
          credentials = update (is_live_key id) (set_assertion w.now n be bs) w.db.credentials;
        })
        × (v.now ≡ w.now)
        × (v.cookies ≡ w.cookies)
  unfolding update_after_assertion run_sql update_rows
  update-ok id n be bs w h = (ground arith, ground arith, ground arith)

  pub create_same : (ttl id : ℕ) (w : World P) → SameTables (SessionStore.create ttl id w).1 w
  unfolding SessionStore.create new_token
  create_same ttl id w = record { db = ground arith; clock = ground arith; cookies = ground arith }

  resolve_same : (parsed : P.lib.ParsedAssertion) (w : World P) → SameTables (resolve parsed w).1 w
  unfolding resolve get_by_credential_id get_by_id run_sql select_live select_by_id
  resolve_same parsed w = record { db = ground arith; clock = ground arith; cookies = ground arith }

  validate_login_same :
      (s : P.lib.SessionData) (parsed : P.lib.ParsedAssertion) (w : World P)
      → SameTables {P = P} (validate_login (resolver {P = P} parsed) s parsed w).1 w
  unfolding validate_login
  validate_login_same s parsed w = go (P.lib.validate_discoverable_login w.now s parsed)
    where
      go :
          (plan : LoginPlan)
          → let v : (Option LibCredential × Option (User × Credential)) × World P = elim plan [
            | refused ↦ ((none, none), w)
            | settled cred ↦ ((some cred, none), w)
            | ask _ _ k ↦
                let ((user, found), w') = resolver {P = P} parsed w in ((k user, found), w')
          ] in
            SameTables {P = P} v.1 w
      go refused = record { db = refl; clock = refl; cookies = refl }
      go (settled cred) = record { db = refl; clock = refl; cookies = refl }
      go (ask a b k) = resolve_same parsed w

  pub validate_same :
      (s : P.lib.SessionData) (parsed : P.lib.ParsedAssertion) (w : World P)
      {x : LibCredential × User × Credential}
      → (validate {P = P} s parsed w).0 ≡ next x
      → SameTables {P = P} (validate {P = P} s parsed w).1 w
  unfolding validate gets_call gets or_else
  validate_same s parsed w h =
      let (v, e0, h1, s1) =
        bind-next (gets_call (validate_login (resolver {P = P} parsed) s parsed)) _ w h in
      let (c, e1, h2, s2) =
        bind-next
          (or_else v.0 (log_error (warn_line "login complete: validate") 401 "unauthorized")) _ _
          h1 in
      let (both, e2, h3, s3) =
        bind-next (or_else v.1 (internal_error "login complete: resolver bypassed")) _ _ h2 in
      let (_, q1) = or_else-next v.0 _ _ (log_error-Ends _ _ _) e1 in
      let (_, q2) = or_else-next v.1 _ _ (internal_error-Ends _) e2 in
      let whole : (validate {P = P} s parsed w).1
          ≡ (validate_login (resolver {P = P} parsed) s parsed w).1 =
        s1 ∙ s2 ∙ s3 ∙ q2 ∙ q1 in
      subst (λ u. SameTables {P = P} u w) (sym whole) (validate_login_same s parsed w)
