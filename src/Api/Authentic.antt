-- ===== src/Api/Authentic.antt =====
-- internal/api/handler/auth.go, CompleteLogin: what lies behind a login that succeeds.
use go_passkey_auth.Prelude.{String, Option, some, ◌≡◌, sym, ap, ◌∙◌, find, Bytes, [], ◌∷◌, ◌++◌}
use go_passkey_auth.Domain.{ok, User, Credential}
use go_passkey_auth.Platform.{Platform, World, Call, CompleteRequest, LoginSession}
use go_passkey_auth.Platform.Library.{LibCredential, WaUser, ask}
use go_passkey_auth.Store.Tables.{CredentialRow}
use go_passkey_auth.Store.Postgres.Users.{has_id}
use go_passkey_auth.Store.Redis.Challenge.{take}
use go_passkey_auth.Store.Redis.Session as SessionStore
use go_passkey_auth.Store.Postgres.Credentials.{is_live_with, scanned}
use go_passkey_auth.Api.Http.{Request, Response, logged_in, outcome}
use go_passkey_auth.Api.Http.Success.{Succeeds}
use go_passkey_auth.Api.Login.End.{finish_run, dropped_cookies}
use go_passkey_auth.Api.Cookie.{session_cookie_name, cookie_of, set_session_cookie}
use go_passkey_auth.Api.Auth.Deps.{Deps}
use go_passkey_auth.Api.Auth.Convert.{record_counter_anomalies}
use go_passkey_auth.Api.Auth.Ceremony.{drop_guest}
use go_passkey_auth.Api.Auth.Login.{complete_login, validate, login_user}
use go_passkey_auth.Api.Login.Steps.{validate_inv, resolve_inv, validate_login_inv}
use go_passkey_auth.Api.Login.Inverse.{verified_inv}
use go_passkey_auth.Api.Login.Written.{asserted_db, validated, write_assertion, written_down}

-- What a response of the login endpoint, and the state after it, stand on.
pub record IsAuthentic {P : Platform} (deps : Deps) (r : Request) (w : World P)
    (response : Response P.lib) (after : World P) : Type 0 where
  pub req : CompleteRequest
  pub raw : String
  pub stored : LoginSession P.lib.SessionData
  pub parsed : P.lib.ParsedAssertion
  pub ids : Bytes × Bytes
  pub judge : Option WaUser → Option LibCredential
  pub cred : LibCredential
  pub user : User
  pub row : CredentialRow
  pub found : Credential
  pub token : String
  pub decoded : P.decode_complete r.body ≡ some req
  pub took : (take req.session_id w).0 ≡ ok raw
  pub unmarshalled : P.unmarshal_login raw ≡ some stored
  pub is_parsed : P.lib.parse_assertion req.credential ≡ some parsed
  pub is_live : find (is_live_with (P.lib.raw_id parsed)) w.db.credentials ≡ some row
  pub reads : found ≡ scanned row.columns
  pub owns : find (has_id found.user_id) w.db.users ≡ some user
  pub asked : P.lib.validate_discoverable_login w.now stored.session parsed ≡ ask ids.0 ids.1 judge
  pub accepts : judge (some (login_user P user found)) ≡ some cred
  -- the two writes, in this order, from the state in which the assertion is validated
  pub updated :
      (write_assertion {P = P} cred found
        (validated req.session_id stored.session parsed cred found w)).0
      ≡ ok tt
  pub issued :
      (SessionStore.create {P = P} deps.session_ttl user.id
        (write_assertion {P = P} cred found
          (validated req.session_id stored.session parsed cred found w)).1).0
      ≡ ok token
  -- the state after the response: that of the two writes, with the cookies
  pub left :
      after
      ≡ drop_guest "login complete: delete guest" r (
          set_session_cookie r token deps.session_max_age
            (SessionStore.create {P = P} deps.session_ttl user.id
              (write_assertion {P = P} cred found
                (validated req.session_id stored.session parsed cred found w)).1).1)
  pub tables : after.db ≡ asserted_db cred row.columns.id w.now w.db
  pub cookies :
      after.cookies
      ≡ (w.cookies ++ cookie_of r session_cookie_name token (some deps.session_max_age) ∷ [])
        ++ dropped_cookies r
  pub answered : response ≡ record {
    status = 200;
    body = logged_in (P.uuid_string user.id) user.username user.display_name;
  }

module _ {P : Platform} where
  -- A login that succeeds took its challenge session out of Redis, for which the library asked for
  -- a user and accepted the assertion against one live credential row, that of the asserted raw id,
  -- and the user row that owns it. From the state so reached, the credential was updated and then a
  -- session token was issued for that user. The live rows of that row's key have the counter, the
  -- backup flags and the time of last use of the assertion, and the tables are otherwise as before;
  -- the headers set are the cookie of that token and, where the request has a guest cookie, its
  -- clearing; and the response is a 200 that names that user. `w` is the state before the request.
  pub complete_login-IsAuthentic :
      (deps : Deps) (r : Request) (w : World P)
      → Succeeds (complete_login {P = P} deps r w).0
      → IsAuthentic deps r w
          (outcome (complete_login {P = P} deps r w).0)
          (complete_login {P = P} deps r w).1
  unfolding take
  complete_login-IsAuthentic deps r w h =
      let (req, raw, stored, parsed, x, u, decoded, took, unmarshalled, is_parsed, at, e, h2, s) =
        verified_inv deps r w h in
      let (ids, judge, asked, accepts, resolved) =
        validate_login_inv stored.session parsed u (validate_inv stored.session parsed u e) in
      let (row, is_live, reads, owns) = resolve_inv parsed u resolved in
      let (token, updated, issued, ran) =
        finish_run deps r x.0 x.1 x.2 (validate {P = P} stored.session parsed u).1 h2 in
      let (tables, cookies) =
        written_down deps r stored.session parsed x.0 x.1 x.2 token u e updated in
      let state : World P → World P =
        λ z. record_counter_anomalies x.2 x.0 (validate {P = P} stored.session parsed z).1 in
      let create : Call P String = SessionStore.create {P = P} deps.session_ttl x.1.id in
      let end : World P → World P = λ z.
        drop_guest "login complete: delete guest" r
          (set_session_cookie r token deps.session_max_age z) in
      let whole = s ∙ ran in
      let dbs : u.db ≡ w.db = ap (λ v. v.db) at in
      record {
        req = req;
        raw = raw;
        stored = stored;
        parsed = parsed;
        ids = ids;
        judge = judge;
        cred = x.0;
        user = x.1;
        row = row;
        found = x.2;
        token = token;
        decoded = decoded;
        took = took;
        unmarshalled = unmarshalled;
        is_parsed = is_parsed;
        is_live =
            ap (λ d. find (is_live_with (P.lib.raw_id parsed)) d.credentials) (sym dbs) ∙ is_live;
        reads = reads;
        owns = ap (λ d. find (has_id x.2.user_id) d.users) (sym dbs) ∙ owns;
        asked =
            ap (λ v. P.lib.validate_discoverable_login v.now stored.session parsed) (sym at)
            ∙ asked;
        accepts = accepts;
        updated = ap (λ z. (write_assertion {P = P} x.0 x.2 (state z)).0) (sym at) ∙ updated;
        issued =
            ap (λ z. (create (write_assertion {P = P} x.0 x.2 (state z)).1).0) (sym at) ∙ issued;
        left =
            ap (λ z. z.1) whole
            ∙ ap (λ z. end (create (write_assertion {P = P} x.0 x.2 (state z)).1).1) at;
        tables =
            ap (λ z. z.1.db) whole
            ∙ tables
            ∙ ap (λ c. asserted_db x.0 c.id u.now u.db) reads
            ∙ ap (λ v. asserted_db x.0 row.columns.id v.now v.db) at;
        cookies =
            ap (λ z. z.1.cookies) whole
            ∙ cookies
            ∙ ap
                (λ v.
                  (v.cookies
                    ++ cookie_of r session_cookie_name token (some deps.session_max_age) ∷ [])
                  ++ dropped_cookies r)
                at;
        answered = ap (λ z. outcome z.0) whole;
      }
