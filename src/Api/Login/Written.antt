-- ===== src/Api/Login/Written.antt =====
-- internal/api/handler/auth.go, CompleteLogin: the state in which a login is written down, and what its
-- two writes leave.
use go_passkey_auth.Prelude.{ℕ, String, some, ◌≡◌, ap, ◌∙◌, update, [], ◌∷◌, ◌++◌}
use go_passkey_auth.Domain.{ok, User, Credential}
use go_passkey_auth.Platform.{Platform, World, Call}
use go_passkey_auth.Platform.Library.{LibCredential}
use go_passkey_auth.Store.Tables.{Db}
use go_passkey_auth.Store.Redis.Challenge.{take}
use go_passkey_auth.Store.Redis.Session as SessionStore
use go_passkey_auth.Store.Postgres.Credentials.{update_after_assertion, is_live_key, set_assertion}
use go_passkey_auth.Api.Http.{Request, next}
use go_passkey_auth.Api.Login.Same.{update-ok, create_same, validate_same}
use go_passkey_auth.Api.Login.End.{drop_guest_rest, dropped_cookies}
use go_passkey_auth.Api.Cookie.{session_cookie_name, cookie_of, set_session_cookie}
use go_passkey_auth.Api.Auth.Deps.{Deps}
use go_passkey_auth.Api.Auth.Convert.{record_counter_anomalies}
use go_passkey_auth.Api.Auth.Ceremony.{drop_guest}
use go_passkey_auth.Api.Auth.Login.{validate}

-- The tables with an assertion written down at a time: the live rows of the key have its counter, its
-- backup flags and that time of last use.
abbrev pub asserted_db : LibCredential → ℕ → ℕ → Db → Db
asserted_db cred id now db = record db {
  credentials =
      update (is_live_key id)
        (set_assertion now cred.sign_count cred.backup_eligible cred.backup_state) db.credentials;
}

module _ {P : Platform} where
  -- The state in which a validated login is written down: the challenge is taken, the assertion is
  -- judged and its oddities are logged.
  abbrev pub validated :
      String
      → P.lib.SessionData
      → P.lib.ParsedAssertion
      → LibCredential
      → Credential
      → World P
      → World P
  validated sid session parsed cred found w =
      record_counter_anomalies found cred (validate {P = P} session parsed (take {P = P} sid w).1).1

  -- UpdateAfterAssertion with what was asserted.
  abbrev pub write_assertion : LibCredential → Credential → Call P (Unit {0})
  write_assertion cred found =
      update_after_assertion {P = P} found.id cred.sign_count cred.backup_eligible cred.backup_state

module _ {P : Platform} where
  -- What the two writes of a validated login leave, cookies included.
  pub written_down :
      (deps : Deps) (r : Request) (session : P.lib.SessionData) (parsed : P.lib.ParsedAssertion)
      (cred : LibCredential) (user : User) (found : Credential) (token : String) (u : World P)
      → (validate {P = P} session parsed u).0 ≡ next (cred, user, found)
      → (write_assertion {P = P} cred found
          (record_counter_anomalies found cred (validate {P = P} session parsed u).1)).0
        ≡ ok tt
      → let judged : World P =
          record_counter_anomalies found cred (validate {P = P} session parsed u).1 in
        let after : World P = drop_guest "login complete: delete guest" r (
          set_session_cookie r token deps.session_max_age
            (SessionStore.create {P = P} deps.session_ttl user.id
              (write_assertion {P = P} cred found judged).1).1) in
        (after.db ≡ asserted_db cred found.id u.now u.db)
        × (after.cookies
            ≡ (u.cookies ++ cookie_of r session_cookie_name token (some deps.session_max_age) ∷ [])
              ++ dropped_cookies r)
  written_down deps r session parsed cred user found token u e updated =
      let judged : World P =
        record_counter_anomalies found cred (validate {P = P} session parsed u).1 in
      let checked = validate_same session parsed u e in
      let (wrote, _, kept) =
        update-ok found.id cred.sign_count cred.backup_eligible cred.backup_state judged updated in
      let written : World P = (write_assertion {P = P} cred found judged).1 in
      let minted = create_same deps.session_ttl user.id written in
      let created : World P = (SessionStore.create {P = P} deps.session_ttl user.id written).1 in
      let (cleared, unchanged, _) =
        drop_guest_rest "login complete: delete guest" r
          (set_session_cookie r token deps.session_max_age created) in
      (
        unchanged
            ∙ minted.db
            ∙ wrote
            ∙ ap (λ t. asserted_db cred found.id t judged.db) checked.clock
            ∙ ap (asserted_db cred found.id u.now) checked.db,
        cleared
            ∙ ap
                (λ c.
                  (c ++ cookie_of r session_cookie_name token (some deps.session_max_age) ∷ [])
                  ++ dropped_cookies r)
                (minted.cookies ∙ kept ∙ checked.cookies),
      )
