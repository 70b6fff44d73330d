-- ===== src/Api/Journey/Login.antt =====
-- internal/api/handler/auth.go, BeginLogin and CompleteLogin: a login that nobody disturbs, from its
-- first request to its last.
use go_passkey_auth.Prelude.{
  ℕ, ◌+◌, ◌<◌, false, ◌||◌, Bytes, Option, String, ◌≡◌, ◌≢◌, ap, ◌∙◌, none, some, find, update,
  arith, ◌==◌, string_eq,
}
use go_passkey_auth.Domain.{User}
use go_passkey_auth.Store.Tables.{CredentialRow}
use go_passkey_auth.Platform.{Platform, World, counted, answered}
use go_passkey_auth.Platform.Redis.{IsRedis, value, failed}
use go_passkey_auth.Platform.Library.{LibCredential, WaUser, ask}
use go_passkey_auth.Store.Redis.Challenge.{challenge_key, save, saved, take}
use go_passkey_auth.Store.Redis.Session.{session_key}
use go_passkey_auth.Store.Postgres.Users.{has_id}
use go_passkey_auth.Store.Postgres.Credentials.{is_live_with, is_live_key, set_assertion, scanned}
use go_passkey_auth.Webauthn.Service.{begin_login as service_begin_login}
use go_passkey_auth.Api.Http.{Request, respond, outcome, write_json, assertion_options, logged_in}
use go_passkey_auth.Api.Http.Forward.{
  bind_next, seq_next, attempted, attempt_run, or_else_run, obtain_run,
}
use go_passkey_auth.Api.Held.{save_then_take}
use go_passkey_auth.Api.Orphaned.{read_envelope_next, take_next}
use go_passkey_auth.Api.Login.End.{drop_guest_rest}
use go_passkey_auth.Api.Login.Forward.{validate_run, finish_login_run}
use go_passkey_auth.Api.Auth.Deps.{Deps}
use go_passkey_auth.Api.Auth.Ceremony.{new_session_id}
use go_passkey_auth.Api.Auth.Login.{begin_login, complete_login, login_user}
use go_passkey_auth.Api.Journey.{call_after}

-- What a /login/begin request and a /login/complete request after `elapsed` meet, from the state `w`,
-- when every call outside the program succeeds. The calls are numbered from `w.calls` on: the session
-- id, the library and the save; then the take, the two lookups, the update and the session token.
pub record IsWelcome {P : Platform} (deps : Deps) (complete : Request) (w : World P) (elapsed : ℕ)
    : Type 0 where
  pub drawn : Bytes
  pub options : P.lib.RequestOptions
  pub session : P.lib.SessionData
  pub payload : String
  pub credential : String
  pub parsed : P.lib.ParsedAssertion
  pub row : CredentialRow
  pub user : User
  pub ids : Bytes × Bytes
  pub judge : Option WaUser → Option LibCredential
  pub cred : LibCredential
  pub secret : Bytes
  pub answers : (n : ℕ) → P.pg_outcome n ≡ answered
  -- the random source, the library, the encoder and Redis do their parts
  pub draws_id : P.rand_read w.calls 32 ≡ some drawn
  pub begins : P.lib.begin_discoverable_login (call_after 1 w.calls) ≡ some (options, some session)
  pub marshals : P.marshal_login (record { session = session }) ≡ some payload
  pub saves :
      (P.redis.set w.now
        (challenge_key (P.encode_base64 drawn))
        payload
        deps.challenge_ttl
        w.redis).0
      ≡ value tt
  -- the second request comes in time, with the session id and a credential
  pub in_time : elapsed < deps.challenge_ttl
  pub decoded :
      P.decode_complete complete.body
      ≡ some (record { session_id = P.encode_base64 drawn; credential = credential })
  pub filled : (P.encode_base64 drawn == "" || credential == "") ≡ false
  pub reads :
      (P.redis.get_del
        (w.now + elapsed)
        (challenge_key (P.encode_base64 drawn))
        (P.redis.set w.now
          (challenge_key (P.encode_base64 drawn))
          payload
          deps.challenge_ttl
          w.redis).1).0
      ≢ failed
  pub unmarshals : P.unmarshal_login payload ≡ some (record { session = session })
  -- the credential is a live one of the tables, and the library accepts it of its owner
  pub is_parsed : P.lib.parse_assertion credential ≡ some parsed
  pub is_live : find (is_live_with (P.lib.raw_id parsed)) w.db.credentials ≡ some row
  pub owns : find (has_id row.columns.user_id) w.db.users ≡ some user
  pub asks :
      P.lib.validate_discoverable_login (w.now + elapsed) session parsed ≡ ask ids.0 ids.1 judge
  pub accepts : judge (some (login_user P user (scanned row.columns))) ≡ some cred
  pub draws_token : P.rand_read (call_after 7 w.calls) 32 ≡ some secret
  pub issues :
      (P.redis.set
        (w.now + elapsed)
        (session_key (P.encode_base64 secret))
        (P.uuid_string user.id)
        deps.session_ttl
        (P.redis.get_del
          (w.now + elapsed)
          (challenge_key (P.encode_base64 drawn))
          (P.redis.set w.now
            (challenge_key (P.encode_base64 drawn))
            payload
            deps.challenge_ttl
            w.redis).1).1).0
      ≡ value tt

module _ {P : Platform} (L : IsRedis P.redis) (deps : Deps) (complete : Request) (w : World P)
    (elapsed : ℕ) (c : IsWelcome {P = P} deps complete w elapsed) where
  -- The state that the first request leaves, and the one in which the second comes in.
  abbrev after_first : World P
  after_first =
      (save {P = P} deps.challenge_ttl (P.encode_base64 c.drawn) c.payload (counted (counted w))).1

  abbrev resumed : World P
  resumed = record after_first { now = w.now + elapsed }

  begin_login_run : begin_login {P = P} deps w ≡ (
    respond (record { status = 200; body = assertion_options c.options (P.encode_base64 c.drawn) }),
    after_first,
  )
  unfolding begin_login service_begin_login write_json attempted save
  begin_login_run =
      let v1 : World P = counted w in
      let v2 : World P = counted v1 in
      let encoded : Option Bytes → Option String × World P =
        λ o. elim o [ none ↦ (none, v1) | some b ↦ (some (P.encode_base64 b), v1) ] in
      bind_next _ _ w (obtain_run new_session_id _ w (ap encoded c.draws_id))
      ∙ bind_next _ _ v1 (
          obtain_run (service_begin_login {P = P} (P.encode_base64 c.drawn)) _ v1
            (ground (arith, c.begins)))
      ∙ bind_next _ _ v2 (or_else_run _ _ v2 c.marshals)
      ∙ seq_next _ _ v2 (
          attempt_run (save {P = P} deps.challenge_ttl (P.encode_base64 c.drawn) c.payload) _ v2
            (ap (λ x. (saved x, after_first)) c.saves))

  abbrev taken_on : World P
  taken_on = (take {P = P} (P.encode_base64 c.drawn) resumed).1

  complete_login_run :
      (outcome (complete_login {P = P} deps complete resumed).0 ≡ record {
        status = 200;
        body = logged_in (P.uuid_string c.user.id) c.user.username c.user.display_name;
      })
      × ((complete_login {P = P} deps complete resumed).1.db ≡ record (w.db) {
        credentials =
            update
              (is_live_key c.row.columns.id)
              (set_assertion
                (w.now + elapsed)
                c.cred.sign_count
                c.cred.backup_eligible
                c.cred.backup_state)
              w.db.credentials;
      })
  unfolding complete_login save take
  complete_login_run =
      let u : World P = counted (counted taken_on) in
      let (v, tables, ended) =
        finish_login_run deps complete c.cred c.user (P.lib.raw_id c.parsed) c.row c.secret u
          (c.answers u.calls) c.is_live c.draws_token c.issues in
      let took =
        save_then_take L deps.challenge_ttl elapsed (P.encode_base64 c.drawn) c.payload
          (counted (counted w)) (ap saved c.saves) c.in_time c.reads in
      let whole =
        bind_next _ _ resumed (read_envelope_next complete resumed c.decoded c.filled)
        ∙ bind_next _ _ resumed (take_next (P.encode_base64 c.drawn) _ c.payload resumed took)
        ∙ bind_next _ _ taken_on (or_else_run _ _ taken_on c.unmarshals)
        ∙ bind_next _ _ taken_on (or_else_run _ _ taken_on c.is_parsed)
        ∙ bind_next _ _ taken_on (
            validate_run c.session c.parsed c.ids c.judge c.cred c.row c.user taken_on c.answers
              c.is_live c.owns c.asks c.accepts)
        ∙ ended in
      let (_, kept, _) = drop_guest_rest "login complete: delete guest" complete v in
      (ap (λ s. outcome s.0) whole, ap (λ s. s.1.db) whole ∙ kept ∙ tables)

  -- A login that nobody disturbs succeeds: when the calls outside the program do, the asserted
  -- credential is a live row with an owner whom the library accepts, and the second request comes
  -- before the challenge expires, the first is answered by the library's options under the session
  -- id that was drawn, the second by the owner's id and names, and the tables change in one thing:
  -- the live rows of that row's key get the counter, the backup flags and the time of last use of
  -- the assertion. Redis behaves as documented.
  pub login-logged_in :
      let first = begin_login {P = P} deps w in
      let then_on : World P = record (first.1) { now = first.1.now + elapsed } in
      let second = complete_login {P = P} deps complete then_on in
      (outcome first.0
        ≡ record { status = 200; body = assertion_options c.options (P.encode_base64 c.drawn) })
      × (outcome second.0 ≡ record {
        status = 200;
        body = logged_in (P.uuid_string c.user.id) c.user.username c.user.display_name;
      })
      × (second.1.db ≡ record (w.db) {
        credentials =
            update
              (is_live_key c.row.columns.id)
              (set_assertion
                (w.now + elapsed)
                c.cred.sign_count
                c.cred.backup_eligible
                c.cred.backup_state)
              w.db.credentials;
      })
  unfolding save
  login-logged_in =
      let (answer, tables) = complete_login_run in
      let resumes : record ((begin_login {P = P} deps w).1) {
        now = (begin_login {P = P} deps w).1.now + elapsed;
      }
          ≡ resumed =
        ap (λ s. let v : World P = s.1 in record v { now = v.now + elapsed }) begin_login_run in
      (
        ap (λ s. outcome s.0) begin_login_run,
        ap (λ v. outcome (complete_login {P = P} deps complete v).0) resumes ∙ answer,
        ap (λ v. (complete_login {P = P} deps complete v).1.db) resumes ∙ tables,
      )
