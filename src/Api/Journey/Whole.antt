-- ===== src/Api/Journey/Whole.antt =====
-- internal/api/handler/auth.go: a registration from its first request to its last.
use go_passkey_auth.Prelude.{ℕ, ◌+◌, false, ◌≡◌, refl, ap, ◌∙◌, [], ◌∷◌, ◌++◌}
use go_passkey_auth.Domain.{ok}
use go_passkey_auth.Platform.{Platform, World, counted}
use go_passkey_auth.Platform.Redis.{IsRedis}
use go_passkey_auth.Store.Redis.Challenge.{save, saved, take}
use go_passkey_auth.Store.Postgres.Effects.{new_user, new_row}
use go_passkey_auth.Api.Http.{Request, outcome, creation_options, registered}
use go_passkey_auth.Api.Auth.Deps.{Deps}
use go_passkey_auth.Api.Auth.Register.{begin_register, complete_register, plain_session}
use go_passkey_auth.Api.Held.{save_then_take}
use go_passkey_auth.Api.Verified.{IsVerified}
use go_passkey_auth.Api.Journey.{IsHonest, call_after}
use go_passkey_auth.Api.Journey.First.{after_begin, begin_register_run}
use go_passkey_auth.Api.Journey.Second.{complete_register_run}

module _ {P : Platform} (L : IsRedis P.redis) (deps : Deps) (begin complete : Request) (w : World P)
    (elapsed : ℕ) (c : IsHonest {P = P} deps begin complete w elapsed) where
  -- The state in which the second request comes in.
  abbrev resumed : World P
  resumed = record (after_begin deps begin complete w elapsed c) { now = w.now + elapsed }

  resumed-take : (take {P = P} (P.encode_base64 c.drawn) resumed).0 ≡ ok c.payload
  unfolding save
  resumed-take =
      save_then_take L deps.challenge_ttl elapsed (P.encode_base64 c.drawn) c.payload
        (counted (counted (counted (counted w)))) (ap saved c.saves) c.in_time c.reads

  resumed_verified :
      IsVerified {P = P} false complete resumed (plain_session c.names c.session) c.cred
  unfolding save
  resumed_verified = record {
    req = record { session_id = P.encode_base64 c.drawn; credential = c.credential };
    raw = c.payload;
    parsed = c.parsed;
    decoded = c.decoded;
    took = resumed-take;
    unmarshalled = c.unmarshals;
    same_flow = refl;
    is_parsed = c.is_parsed;
    attested = c.attested;
    accepts_format = c.accepts_format;
    accepts_type = c.accepts_type;
  }

  -- A registration that nobody disturbs succeeds: when the calls outside the program do and the second
  -- request comes before the challenge expires, the first is answered by the library's options under
  -- the session id that was drawn, the second by the keys of the new rows, and the tables get one
  -- registered user with the names of the first request and the credential of the second. Redis
  -- behaves as documented.
  pub register-registered :
      let first = begin_register {P = P} deps begin w in
      let then_on : World P = record (first.1) { now = first.1.now + elapsed } in
      let second = complete_register {P = P} complete then_on in
      let id = P.new_uuid (call_after 6 w.calls) in
      let key = P.new_uuid (call_after 7 w.calls) in
      (outcome first.0
        ≡ record { status = 200; body = creation_options c.options (P.encode_base64 c.drawn) })
      × (outcome second.0
          ≡ record { status = 200; body = registered (P.uuid_string id) (P.uuid_string key) })
      × (second.1.db ≡ record {
        users =
            w.db.users
            ++ new_user id (w.now + elapsed) c.names.username c.names.display_name false ∷ [];
        credentials = w.db.credentials ++ new_row key (w.now + elapsed) c.domain ∷ [];
      })
  unfolding save resumed_verified
  register-registered =
      let began = begin_register_run deps begin complete w elapsed c in
      let resumes : record ((begin_register {P = P} deps begin w).1) {
        now = (begin_register {P = P} deps begin w).1.now + elapsed;
      }
          ≡ resumed =
        ap (λ s. let v : World P = s.1 in record v { now = v.now + elapsed }) began in
      let (answer, tables) =
        complete_register_run complete resumed (plain_session c.names c.session) c.cred c.domain
          resumed_verified c.filled c.answers c.new_id c.name_free c.converts c.new_key
          c.new_credential in
      (
        ap (λ s. outcome s.0) began,
        ap (λ v. outcome (complete_register {P = P} complete v).0) resumes ∙ answer,
        ap (λ v. (complete_register {P = P} complete v).1.db) resumes ∙ tables,
      )
