-- ===== src/Api/Begun.antt =====
-- internal/api/handler/auth.go, BeginRegister and BeginPromote from the user handle on, and
-- BeginLogin: what a success has saved.
use go_passkey_auth.Prelude.{
  Bytes, suc, ℕ, ◌+◌, ◌≤◌, ◌<◌, String, some, ◌≡◌, sym, ap, ◌∙◌, arith, ◌⊎◌,
}
use mathlib.Core.Path.{subst}
use go_passkey_auth.Domain.{ok, err, other}
use go_passkey_auth.Platform.{Platform, World, NamesRequest, RegistrationSession, counted}
use go_passkey_auth.Platform.Redis.{IsRedis}
use go_passkey_auth.Store.Redis.Challenge.{take, taken}
use go_passkey_auth.Webauthn.Service.{
  new_user_handle, user_handle_size, with_session, begin_registration,
  begin_login as service_begin_login,
}
use go_passkey_auth.Api.Http.{
  write_json, internal_error, obtain, outcome, creation_options, assertion_options,
}
use go_passkey_auth.Api.Held.{
  obtain-Fails, obtain-next, new_session_id-drawn, new_session_id-counted, begun-taken,
  with_session_inv,
}
use go_passkey_auth.Api.Http.Success.{
  Succeeds, bind-Runs, internal_error-Fails, internal_error-Ends,
}
use go_passkey_auth.Api.Auth.Deps.{Deps}
use go_passkey_auth.Api.Auth.Login.{begin_login}
use go_passkey_auth.Api.Auth.Ceremony.{new_session_id, begin_ceremony, fresh_user}

module _ {P : Platform} where
  -- A ceremony that begins with success has drawn a user handle and a session id, and answers with
  -- the options that the library's begin made for that handle, under that id. Taken by that id
  -- before its lifetime is over, with no other command in between, its session is the one that the
  -- same call of the library returned with the options, in the caller's record, or the server
  -- fails. Redis behaves as documented.
  pub begin_ceremony-taken :
      (L : IsRedis P.redis) (ttl : ℕ) (line : String → String)
      (stored : P.lib.SessionData → RegistrationSession P.lib.SessionData) (req : NamesRequest)
      (w : World P) (later : ℕ)
      → Succeeds (begin_ceremony ttl line stored req w).0
      → w.now ≤ later
      → later < w.now + ttl
      → (handle drawn : Bytes) × (options : P.lib.CreationOptions) × (session : P.lib.SessionData)
        × (payload : String) × (P.rand_read w.calls user_handle_size ≡ some handle)
        × (P.rand_read (suc w.calls) 32 ≡ some drawn)
        × (P.lib.begin_registration (suc (suc w.calls)) (fresh_user handle req)
            ≡ some (options, some session))
        × (outcome (begin_ceremony ttl line stored req w).0
            ≡ record { status = 200; body = creation_options options (P.encode_base64 drawn) })
        × (P.marshal_registration (stored session) ≡ some payload)
        × (let r =
              (take
                (P.encode_base64 drawn)
                (record (begin_ceremony ttl line stored req w).1 { now = later })).0 in
            (r ≡ ok payload) ⊎ (r ≡ err other))
  unfolding begin_ceremony write_json new_user_handle begin_registration
  begin_ceremony-taken L ttl line stored req w later h after before =
      let (handle, e1, h1, s1) =
        bind-Runs {m = obtain new_user_handle (internal_error (line "user handle"))} _ w
          (obtain-Fails _ (internal_error-Fails _)) h in
      let (sid, e2, h2, s2) =
        bind-Runs {m = obtain new_session_id (internal_error (line "session id"))} _ _
          (obtain-Fails _ (internal_error-Fails _)) h1 in
      let (x, e3, h3, s3) =
        bind-Runs
          {m = obtain (begin_registration (fresh_user handle req) sid)
            (internal_error (line "webauthn begin"))}
          _ _ (obtain-Fails _ (internal_error-Fails _)) h2 in
      let (has_handle, q1) = obtain-next new_user_handle _ w (internal_error-Ends _) e1 in
      let (has_id, q2) = obtain-next new_session_id _ _ (internal_error-Ends _) e2 in
      let (begins, q3) =
        obtain-next (begin_registration (fresh_user handle req) sid) _ _ (internal_error-Ends _)
          e3 in
      let (drawn, draws, encoded) =
        new_session_id-drawn {P = P} (counted w)
          (ap (λ v. (new_session_id {P = P} v).0) (sym q1) ∙ has_id) in
      let before_begin = q2 ∙ new_session_id-counted {P = P} _ ∙ ap (counted {P = P}) q1 in
      let (made_by, sent) =
        with_session_inv sid (P.lib.begin_registration (suc (suc w.calls)) (fresh_user handle req))
          (ap (λ v. with_session sid (P.lib.begin_registration v.calls (fresh_user handle req)))
              (sym before_begin)
            ∙ begins) in
      let clock = ap (λ v. v.now) q3 ∙ ap (λ v. v.now) before_begin in
      let whole = s1 ∙ s2 ∙ s3 in
      let (payload, wrote, made, taken) =
        begun-taken L ttl (line "marshal session") (line "save challenge") sid
          (P.marshal_registration (stored x.1)) (creation_options x.0.options x.0.session_id) _
          later h3 (omega (arith, clock)) (omega (arith, clock)) in
      (
        handle,
        drawn,
        x.0.options,
        x.1,
        payload,
        has_handle,
        draws,
        made_by,
        ap (λ v. outcome v.0) whole
            ∙ wrote
            ∙ ap (λ i. record { status = 200; body = creation_options x.0.options i })
                (sent ∙ encoded),
        made,
        subst
            (λ i.
              let r =
                (take i (record (begin_ceremony ttl line stored req w).1 { now = later })).0 in
              (r ≡ ok payload) ⊎ (r ≡ err other))
            encoded
            (subst
              (λ v.
                let r = (take sid (record v.1 { now = later })).0 in
                (r ≡ ok payload) ⊎ (r ≡ err other))
              (sym whole) taken),
      )

  -- A login that begins with success has drawn a session id, and answers with the options that the
  -- library's begin made, under that id. Taken by that id before the handlers' challenge lifetime
  -- is over, with no other command in between, its session is the one that the same call of the
  -- library returned with the options, encoded, or the server fails. Redis behaves as documented.
  pub begin_login-taken :
      (L : IsRedis P.redis) (deps : Deps) (w : World P) (later : ℕ)
      → Succeeds (begin_login deps w).0
      → w.now ≤ later
      → later < w.now + deps.challenge_ttl
      → (drawn : Bytes) × (options : P.lib.RequestOptions) × (session : P.lib.SessionData)
        × (payload : String) × (P.rand_read w.calls 32 ≡ some drawn)
        × (P.lib.begin_discoverable_login (suc w.calls) ≡ some (options, some session))
        × (outcome (begin_login deps w).0
            ≡ record { status = 200; body = assertion_options options (P.encode_base64 drawn) })
        × (P.marshal_login (record { session = session }) ≡ some payload)
        × (let r =
              (take (P.encode_base64 drawn) (record (begin_login deps w).1 { now = later })).0 in
            (r ≡ ok payload) ⊎ (r ≡ err other))
  unfolding begin_login write_json service_begin_login
  begin_login-taken L deps w later h after before =
      let (sid, e1, h1, s1) =
        bind-Runs {m = obtain new_session_id (internal_error "login: session id")} _ w
          (obtain-Fails _ (internal_error-Fails _)) h in
      let (x, e2, h2, s2) =
        bind-Runs
          {m = obtain (service_begin_login {P = P} sid) (internal_error "login: webauthn begin")} _
          _ (obtain-Fails _ (internal_error-Fails _)) h1 in
      let (has_id, q1) = obtain-next new_session_id _ w (internal_error-Ends _) e1 in
      let (drawn, draws, encoded) = new_session_id-drawn {P = P} w has_id in
      let before_begin = q1 ∙ new_session_id-counted {P = P} w in
      let (begins, q2) =
        obtain-next (service_begin_login {P = P} sid) _ _ (internal_error-Ends _) e2 in
      let (made_by, sent) = with_session_inv sid (P.lib.begin_discoverable_login (suc w.calls)) (
        ap (λ v. with_session sid (P.lib.begin_discoverable_login v.calls)) (sym before_begin)
        ∙ begins) in
      let clock = ap (λ v. v.now) q2 ∙ ap (λ v. v.now) before_begin in
      let whole = s1 ∙ s2 in
      let (payload, wrote, made, taken) =
        begun-taken L deps.challenge_ttl "login: marshal session" "login: save challenge" sid
          (P.marshal_login (record { session = x.1 }))
          (assertion_options x.0.options x.0.session_id) _ later h2 (omega (arith, clock))
          (omega (arith, clock)) in
      (
        drawn,
        x.0.options,
        x.1,
        payload,
        draws,
        made_by,
        ap (λ v. outcome v.0) whole
            ∙ wrote
            ∙ ap (λ i. record { status = 200; body = assertion_options x.0.options i })
                (sent ∙ encoded),
        made,
        subst
            (λ i.
              let r = (take i (record (begin_login deps w).1 { now = later })).0 in
              (r ≡ ok payload) ⊎ (r ≡ err other))
            encoded
            (subst
              (λ v.
                let r = (take sid (record v.1 { now = later })).0 in
                (r ≡ ok payload) ⊎ (r ≡ err other))
              (sym whole) taken),
      )
