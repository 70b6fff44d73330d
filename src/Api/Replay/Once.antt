-- ===== src/Api/Replay/Once.antt =====
-- internal/api/handler/auth.go, the /complete endpoints: what a success takes is gone for good.
use go_passkey_auth.Prelude.{
  true, false, String, ◌≡◌, sym, ap, ◌∙◌, some, List, [], arith, inl, inr, Bool-cases,
}
use go_passkey_auth.Platform.{Platform, World, CompleteRequest}
use go_passkey_auth.Platform.Redis.{IsRedis}
use go_passkey_auth.Store.Redis.Challenge.{take}
use go_passkey_auth.Api.Http.{Request}
use go_passkey_auth.Api.Http.Success.{is_error}
use go_passkey_auth.Api.Auth.Deps.{Deps}
use go_passkey_auth.Api.Router.{Route, serve, Event, run}
use go_passkey_auth.Store.Redis.Challenge.{challenge_key}
use go_passkey_auth.Api.Gone.{Spent, NeverDrawn, Spent-KeptByLookups}
use go_passkey_auth.Api.Gone.Writes.{Spent-KeptByWrites}
use go_passkey_auth.Api.Gone.History.{run-Spent}
use go_passkey_auth.Api.Replay.{
  take-Spent, take-absent, session_key-Misses, guest_key-Misses, challenge_key-Misses,
}
use go_passkey_auth.Api.Replay.Taken.{completes, handler_of-HasTaken}

module _ {P : Platform} where
  -- A request that ends a ceremony without an error leaves its session id spent.
  serve-Spent_of :
      (L : IsRedis P.redis) (deps : Deps) (route : Route) (r : Request) (w : World P)
      {req : CompleteRequest}
      → completes route ≡ true
      → P.decode_complete r.body ≡ some req
      → is_error (serve deps route r w).0.body ≡ false
      → Spent L w.calls (challenge_key req.session_id) (serve deps route r w).1
  unfolding serve
  serve-Spent_of L deps route r w {req} c d h =
      let w0 : World P = record w { cookies = [] } in
      let t = handler_of-HasTaken deps route r w0 c h in
      let same : t.req ≡ req = ground (arith, t.decoded, d) in
      rw (sym same) (
        let key = challenge_key t.req.session_id in
        t.leaves (Spent L w.calls key)
          (Spent-KeptByLookups L w.calls key (session_key-Misses P w.calls t.req.session_id)
            (guest_key-Misses P w.calls t.req.session_id))
          (Spent-KeptByWrites L w.calls key)
          (take-Spent L w.calls t.req.session_id w0 (omega arith) t.took))

  -- After a request to a /complete endpoint that is answered without an error, and any history of
  -- requests and elapsed time, every request to any /complete endpoint with the same session id is
  -- answered by an error. The session ids drawn from then on must be others, and Redis must behave as documented.
  pub serve-once :
      (L : IsRedis P.redis) (deps : Deps) (route later : Route) (r again : Request) (w : World P)
      (es : List Event) (req replay : CompleteRequest)
      → completes route ≡ true
      → P.decode_complete r.body ≡ some req
      → is_error (serve deps route r w).0.body ≡ false
      → NeverDrawn P w.calls req.session_id
      → completes later ≡ true
      → P.decode_complete again.body ≡ some replay
      → replay.session_id ≡ req.session_id
      → is_error (serve deps later again (run deps es (serve deps route r w).1)).0.body ≡ true
  unfolding serve
  serve-once L deps route later r again w es req replay c d h never c2 d2 same =
      let after : World P = run deps es (serve deps route r w).1 in
      let spent : Spent L w.calls (challenge_key req.session_id) after =
        run-Spent L w.calls (challenge_key req.session_id)
          (session_key-Misses P w.calls req.session_id) (guest_key-Misses P w.calls req.session_id)
          (challenge_key-Misses P w.calls req.session_id never) deps es (serve deps route r w).1
          (serve-Spent_of L deps route r w c d h) in
      elim (Bool-cases (is_error (serve deps later again after).0.body)) [
        | inl refused ↦ refused
        | inr done ↦
            let t = handler_of-HasTaken deps later again (record after { cookies = [] }) c2 done in
            let taken : t.req.session_id ≡ req.session_id = ground (arith, t.decoded, d2, same) in
            absurd (
              take-absent L w.calls req.session_id (record after { cookies = [] }) t.raw
                (record { reached = spent.reached; gone = spent.gone })
                (ap (λ (s : String). (take s (record after { cookies = [] })).0) (sym taken)
                  ∙ t.took))
      ]
