-- ===== src/Api/Held.antt =====
-- internal/api/handler/auth.go: the end of a /begin, where the session is saved, and the session that
-- is held for the /complete.
use go_passkey_auth.Prelude.{
  Bytes, ℕ, ◌+◌, ◌≤◌, ◌<◌, String, Option, none, some, ◌≡◌, ◌≢◌, refl, ap, ◌∙◌, arith, inl, inr,
  ◌⊎◌, Option-cases,
}
use go_passkey_auth.Domain.{ok, err, other}
use go_passkey_auth.Platform.{Platform, World, counted}
use go_passkey_auth.Platform.Redis.{IsRedis, Reply, value, nil, failed}
use go_passkey_auth.Store.Redis.Challenge.{save, take, saved, taken, challenge_key}
use go_passkey_auth.Webauthn.Service.{CeremonyOptions, with_session}
use go_passkey_auth.Api.Http.{
  Handler, write_json, internal_error, next, or_else, attempt, obtain, outcome, Body, ◌>>=◌, ◌>>◌,
}
use go_passkey_auth.Api.Http.Success.{
  Fails, Ends, Succeeds, bind-Runs, seq-Runs, or_else-next, attempt-next, or_else-Fails,
  attempt-Fails, internal_error-Fails, internal_error-Ends,
}
use go_passkey_auth.Api.Http.Ensures.{Ensures-obtain}
use go_passkey_auth.Api.Auth.Ceremony.{new_session_id}

-- A begin that hands out options has them and the session of one answer of the library.
pub with_session_inv :
    {O S : Type 0} (session_id : String) (o : Option (O × Option S)) {x : CeremonyOptions O × S}
    → with_session session_id o ≡ some x
    → (o ≡ some (x.0.options, some x.1)) × (x.0.session_id ≡ session_id)
with_session_inv session_id none e = cc
with_session_inv session_id (some (options, none)) e = cc
with_session_inv session_id (some (options, some session)) e = (cc, cc)

taken-other : (r : Reply String) → taken r ≡ err other → r ≡ failed
taken-other (value v) h = cc
taken-other nil h = cc
taken-other failed h = refl

saved-ok : (r : Reply (Unit {0})) → saved r ≡ ok tt → r ≡ value tt
saved-ok (value tt) h = refl
saved-ok nil h = cc
saved-ok failed h = cc

module _ {P : Platform} where
  pub obtain-Fails :
      {A : Type 0} (call : World P → Option A × World P) {on_none : Handler P A}
      → Fails on_none
      → Fails (obtain call on_none)
  obtain-Fails call h = Ensures-obtain (record { at = λ w q. tt }) h

  pub obtain-next :
      {A : Type 0} (call : World P → Option A × World P) (on_none : Handler P A) (w : World P)
      {a : A}
      → Ends on_none
      → (obtain call on_none w).0 ≡ next a
      → ((call w).0 ≡ some a) × ((obtain call on_none w).1 ≡ (call w).1)
  unfolding obtain
  obtain-next call on_none w ends h = or_else-next (call w).0 on_none (call w).1 ends h

  pub new_session_id-drawn :
      (w : World P) {sid : String}
      → (new_session_id w).0 ≡ some sid
      → (drawn : Bytes) × (P.rand_read w.calls 32 ≡ some drawn) × (sid ≡ P.encode_base64 drawn)
  new_session_id-drawn w h = elim (Option-cases (P.rand_read w.calls 32)) [
    | inl e ↦ absurd (ground (arith, e))
    | inr (b, e) ↦ (b, e, ground (arith, e))
  ]

  pub new_session_id-counted : (w : World P) → (new_session_id w).1 ≡ counted w
  new_session_id-counted w = elim (Option-cases (P.rand_read w.calls 32)) [
    | inl e ↦ ground (arith, e)
    | inr (b, e) ↦ ground (arith, e)
  ]

  pub take-held :
      (L : IsRedis P.redis) (sid payload : String) (w : World P)
      → L.view w.redis w.now (challenge_key sid) ≡ some payload
      → ((take sid w).0 ≡ ok payload) ⊎ ((take sid w).0 ≡ err other)
  unfolding take
  take-held L sid payload w held =
      go (P.redis.get_del w.now (challenge_key sid) w.redis).0
        (λ v e. (L.get_del_value w.now w.now (challenge_key sid) v w.redis e (omega arith)).0)
        (λ e. (L.get_del_nil w.now w.now (challenge_key sid) w.redis e (omega arith)).0)
    where
      go :
          (r : Reply String)
          → ((v : String) → r ≡ value v → L.view w.redis w.now (challenge_key sid) ≡ some v)
          → (r ≡ nil → L.view w.redis w.now (challenge_key sid) ≡ none)
          → (taken r ≡ ok payload) ⊎ (taken r ≡ err other)
      go (value v) is_value is_nil = let was = is_value v refl in inl (ground (arith, held, was))
      go nil is_value is_nil = let was = is_nil refl in absurd (ground (arith, held, was))
      go failed is_value is_nil = inr refl

  pub save-ok :
      (L : IsRedis P.redis) (ttl later : ℕ) (sid payload : String) (w : World P) (a : Unit {0})
      → (save ttl sid payload w).0 ≡ ok a
      → w.now ≤ later
      → later < w.now + ttl
      → L.view (save ttl sid payload w).1.redis later (challenge_key sid) ≡ some payload
  unfolding save
  save-ok L ttl later sid payload w a e after before =
      let stored = saved-ok (P.redis.set w.now (challenge_key sid) payload ttl w.redis).0 e in
      L.set_value w.now later ttl (challenge_key sid) payload w.redis (omega arith) stored after
      ∙ ground (arith, before)

  -- What is saved is taken in time, unless Redis fails.
  pub save_then_take :
      (L : IsRedis P.redis) (ttl elapsed : ℕ) (sid payload : String) (w : World P)
      → (save ttl sid payload w).0 ≡ ok tt
      → elapsed < ttl
      → (P.redis.get_del (w.now + elapsed) (challenge_key sid) (save ttl sid payload w).1.redis).0
        ≢ failed
      → (take {P = P} sid (record (save ttl sid payload w).1 { now = w.now + elapsed })).0
        ≡ ok payload
  unfolding save take
  save_then_take L ttl elapsed sid payload w stored in_time reads =
      let later : World P = record (save ttl sid payload w).1 { now = w.now + elapsed } in
      let held =
        save-ok L ttl (w.now + elapsed) sid payload w tt stored (omega arith) (omega arith) in
      elim (take-held L sid payload later held) [
        | inl took ↦ took
        | inr broken ↦ absurd (reads (taken-other _ broken))
      ]

  -- The end of a /begin: the session is saved, and then the options are written.
  abbrev begun : ℕ → String → String → String → Option String → Body P.lib → Handler P ⊥
  begun ttl line1 line2 sid marshalled body = do
    payload ← or_else marshalled (internal_error line1)
    attempt (save {P = P} ttl sid payload) (λ _. internal_error line2)
    write_json {P = P} 200 body

  pub begun-taken :
      (L : IsRedis P.redis) (ttl : ℕ) (line1 line2 sid : String) (marshalled : Option String)
      (body : Body P.lib) (w : World P) (later : ℕ)
      → Succeeds (begun ttl line1 line2 sid marshalled body w).0
      → w.now ≤ later
      → later < w.now + ttl
      → (payload : String) × (outcome (begun ttl line1 line2 sid marshalled body w).0
          ≡ record { status = 200; body = body })
        × (marshalled ≡ some payload)
        × (let r =
              (take sid
                (record (begun ttl line1 line2 sid marshalled body w).1 { now = later })).0 in
            (r ≡ ok payload) ⊎ (r ≡ err other))
  unfolding write_json
  begun-taken L ttl line1 line2 sid marshalled body w later h after before =
      let (payload, e4, h4, s4) =
        bind-Runs {m = or_else marshalled (internal_error line1)} _ w
          (or_else-Fails _ (internal_error-Fails _)) h in
      let (a, e5, h5, s5) =
        seq-Runs {m = attempt (save ttl sid payload) (λ _. internal_error line2)} _ _
          (attempt-Fails _ (λ e. internal_error-Fails _)) h4 in
      let (made, q4) = or_else-next marshalled _ _ (internal_error-Ends _) e4 in
      let (done, q5) = attempt-next (save ttl sid payload) _ _ (λ e. internal_error-Ends _) e5 in
      let clock = ap (λ v. v.now) q4 in
      let whole = s4 ∙ s5 in
      (
        payload,
        ap (λ v. outcome v.0) whole,
        made,
        take-held L sid payload
            (record (begun ttl line1 line2 sid marshalled body w).1 { now = later })
            (ap (λ v. L.view v.1.redis later (challenge_key sid)) whole
              ∙ ap (λ v. L.view v.redis later (challenge_key sid)) q5
              ∙ save-ok L ttl later sid payload _ a done (omega (arith, clock))
                  (omega (arith, clock))),
      )
