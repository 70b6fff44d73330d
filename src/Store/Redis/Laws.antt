-- ===== src/Store/Redis/Laws.antt =====
-- What the three stores promise, over any server that behaves as Redis documents.
use go_passkey_auth.Prelude.{
  ℕ, ◌+◌, ◌≤◌, ◌<◌, String, none, some, ◌≡◌, ◌≢◌, refl, sym, ap, ltb, if◌then◌else◌, arith, inl,
  inr, ◌⊎◌, Option-cases, Bool-cases,
}
use go_passkey_auth.Domain.{Result, ok, err, Err, session_not_found, other}
use go_passkey_auth.Platform.{Platform, World, IsUuid}
use go_passkey_auth.Platform.Redis.{Reply, value, nil, failed, IsRedis}
use go_passkey_auth.Store.Redis.Token.{new_token}
use go_passkey_auth.Store.Redis.Session as SessionStore
use go_passkey_auth.Store.Redis.Session.{session_key, issued, resolved}
use go_passkey_auth.Store.Redis.Guest as GuestStore
use go_passkey_auth.Store.Redis.Guest.{guest_key}
use go_passkey_auth.Store.Redis.Keys.{session_key-ne-guest_key}

module _ {P : Platform} where
  -- A token that is returned has been stored.
  pub create_inv :
      (ttl user_id : ℕ) (w : World P) (token : String)
      → (SessionStore.create ttl user_id w).0 ≡ ok token
      → let s = P.redis.set w.now (session_key token) (P.uuid_string user_id) ttl w.redis in
        (s.0 ≡ value tt)
        × ((SessionStore.create ttl user_id w).1.redis ≡ s.1)
        × ((SessionStore.create ttl user_id w).1.now ≡ w.now)
  unfolding SessionStore.create new_token
  create_inv ttl user_id w token e = ground arith

  -- Issuing a guest token writes one guest key, or nothing.
  guest_create_redis :
      (ttl user_id : ℕ) (w : World P)
      → ((GuestStore.create ttl user_id w).1.redis ≡ w.redis)
        ⊎ ((t : String) × ((GuestStore.create ttl user_id w).1.redis
              ≡ (P.redis.set w.now (guest_key t) (P.uuid_string user_id) ttl w.redis).1))
  unfolding GuestStore.create new_token
  guest_create_redis ttl user_id w = elim (Option-cases (P.rand_read w.calls 32)) [
    | inl e ↦ inl (ground arith)
    | inr (b, e) ↦ inr (P.encode_base64 b, ground arith)
  ]

pub resolved-ok :
    (P : Platform) (missing : Err) (r : Reply String) {id : ℕ}
    → resolved P missing r ≡ ok id
    → (raw : String) × (r ≡ value raw) × (P.uuid_parse raw ≡ some id)
resolved-ok P missing (value raw) e = (raw, refl, ground arith)
resolved-ok P missing nil e = cc
resolved-ok P missing failed e = cc

pub deleted-ok : (r : Reply (Unit {0})) → r ≢ nil → SessionStore.deleted r ≡ ok tt → r ≡ value tt
deleted-ok (value tt) ne e = refl
deleted-ok nil ne e = absurd (ne refl)
deleted-ok failed ne e = cc

-- What a lookup may answer about a token that stands for a user until a time: the user, before that
-- time; that there is no such token, from then on; or a failure of the server.
abbrev pub Resolves : Err → ℕ → ℕ → ℕ → Result ℕ → Type 0
Resolves missing user_id until now (ok id) = (id ≡ user_id) × (now < until)
Resolves missing user_id until now (err e) = (e ≡ other) ⊎ ((e ≡ missing) × (until ≤ now))

-- Before the time, a lookup finds the user or fails.
pub live_answer :
    (missing : Err) (user_id until now : ℕ) (r : Result ℕ)
    → Resolves missing user_id until now r
    → now < until
    → (r ≡ ok user_id) ⊎ (r ≡ err other)
live_answer missing user_id until now (ok id) h lt = inl (ap {B = Result ℕ} ok h.0)
live_answer missing user_id until now (err e) (inl broken) lt = inr (ap {B = Result ℕ} err broken)
live_answer missing user_id until now (err e) (inr (gone, late)) lt = absurd (omega arith)

module _ {P : Platform} (L : IsRedis P.redis) (U : IsUuid P) where
  pub resolved-Resolves :
      (missing : Err) (user_id until now : ℕ) (key : String) (s : P.redis.State)
      → L.view s now key ≡ (if ltb now until then some (P.uuid_string user_id) else none)
      → Resolves missing user_id until now (resolved P missing (P.redis.get now key s).0)
  resolved-Resolves missing user_id until now key s held =
      go (P.redis.get now key s).0 (λ v. L.get_value now key v s) (L.get_nil now key s)
    where
      go :
          (r : Reply String)
          → ((v : String) → r ≡ value v → L.view s now key ≡ some v)
          → (r ≡ nil → L.view s now key ≡ none)
          → Resolves missing user_id until now (resolved P missing r)
      go (value v) is_value is_nil = elim (Bool-cases (ltb now until)) [
        | inl live ↦
            let same : v ≡ P.uuid_string user_id = ground (arith, is_value v refl) in
            rw (same, U.parse_string) (refl, ground arith)
        | inr over ↦ absurd (ground (arith, is_value v refl))
      ]
      go nil is_value is_nil = elim (Bool-cases (ltb now until)) [
        | inl live ↦ absurd (ground (arith, is_nil refl))
        | inr over ↦ inr (refl, ground arith)
      ]
      go failed is_value is_nil = inl refl

  -- A session token issued with a lifetime that is not zero resolves to its user and nobody else
  -- while the lifetime lasts, and to no session from then on; only a failure of the server gives
  -- another answer. It is looked up after it is issued, with no other command in between.
  pub get-create :
      (ttl user_id later : ℕ) (w : World P) (token : String)
      → 0 < ttl
      → (SessionStore.create ttl user_id w).0 ≡ ok token
      → w.now ≤ later
      → Resolves session_not_found user_id
          (w.now + ttl)
          later
          (SessionStore.get token (record (SessionStore.create ttl user_id w).1 { now = later })).0
  unfolding SessionStore.get
  get-create ttl user_id later w token lasts e after =
      let (stored, same, _) = create_inv ttl user_id w token e in
      rw same (
        resolved-Resolves session_not_found user_id (w.now + ttl) later (session_key token)
          (P.redis.set w.now (session_key token) (P.uuid_string user_id) ttl w.redis).1
          (L.set_value w.now later ttl (session_key token) (P.uuid_string user_id) w.redis lasts
            stored after))

  -- What a session token resolves to is untouched by guests: no call of the guest store changes what
  -- any session key holds, at any time.
  pub session_view-guest :
      (ttl user_id later : ℕ) (w : World P) (token session : String)
      → (L.view (GuestStore.create ttl user_id w).1.redis later (session_key session)
          ≡ L.view w.redis later (session_key session))
        × (L.view (GuestStore.get token w).1.redis later (session_key session)
            ≡ L.view w.redis later (session_key session))
        × (L.view (GuestStore.delete token w).1.redis later (session_key session)
            ≡ L.view w.redis later (session_key session))
  unfolding GuestStore.create GuestStore.get GuestStore.delete new_token
  session_view-guest ttl user_id later w token session = (
    elim (guest_create_redis ttl user_id w) [
      | inl same ↦ rw same refl
      | inr (t, stored) ↦ rw stored (
          L.set_frame w.now later ttl (guest_key t) (P.uuid_string user_id) (session_key session)
            w.redis (λ p. session_key-ne-guest_key session t (sym p)))
    ],
    L.get_frame w.now later (guest_key token) (session_key session) w.redis,
    L.del_frame w.now later (guest_key token) (session_key session) w.redis
        (λ p. session_key-ne-guest_key session token (sym p)),
  )

  -- A session that is deleted resolves to nobody, at any later time.
  get-delete :
      (later id : ℕ) (w : World P) (token : String)
      → (SessionStore.delete token w).0 ≡ ok tt
      → w.now ≤ later
      → (SessionStore.get token (record (SessionStore.delete token w).1 { now = later })).0 ≢ ok id
  unfolding SessionStore.get SessionStore.delete
  get-delete later id w token e after got =
      let gone : L.view (P.redis.del w.now (session_key token) w.redis).1 later (session_key token)
          ≡ none =
        L.del_value w.now later (session_key token) w.redis
          (deleted-ok (P.redis.del w.now (session_key token) w.redis).0
            (L.del_not_nil w.now (session_key token) w.redis) e)
          after in
      let (raw, replied, _) = resolved-ok P session_not_found _ got in
      cc (gone, L.get_value later (session_key token) raw _ replied)
