-- ===== src/Api/Reused.antt =====
-- internal/api/handler/auth.go, Guest: a visitor who comes back.
use go_passkey_auth.Prelude.{
  arith, ℕ, suc, true, ◌+◌, ◌≤◌, ◌<◌, String, ◌≡◌, ◌≢◌, refl, sym, ap, ◌∙◌, Option, none, some, [],
  ◌∷◌, ◌++◌, string_eq, nat_eq, find, inl, inr, ◌⊎◌,
}
use go_passkey_auth.Domain.{Result, ok, err, User, other}
use go_passkey_auth.Platform.{Platform, World, IsUuid, answered, counted}
use go_passkey_auth.Platform.Redis.{IsRedis}
use go_passkey_auth.Store.Postgres.Users.{has_id}
use go_passkey_auth.Store.Redis.Session.{resolved}
use go_passkey_auth.Store.Redis.Guest as GuestStore
use go_passkey_auth.Store.Redis.Guest.{guest_key}
use go_passkey_auth.Store.Redis.Laws.{resolved-Resolves, live_answer}
use go_passkey_auth.Api.Http.{Request, next, write_json, gets_call, respond, outcome}
use go_passkey_auth.Api.Http.Success.{Succeeds}
use go_passkey_auth.Api.Cookie.{guest_cookie_name, cookie_of, non_empty, with_cookie}
use go_passkey_auth.Api.Auth.Deps.{Deps}
use go_passkey_auth.Api.Http.Forward.{bind_next}
use go_passkey_auth.Api.Http.{guest_user}
use go_passkey_auth.Api.Auth.Guest.{
  guest, resolve_guest, reuse_or_create, user_of_token, user_of_id,
}
use go_passkey_auth.Api.Tokens.{NeverEmpty, carried, get_by_id_run}
use go_passkey_auth.Domain.{guest_not_found}
use go_passkey_auth.Api.GuestRun.{guest_run}

module _ {P : Platform} where
  -- A guest whose token resolves, and who is still one, is answered by his own id.
  guest_back :
      (deps : Deps) (r : Request) (w : World P) (token : String) (user : User)
      → token ≢ ""
      → ((n : ℕ) → P.pg_outcome n ≡ answered)
      → find (has_id user.id) w.db.users ≡ some user
      → user.is_guest ≡ true
      → (GuestStore.get {P = P} token w).0 ≡ ok user.id
      → guest {P = P} deps (with_cookie guest_cookie_name token r) w ≡ (
        respond (record { status = 200; body = guest_user (P.uuid_string user.id) }),
        counted (GuestStore.get {P = P} token w).1,
      )
  unfolding guest resolve_guest reuse_or_create gets_call GuestStore.get write_json
  guest_back deps r w token user ne answers found is_guest resolves =
      let back = with_cookie guest_cookie_name token r in
      let u : World P = (GuestStore.get {P = P} token w).1 in
      let read : Result User × World P → Option User × World P =
        λ s. elim s.0 [ ok x ↦ (some x, s.1) | err _ ↦ (none, s.1) ] in
      let seen : resolve_guest {P = P} back w ≡ (some user, counted u) =
        ap (λ o. user_of_token {P = P} o w) (carried token ne)
        ∙ ap (λ x. user_of_id {P = P} x u) resolves
        ∙ ap read (get_by_id_run u user (answers (suc w.calls)) found) in
      bind_next (gets_call (resolve_guest {P = P} back)) _ w (ap (λ s. (next s.0, s.1)) seen)
      ∙ rw is_guest refl

  -- A visitor without a guest cookie gets a new guest row and a cookie. Sent back within the lifetime
  -- of the token, with no other command in between, the cookie brings the same guest, and neither a
  -- row nor a cookie is added, unless the lookup of the token fails. Postgres answers, the encoding of
  -- random bytes is never empty, and Redis and google/uuid behave as documented.
  pub guest-guest :
      (L : IsRedis P.redis) (U : IsUuid P) (deps : Deps) (r back : Request) (w : World P)
      (later : ℕ)
      → NeverEmpty P
      → ((n : ℕ) → P.pg_outcome n ≡ answered)
      → non_empty (r.cookie guest_cookie_name) ≡ none
      → Succeeds (guest {P = P} deps r w).0
      → w.now ≤ later
      → later < w.now + deps.guest_ttl
      → let first = guest {P = P} deps r w in
        (token : String) × (user : User) × (user.is_guest ≡ true)
        × (outcome first.0 ≡ record { status = 200; body = guest_user (P.uuid_string user.id) })
        × (first.1.cookies
            ≡ w.cookies ++ cookie_of r guest_cookie_name token (some deps.guest_max_age) ∷ [])
        × (first.1.db ≡ record (w.db) { users = w.db.users ++ user ∷ [] })
        × (let v : World P = record (first.1) { now = later } in
            let again = guest {P = P} deps (with_cookie guest_cookie_name token back) v in
            ((outcome again.0 ≡ outcome first.0)
              × (again.1.db ≡ first.1.db)
              × (again.1.cookies ≡ first.1.cookies))
            ⊎ ((GuestStore.get {P = P} token v).0 ≡ err other))
  unfolding GuestStore.get
  guest-guest L U deps r back w later drawn answers no_cookie h after before =
      let (token, user, is_guest, answer, cookies, db, ne, found, held) =
        guest_run L deps r w drawn no_cookie h in
      let v : World P = record (guest {P = P} deps r w).1 { now = later } in
      let got =
        live_answer guest_not_found user.id (w.now + deps.guest_ttl) later
          (resolved P guest_not_found (P.redis.get later (guest_key token) v.redis).0)
          (resolved-Resolves L U guest_not_found user.id (w.now + deps.guest_ttl) later
            (guest_key token) v.redis (held later after (omega arith)))
          before in
      (
        token,
        user,
        is_guest,
        answer,
        cookies,
        db,
        elim got [
          | inl resolves ↦
              let again = guest_back deps back v token user ne answers found is_guest resolves in
              inl (
                ap (λ z. outcome z.0) again ∙ sym answer,
                ap (λ z. z.1.db) again,
                ap (λ z. z.1.cookies) again,
              )
          | inr fails ↦ inr fails
        ],
      )
