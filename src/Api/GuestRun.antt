-- ===== src/Api/GuestRun.antt =====
-- internal/api/handler/auth.go, Guest: a new guest, call by call, and what he leaves.
use go_passkey_auth.Prelude.{
  ℕ, true, false, any, find-append, ◌+◌, ◌≤◌, ◌<◌, String, ◌≡◌, ◌≢◌, refl, sym, ap, ◌∙◌, none, some,
  arith, List, [], ◌∷◌, ◌++◌, string_eq, nat_eq, ltb, if◌then◌else◌, find, nat_beq_iff,
}
use mathlib.Core.Path.{subst}
use go_passkey_auth.Domain.{ok, User}
use go_passkey_auth.Platform.{Platform, World, counted}
use go_passkey_auth.Platform.Redis.{IsRedis, value}
use go_passkey_auth.Store.Postgres.Run.{run_sql}
use go_passkey_auth.Store.Postgres.Users.{has_id}
use go_passkey_auth.Store.Redis.Token.{new_token}
use go_passkey_auth.Store.Redis.Guest as GuestStore
use go_passkey_auth.Store.Redis.Guest.{guest_key}
use go_passkey_auth.Api.Http.{Request, Step, next, write_json, modify, gets_call, respond, outcome}
use go_passkey_auth.Api.Http.Success.{
  Succeeds, bind-Runs, seq-Runs, attempt-next, attempt-Fails, internal_error-Fails,
  internal_error-Ends,
}
use go_passkey_auth.Api.Http.Ensures.{Ensures-modify, Ensures-gets_call}
use go_passkey_auth.Api.Cookie.{guest_cookie_name, cookie_of, non_empty, set_guest_cookie}
use go_passkey_auth.Api.Auth.Deps.{Deps}
use go_passkey_auth.Api.Http.Forward.{bind_next}
use go_passkey_auth.Store.Postgres.Effects.{new_user}
use go_passkey_auth.Store.Postgres.Users.{create_guest, insert_user}
use go_passkey_auth.Api.Http.{guest_user}
use go_passkey_auth.Api.Auth.Guest.{
  guest, new_guest, new_name, resolve_guest, reuse_or_create, user_of_token,
}
use go_passkey_auth.Api.Tokens.{NeverEmpty, guest_drawn}

find_last :
    (us : List User) (u : User)
    → any (has_id u.id) us ≡ false
    → find (has_id u.id) (us ++ u ∷ []) ≡ some u
find_last us u fresh =
    find-append (has_id u.id) us (u ∷ []) ∙ rw (fresh, (nat_beq_iff u.id u.id).1 refl) refl

module _ {P : Platform} where
  create_guest-ok :
      (n d : String) (w : World P) (u : User)
      → (create_guest {P = P} n d w).0 ≡ ok u
      → (u ≡ new_user (P.new_uuid w.calls) w.now n d true)
        × (any (has_id (P.new_uuid w.calls)) w.db.users ≡ false)
        × ((create_guest {P = P} n d w).1
            ≡ record (counted w) { db = record (w.db) { users = w.db.users ++ u ∷ [] } })
  unfolding create_guest run_sql insert_user
  create_guest-ok n d w u h = ground arith

  guest_create_inv :
      (ttl user_id : ℕ) (w : World P) (token : String)
      → (GuestStore.create {P = P} ttl user_id w).0 ≡ ok token
      → let s = P.redis.set w.now (guest_key token) (P.uuid_string user_id) ttl w.redis in
        (s.0 ≡ value tt)
        × ((GuestStore.create {P = P} ttl user_id w).1
            ≡ record (counted (counted w)) { redis = s.1 })
  unfolding GuestStore.create new_token
  guest_create_inv ttl user_id w token e = ground arith

  -- A request with no guest cookie asks for a new guest.
  guest_new :
      (deps : Deps) (r : Request) (w : World P)
      → non_empty (r.cookie guest_cookie_name) ≡ none
      → guest {P = P} deps r w ≡ new_guest {P = P} deps r w
  unfolding guest resolve_guest reuse_or_create gets_call
  guest_new deps r w e =
      bind_next (gets_call (resolve_guest {P = P} r)) _ w
        (ap (λ o. let (u, v) = user_of_token {P = P} o w in (next u, v)) e)

  -- A new guest that is answered without an error, call by call.
  new_guest_run :
      (deps : Deps) (r : Request) (w : World P)
      → Succeeds (new_guest {P = P} deps r w).0
      → (name : String) × (user : User) × (token : String) × ((create_guest {P = P} name "Guest"
            (counted w)).0
          ≡ ok user)
        × ((GuestStore.create {P = P} deps.guest_ttl user.id
              (create_guest {P = P} name "Guest" (counted w)).1).0
            ≡ ok token)
        × (new_guest {P = P} deps r w ≡ (
          respond (record { status = 200; body = guest_user (P.uuid_string user.id) }),
          set_guest_cookie r token deps.guest_max_age
              (GuestStore.create {P = P} deps.guest_ttl user.id
                (create_guest {P = P} name "Guest" (counted w)).1).1,
        ))
  unfolding new_guest write_json modify gets_call
  new_guest_run deps r w h =
      let (name, e1, h1, s1) =
        bind-Runs {m = gets_call (new_name {P = P})} _ w
          (Ensures-gets_call (record { at = λ w q. tt })) h in
      let make = create_guest {P = P} name "Guest" in
      let (user, e2, h2, s2) =
        bind-Runs _ _ (attempt-Fails make (λ e. internal_error-Fails _)) h1 in
      let mint = GuestStore.create {P = P} deps.guest_ttl user.id in
      let (token, e3, h3, s3) =
        bind-Runs _ _ (attempt-Fails mint (λ e. internal_error-Fails _)) h2 in
      let (_, e4, h4, s4) = seq-Runs _ _ (Ensures-modify (record { at = λ w q. tt })) h3 in
      let (made, q2) = attempt-next make _ _ (λ e. internal_error-Ends _) e2 in
      let (issued, q3) = attempt-next mint _ _ (λ e. internal_error-Ends _) e3 in
      let answer : World P → Step P ⊥ × World P = λ x. (
        respond (record { status = 200; body = guest_user (P.uuid_string user.id) }),
        set_guest_cookie r token deps.guest_max_age x,
      ) in
      (
        name,
        user,
        token,
        made,
        ap (λ x. (mint x).0) (sym q2) ∙ issued,
        s1 ∙ s2 ∙ s3 ∙ s4 ∙ ap answer q3 ∙ ap (λ x. answer (mint x).1) q2,
      )

  -- What a new guest leaves.
  pub guest_run :
      (L : IsRedis P.redis) (deps : Deps) (r : Request) (w : World P)
      → NeverEmpty P
      → non_empty (r.cookie guest_cookie_name) ≡ none
      → Succeeds (guest {P = P} deps r w).0
      → let first = guest {P = P} deps r w in
        (token : String) × (user : User) × (user.is_guest ≡ true)
        × (outcome first.0 ≡ record { status = 200; body = guest_user (P.uuid_string user.id) })
        × (first.1.cookies
            ≡ w.cookies ++ cookie_of r guest_cookie_name token (some deps.guest_max_age) ∷ [])
        × (first.1.db ≡ record (w.db) { users = w.db.users ++ user ∷ [] })
        × (token ≢ "")
        × (find (has_id user.id) first.1.db.users ≡ some user)
        × ((later : ℕ)
            → w.now ≤ later
            → 0 < deps.guest_ttl
            → L.view first.1.redis later (guest_key token)
              ≡ (if ltb later (w.now + deps.guest_ttl) then some (P.uuid_string user.id) else none))
  guest_run L deps r w drawn no_cookie h =
      let start = guest_new deps r w no_cookie in
      let (name, user, token, made, issued, ran) =
        new_guest_run deps r w (subst (λ z. Succeeds {P = P} z.0) start h) in
      let (is_new, fresh, stored) = create_guest-ok name "Guest" (counted w) user made in
      let there : World P = (create_guest {P = P} name "Guest" (counted w)).1 in
      let (replied, minted) = guest_create_inv deps.guest_ttl user.id there token issued in
      let whole = start ∙ ran in
      let db = ap (λ z. z.1.db) whole ∙ ap (λ v. v.db) minted ∙ ap (λ v. v.db) stored in
      let now : there.now ≡ w.now = ap (λ v. v.now) stored in
      (
        token,
        user,
        ap (λ u. u.is_guest) is_new,
        ap (λ z. outcome z.0) whole,
        ap (λ z. z.1.cookies) whole
            ∙ ap
                (λ v.
                  v.cookies ++ cookie_of r guest_cookie_name token (some deps.guest_max_age) ∷ [])
                (minted
                  ∙ ap
                      (λ v.
                        let s =
                          P.redis.set there.now (guest_key token) (P.uuid_string user.id)
                            deps.guest_ttl there.redis in
                        record (counted (counted v)) { redis = s.1 })
                      stored),
        db,
        guest_drawn deps.guest_ttl user.id there token drawn issued,
        ap (λ d. find (has_id user.id) d.users) db
            ∙ find_last w.db.users user (ap (λ u. any (has_id u.id) w.db.users) is_new ∙ fresh),
        λ later after lasts.
            ap (λ z. L.view z.1.redis later (guest_key token)) whole
            ∙ ap (λ v. L.view v.redis later (guest_key token)) minted
            ∙ L.set_value there.now later deps.guest_ttl (guest_key token) (P.uuid_string user.id)
                there.redis lasts replied (rw now after)
            ∙ ap
                (λ t. if ltb later (t + deps.guest_ttl) then some (P.uuid_string user.id) else none)
                now,
      )
