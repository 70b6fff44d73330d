-- ===== src/Api/Auth/Guest.antt =====
-- internal/api/handler/auth.go: Guest.
use Prim.Native.String.{◌++◌ as append}
use go_passkey_auth.Prelude.{ℕ, String, Option, none, some, if◌then◌else◌}
use go_passkey_auth.Domain.{Result, ok, err, User}
use go_passkey_auth.Platform.{Platform, World, counted}
use go_passkey_auth.Store.Postgres.Users.{get_by_id, create_guest}
use go_passkey_auth.Store.Redis.Guest as GuestStore
use go_passkey_auth.Api.Http.{
  Request, Handler, ◌>>=◌, ◌>>◌, write_json, internal_error, attempt, gets_call, modify, guest_user,
}
use go_passkey_auth.Api.Cookie.{guest_cookie_name, non_empty, set_guest_cookie}
use go_passkey_auth.Api.Auth.Deps.{Deps}

module _ {P : Platform} where
  -- The user behind a guest token, `none` on any failure.
  abbrev pub user_of_id : Result ℕ → World P → Option User × World P
  user_of_id (err _) w = (none, w)
  user_of_id (ok id) w =
      let (r, w') = get_by_id id w in elim r [ ok u ↦ (some u, w') | err _ ↦ (none, w') ]

  abbrev pub user_of_token : Option String → World P → Option User × World P
  user_of_token none w = (none, w)
  user_of_token (some token) w = let (r, w') = GuestStore.get token w in user_of_id r w'

  -- `resolveGuest`
  unfoldable pub resolve_guest : Request → World P → Option User × World P
  resolve_guest r = user_of_token (non_empty (r.cookie guest_cookie_name))

  abbrev pub new_name : World P → String × World P
  new_name w = (append "guest-" (P.uuid_string (P.new_uuid w.calls)), counted w)

  -- A new guest row, with its token and cookie.
  unfoldable pub new_guest : Deps → Request → Handler P ⊥
  new_guest deps r = do
    username ← gets_call new_name
    user ← attempt (create_guest username "Guest") (λ _. internal_error "guest: create user")
    token ←
        attempt (GuestStore.create deps.guest_ttl user.id) (λ _. internal_error "guest: mint token")
    modify (set_guest_cookie r token deps.guest_max_age)
    write_json 200 (guest_user (P.uuid_string user.id))

  unfoldable pub reuse_or_create : Deps → Request → Option User → Handler P ⊥
  reuse_or_create deps r none = new_guest deps r
  reuse_or_create deps r (some user) =
      if user.is_guest
      then write_json 200 (guest_user (P.uuid_string user.id))
      else new_guest deps r

  unfoldable pub guest : Deps → Request → Handler P ⊥
  guest deps r = do found ← gets_call (resolve_guest r); reuse_or_create deps r found
