-- ===== src/Api/Kept.antt =====
-- The calls that the handlers make, sorted by what they may change. A property of the world that
-- the calls of a handler keep is kept by the handler: see the child modules.
pub mod Deletion
pub mod Steps
pub mod Endpoints
pub mod Guests
pub mod Members
pub mod Routes
use go_passkey_auth.Prelude.{ℕ, Bool, String, Bytes, ◌≡◌, some}
use go_passkey_auth.Domain.{Credential}
use go_passkey_auth.Platform.{Platform, World, counted, Cookie}
use go_passkey_auth.Store.Postgres.Users.{
  get_by_id, get_by_username, create_guest, create_registered, promote_guest,
}
use go_passkey_auth.Store.Postgres.Credentials.{
  get_by_credential_id, list_by_user_id, insert, update_after_assertion,
}
use go_passkey_auth.Store.Postgres.SoftDelete.{soft_delete}
use go_passkey_auth.Store.Redis.Challenge.{save, take}
use go_passkey_auth.Store.Redis.Session as SessionStore
use go_passkey_auth.Store.Redis.Guest as GuestStore
use go_passkey_auth.Api.Http.Ensures.{Preserves, Keeps, IgnoresLog}
use go_passkey_auth.Api.Cookie.{set_cookie}

module _ {P : Platform} where
  -- Logging, cookies, the lookups, and the tokens of sessions and guests.
  pub record KeptByLookups (Q : World P → Type 0) : Type 0 where
    pub log : IgnoresLog Q
    pub cookie : (c : Cookie) → Keeps Q (set_cookie c)
    pub count_call : Keeps Q counted
    pub user_by_id : (id : ℕ) → Preserves Q (get_by_id id)
    pub user_by_name : (n : String) → Preserves Q (get_by_username n)
    pub credential_by_id : (c : Bytes) → Preserves Q (get_by_credential_id c)
    pub credentials_of : (u : ℕ) → Preserves Q (list_by_user_id u)
    pub take_challenge : (s : String) → Preserves Q (take s)
    pub session_create : (ttl u : ℕ) → Preserves Q (SessionStore.create ttl u)
    pub session_get : (t : String) → Preserves Q (SessionStore.get t)
    pub session_delete : (t : String) → Preserves Q (SessionStore.delete t)
    pub guest_create : (ttl u : ℕ) → Preserves Q (GuestStore.create ttl u)
    pub guest_get : (t : String) → Preserves Q (GuestStore.get t)
    pub guest_delete : (t : String) → Preserves Q (GuestStore.delete t)

  -- The statements that change a table.
  pub record KeptByWrites (Q : World P → Type 0) : Type 0 where
    pub new_guest_row : (n d : String) → Preserves Q (create_guest n d)
    pub new_user_row : (n d : String) → Preserves Q (create_registered n d)
    pub promotion : (id : ℕ) (n d : String) → Preserves Q (promote_guest id n d)
    pub new_credential : (c : Credential) → Preserves Q (insert c)
    pub assertion : (id n : ℕ) (be bs : Bool) → Preserves Q (update_after_assertion id n be bs)
    pub deletion : (id : ℕ) → Preserves Q (soft_delete id)

  -- The start of a ceremony: the session id is drawn, which makes it `Fresh`.
  pub record KeptBySaves (Fresh : String → Type 0) (Q : World P → Type 0) : Type 0 where
    pub drawn :
        (w : World P) (b : Bytes)
        → Q w
        → P.rand_read w.calls 32 ≡ some b
        → Fresh (P.encode_base64 b)
    pub save_challenge : (ttl : ℕ) (s payload : String) → Fresh s → Preserves Q (save ttl s payload)
