-- ===== src/Store/Postgres/Effects.antt =====
-- What a call of the stores that returned without an error found, and what it wrote.
use go_passkey_auth.Prelude.{
  ℕ, Bool, true, false, String, none, some, ◌≡◌, [], ◌∷◌, ◌++◌, arith, any, find, update,
  Option-cases, inl, inr,
}
use go_passkey_auth.Domain.{User, Credential, ok}
use go_passkey_auth.Store.Tables.{CredentialRow}
use go_passkey_auth.Store.Postgres.Run.{run_sql}
use go_passkey_auth.Store.Postgres.Users.{
  has_id, is_registered_as, is_guest_row, insert_user, promoted, promote_user, create_registered,
  promote_guest,
}
use go_passkey_auth.Store.Postgres.Credentials.{is_live_with, scanned, insert_credential, insert}
use go_passkey_auth.Platform.{Platform, World}

abbrev pub new_user : ℕ → ℕ → String → String → Bool → User
new_user id now username display_name is_guest = record {
  id = id;
  username = username;
  display_name = display_name;
  is_guest = is_guest;
  created_at = now;
  promoted_at = none;
}

-- The row that an INSERT of a credential writes.
abbrev pub new_row : ℕ → ℕ → Credential → CredentialRow
new_row id now c = record {
  columns = record c { id = id; created_at = now; last_used_at = none };
  deleted_at = none;
}

module _ {P : Platform} (w : World P) where
  pub create_registered-ok :
      (n d : String) (u : User)
      → (create_registered n d w).0 ≡ ok u
      → (u ≡ new_user (P.new_uuid w.calls) w.now n d false)
        × (any (is_registered_as n) w.db.users ≡ false)
        × ((create_registered n d w).1.db ≡ record (w.db) { users = w.db.users ++ u ∷ [] })
        × ((create_registered n d w).1.now ≡ w.now)
  unfolding create_registered run_sql insert_user
  create_registered-ok n d u h = ground arith

  pub promote_guest-ok :
      (id : ℕ) (n d : String) (u : User)
      → (promote_guest id n d w).0 ≡ ok u
      → (g : User) × (find (is_guest_row id) w.db.users ≡ some g)
        × (u ≡ promoted w.now n d g)
        × (any (is_registered_as n) w.db.users ≡ false)
        × ((promote_guest id n d w).1.db
            ≡ record (w.db) { users = update (is_guest_row id) (promoted w.now n d) w.db.users })
        × ((promote_guest id n d w).1.now ≡ w.now)
  unfolding promote_guest run_sql promote_user
  promote_guest-ok id n d u h = elim (Option-cases (find (is_guest_row id) w.db.users)) [
    | inl e ↦ ground (arith, e)
    | inr (g, e) ↦ (g, e, ground arith, ground arith, ground arith, ground arith)
  ]

  pub insert-ok :
      (c s : Credential)
      → (insert c w).0 ≡ ok s
      → let r = new_row (P.new_uuid w.calls) w.now c in
        (s ≡ scanned r.columns)
        × (any (is_live_with c.credential_id) w.db.credentials ≡ false)
        × (any (has_id c.user_id) w.db.users ≡ true)
        × ((insert c w).1.db ≡ record (w.db) { credentials = w.db.credentials ++ r ∷ [] })
  unfolding insert run_sql insert_credential
  insert-ok c s h = ground arith
