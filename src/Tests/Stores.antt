-- ===== src/Tests/Stores.antt =====
-- The stores on concrete tables and a concrete server.
use go_passkey_auth.Prelude.{
  ℕ, ◌≡◌, refl, true, false, [], ◌∷◌, none, some, arith, ◌+◌, ◌≤◌, count, find,
}
use go_passkey_auth.Domain.{Credential, ok, session_not_found}
use go_passkey_auth.Store.Tables.{Db, empty_db}
use go_passkey_auth.Store.Postgres.Users.{insert_user}
use go_passkey_auth.Store.Postgres.Credentials.{insert_credential, is_live_of, is_live_key}
use go_passkey_auth.Store.Postgres.SoftDelete.{
  soft_delete, delete_begun, delete_owned, delete_counted, lock_row, count_live, mark_deleted,
}
use go_passkey_auth.Store.Postgres.Consistent.{
  IsConsistent, IsConsistent-empty, insert_user-IsConsistent, insert_credential-IsConsistent,
}
use go_passkey_auth.Store.Postgres.LastCredential.{soft_delete-keeps_one}
use go_passkey_auth.Store.Tables.{CredentialRow}
use go_passkey_auth.Store.Postgres.Race.{begun, committed, run_two, in_turn, run_two-in_turn}
use go_passkey_auth.Store.Redis.Token.{new_token}
use go_passkey_auth.Store.Redis.Session as SessionStore
use go_passkey_auth.Store.Redis.Guest as GuestStore
use go_passkey_auth.Store.Redis.Session.{session_key}
use go_passkey_auth.Store.Redis.Laws.{Resolves, get-create, session_view-guest}
use go_passkey_auth.Platform.{World}
use go_passkey_auth.Tests.Fixture.{platform, start, redis_server-IsRedis, platform-IsUuid}

abbrev pub credential_with : ℕ → Credential
credential_with n = record {
  id = 0;
  user_id = 1;
  credential_id = n ∷ [];
  public_key = [];
  webauthn_user_handle = 9 ∷ [];
  aaguid = none;
  sign_count = 0;
  transports = [];
  attestation_format = "none";
  attestation_type = "";
  backup_eligible = true;
  backup_state = true;
  name = none;
  created_at = 0;
  last_used_at = none;
}

abbrev pub alice_db : Db
alice_db = (insert_user 1 10 "alice" "Alice" false empty_db).1

abbrev pub two_passkeys : Db
two_passkeys =
    (insert_credential 3 12 (credential_with 8)
      (insert_credential 2 11 (credential_with 7) alice_db).1).1

pub two_passkeys-IsConsistent : IsConsistent two_passkeys
two_passkeys-IsConsistent = insert_credential-IsConsistent _ 3 12 (credential_with 8) (
    insert_credential-IsConsistent alice_db 2 11 (credential_with 7)
      (insert_user-IsConsistent empty_db 1 10 "alice" "Alice" false IsConsistent-empty))

abbrev pub with_passkeys : World platform
with_passkeys = record start { db = two_passkeys }

soft_delete_test : (soft_delete 2 with_passkeys).0 ≡ ok tt
unfolding soft_delete delete_begun delete_owned delete_counted lock_row count_live mark_deleted
    insert_user insert_credential
soft_delete_test = refl

soft_delete-keeps_one_example :
    ((u : ℕ)
      → 1 ≤ count (is_live_of u) two_passkeys.credentials
      → 1 ≤ count (is_live_of u) (soft_delete 2 with_passkeys).1.db.credentials)
    × ((soft_delete 2 with_passkeys).0 ≡ ok tt
        → (r : CredentialRow) × (find (is_live_key 2) two_passkeys.credentials ≡ some r)
          × (count (is_live_of r.columns.user_id) (soft_delete 2 with_passkeys).1.db.credentials + 1
              ≡ count (is_live_of r.columns.user_id) two_passkeys.credentials))
soft_delete-keeps_one_example = soft_delete-keeps_one 2 with_passkeys two_passkeys-IsConsistent

create_test : (SessionStore.create 1000 5 start).0 ≡ ok "a"
unfolding SessionStore.create new_token
create_test = refl

get-create_example :
    Resolves session_not_found 5 1100 500
      (SessionStore.get "a" (record (SessionStore.create 1000 5 start).1 { now = 500 })).0
get-create_example =
    get-create redis_server-IsRedis platform-IsUuid 1000 5 500 start "a" (omega arith) create_test
      (omega arith)

session_view-guest_example :
    let view = redis_server-IsRedis.view in
    (view (GuestStore.create 1000 5 start).1.redis 500 (session_key "b")
      ≡ view start.redis 500 (session_key "b"))
    × (view (GuestStore.get "b" start).1.redis 500 (session_key "b")
        ≡ view start.redis 500 (session_key "b"))
    × (view (GuestStore.delete "b" start).1.redis 500 (session_key "b")
        ≡ view start.redis 500 (session_key "b"))
session_view-guest_example =
    session_view-guest redis_server-IsRedis platform-IsUuid 1000 5 500 start "b" "b"

abbrev row_of : ℕ → ℕ → CredentialRow
row_of id n = record {
  columns = record (credential_with n) { id = id; created_at = 9 + id };
  deleted_at = none;
}

run_two-in_turn_example :
    let (p, q, after) = run_two 20 2 3 in_turn (begun, begun, two_passkeys) in
    (p ≡ committed) × (q ≡ committed) × (count (is_live_of 1) after.credentials ≡ 0)
unfolding insert_user insert_credential
run_two-in_turn_example =
    run_two-in_turn 20 2 3 1 (row_of 2 7) (row_of 3 8) two_passkeys two_passkeys-IsConsistent
      (omega arith) refl refl refl refl refl
