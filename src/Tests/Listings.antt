-- ===== src/Tests/Listings.antt =====
-- The listing of a user with two passkeys.
use go_passkey_auth.Prelude.{◌≡◌, refl, [], ◌∷◌, count, ◌&&◌, ◌==◌, nat_eq, List, string_eq}
use go_passkey_auth.Domain.{Credential, ok}
use go_passkey_auth.Store.Postgres.Run.{run_sql}
use go_passkey_auth.Store.Postgres.Users.{insert_user}
use go_passkey_auth.Store.Postgres.Credentials.{
  insert_credential, list_by_user_id, select_by_user, order_by_age, insert_by_age, is_live_of,
  scanned,
}
use go_passkey_auth.Api.Listed.{IsByAge, list_by_user_id-IsByAge}
use go_passkey_auth.Tests.Stores.{with_passkeys, credential_with}

abbrev listed : List Credential
listed =
    record (credential_with 7) { id = 2; created_at = 11 }
    ∷ record (credential_with 8) { id = 3; created_at = 12 }
    ∷ []

list_test : (list_by_user_id 1 with_passkeys).0 ≡ ok listed
unfolding list_by_user_id select_by_user order_by_age insert_by_age run_sql insert_user
    insert_credential
list_test = refl

list_by_user_id-IsByAge_example :
    IsByAge listed
    × (count (λ (c : Credential). c.id == 3) listed
        ≡ count (λ r. is_live_of 1 r && (scanned r.columns).id == 3) with_passkeys.db.credentials)
list_by_user_id-IsByAge_example =
    list_by_user_id-IsByAge 1 with_passkeys listed (λ c. c.id == 3) list_test
