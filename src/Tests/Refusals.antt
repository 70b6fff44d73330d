-- ===== src/Tests/Refusals.antt =====
-- Users who ask to delete passkeys, and a readiness probe.
use go_passkey_auth.Prelude.{Bool, true, false, Option, ◌≡◌, ◌≢◌, ◌↔◌, ◌⊎◌, refl, some}
use go_passkey_auth.Store.Postgres.Users.{insert_user}
use go_passkey_auth.Store.Postgres.Credentials.{insert_credential}
use go_passkey_auth.Api.Http.{Request, outcome, error_body, readiness}
use go_passkey_auth.Api.Health.{ready}
use go_passkey_auth.Api.Readiness.{ready_iff}
use go_passkey_auth.Api.Decided.{deletion_of, delete_credential-deletion_of}
use go_passkey_auth.Api.Users.{delete_credential}
use go_passkey_auth.Api.Foreign.{delete_credential-foreign}
use go_passkey_auth.Tests.Fixture.{platform, request_of}
use go_passkey_auth.Tests.Stores.{with_passkeys, two_passkeys, two_passkeys-IsConsistent}

-- Of the user 2, for the key 2 of the user 1.
abbrev foreign_request : Request
foreign_request = record (request_of "") { context_user = some 2; id_param = "aa" }

delete_credential-foreign_example :
    (outcome (delete_credential foreign_request with_passkeys).0
      ≡ record { status = 404; body = error_body "not_found" "Resource not found." })
    × ((delete_credential foreign_request with_passkeys).1.db ≡ with_passkeys.db)
unfolding insert_user insert_credential
delete_credential-foreign_example =
    delete_credential-foreign foreign_request with_passkeys 2 2 refl refl refl refl

-- Of the user 1, for his own key 2 beside the key 3.
abbrev own_request : Request
own_request = record (request_of "") { context_user = some 1; id_param = "aa" }

delete_credential-deletion_of_example :
    (outcome (delete_credential own_request with_passkeys).0
      ≡ (deletion_of {L = platform.lib} 1 2 100 two_passkeys).0)
    × ((delete_credential own_request with_passkeys).1.db
        ≡ (deletion_of {L = platform.lib} 1 2 100 two_passkeys).1)
delete_credential-deletion_of_example =
    delete_credential-deletion_of own_request with_passkeys 1 2 refl refl (λ n. refl)
      two_passkeys-IsConsistent

ready_iff_example :
    ((ready {L = platform.lib} (some true) (some false)).status ≡ 200
      ↔ (◌≢◌ {A = Option Bool} (some true) (some false))
        × (◌≢◌ {A = Option Bool} (some false) (some false)))
    × ((ready {L = platform.lib} (some true) (some false)
          ≡ record { status = 200; body = readiness "ok" (some "ok") (some "down") })
        ⊎ (ready {L = platform.lib} (some true) (some false)
            ≡ record { status = 503; body = readiness "degraded" (some "ok") (some "down") }))
ready_iff_example = ready_iff (some true) (some false)
