-- ===== src/Api/Tables/Integrity.antt =====
-- The integrity of the tables over every history, and the endpoints that write no row.
use go_passkey_auth.Prelude.{ℕ, Bool, true, false, String, ◌≡◌, refl, sym, List, [], ◌∷◌, arith}
use mathlib.Core.Bool.{false≢true}
use go_passkey_auth.Domain.{Credential}
use go_passkey_auth.Store.Tables.{Db}
use go_passkey_auth.Store.Postgres.Users.{insert_user, promote_user}
use go_passkey_auth.Store.Postgres.Credentials.{
  insert_credential, update_rows, is_live_key, has_key, set_assertion, set_deleted, set_name,
}
use go_passkey_auth.Store.Postgres.SoftDelete.{mark_deleted}
use go_passkey_auth.Store.Postgres.Consistent.{
  IsConsistent, insert_user-IsConsistent, promote_user-IsConsistent, insert_credential-IsConsistent,
  update_rows-IsConsistent,
}
use go_passkey_auth.Platform.{Platform, World}
use go_passkey_auth.Api.Http.{Request}
use go_passkey_auth.Api.Http.Stable.{IsStable}
use go_passkey_auth.Api.Auth.Deps.{Deps}
use go_passkey_auth.Api.Router.{Route, serve, handler_of, Event, request, elapse, run_event, run}
use go_passkey_auth.Api.Tables.{
  KeptByStatements, tables-KeptByLookups, tables-KeptBySaves, tables-KeptByWrites,
}
use go_passkey_auth.Api.Kept.Routes.{serve-Ensures}
use go_passkey_auth.Api.Kept.Endpoints.{begin_register-Ensures, begin_login-Ensures}
use go_passkey_auth.Api.Kept.Guests.{begin_promote-Ensures}
use go_passkey_auth.Api.Kept.Members.{
  logout-Ensures, require_session-Ensures, me-Ensures, list_credentials-Ensures,
}
use go_passkey_auth.Api.Users.{me, list_credentials}

mark_deleted-IsConsistent :
    (db : Db) (now id : ℕ) → IsConsistent db → IsConsistent (mark_deleted now id db)
unfolding mark_deleted update_rows
mark_deleted-IsConsistent db now id h =
    update_rows-IsConsistent (has_key id) (set_deleted now) db (λ r. refl) (λ r. refl)
      (λ b r e. ground arith) h

pub IsConsistent-KeptByStatements : KeptByStatements IsConsistent
IsConsistent-KeptByStatements = record {
  insert_user = insert_user-IsConsistent;
  promote_user = promote_user-IsConsistent;
  insert_credential = insert_credential-IsConsistent;
  update_assertion = λ db now id n be bs h.
      update_rows-IsConsistent (is_live_key id) (set_assertion now n be bs) db (λ r. refl)
        (λ r. refl) (λ b r e. e) h;
  mark_deleted = mark_deleted-IsConsistent;
}

-- The statements that write, one by one, from whatever requests they come.
pub data Writes : Db → Db → Type 0 where
  user_row :
      (db : Db) (id now : ℕ) (n d : String) (g : Bool) → Writes db (insert_user id now n d g db).1
  promotion : (db : Db) (now id : ℕ) (n d : String) → Writes db (promote_user now id n d db).1
  credential_row :
      (db : Db) (id now : ℕ) (c : Credential) → Writes db (insert_credential id now c db).1
  assertion :
      (db : Db) (now id n : ℕ) (be bs : Bool)
      → Writes db (update_rows (is_live_key id) (set_assertion now n be bs) db).1
  renaming :
      (db : Db) (id : ℕ) (n : String) → Writes db (update_rows (is_live_key id) (set_name n) db).1
  deletion : (db : Db) (now id : ℕ) → Writes db (mark_deleted now id db)

pub data Interleaved (from : Db) : Db → Type 0 where
  start : Interleaved from from
  then_write : {db after : Db} → Interleaved from db → Writes db after → Interleaved from after

Writes-IsConsistent : {db after : Db} → Writes db after → IsConsistent db → IsConsistent after
Writes-IsConsistent (user_row db id now n d g) h = insert_user-IsConsistent db id now n d g h
Writes-IsConsistent (promotion db now id n d) h = promote_user-IsConsistent db now id n d h
Writes-IsConsistent (credential_row db id now c) h = insert_credential-IsConsistent db id now c h
Writes-IsConsistent (assertion db now id n be bs) h =
    IsConsistent-KeptByStatements.update_assertion db now id n be bs h
Writes-IsConsistent (renaming db id n) h =
    update_rows-IsConsistent (is_live_key id) (set_name n) db (λ r. refl) (λ r. refl) (λ b r e. e) h
Writes-IsConsistent (deletion db now id) h = mark_deleted-IsConsistent db now id h

-- From consistent tables, every interleaving of the stores' writing statements, of any number of
-- requests, leads to consistent tables.
pub Interleaved-IsConsistent :
    {from after : Db} → Interleaved from after → IsConsistent from → IsConsistent after
Interleaved-IsConsistent start h = h
Interleaved-IsConsistent (then_write steps write) h =
    Writes-IsConsistent write (Interleaved-IsConsistent steps h)

module _ {P : Platform} where
  run_event-IsConsistent :
      (deps : Deps) (e : Event) (w : World P)
      → IsConsistent w.db
      → IsConsistent (run_event deps e w).db
  unfolding run_event
  run_event-IsConsistent deps (request route r) w h =
      (serve-Ensures (tables-KeptByLookups IsConsistent)
        (tables-KeptByWrites IsConsistent IsConsistent-KeptByStatements)
        (tables-KeptBySaves IsConsistent) deps route r w h).0
  run_event-IsConsistent deps (elapse n) w h = h

  -- From consistent tables, every history of requests, with whatever failures of the databases, the
  -- random source and the library, leads to consistent tables.
  pub run-IsConsistent :
      (deps : Deps) (es : List Event) (w : World P)
      → IsConsistent w.db
      → IsConsistent (run deps es w).db
  unfolding run
  run-IsConsistent deps [] w h = h
  run-IsConsistent deps (e ∷ es) w h =
      run-IsConsistent deps es (run_event deps e w) (run_event-IsConsistent deps e w h)

  -- Every request, in every state, is answered by an error of the table of codes, with the code's
  -- message and status, by a 200 with a body that is no error, or by a 204 with none.
  pub serve-IsStable :
      (deps : Deps) (route : Route) (r : Request) (w : World P) → IsStable (serve deps route r w).0
  serve-IsStable deps route r w =
      (serve-Ensures (tables-KeptByLookups (λ _. Unit {0}))
        (tables-KeptByWrites (λ _. Unit {0}) anything) (tables-KeptBySaves (λ _. Unit {0})) deps
        route r w tt).1
    where
      anything : KeptByStatements (λ _. Unit {0})
      anything = record {
        insert_user = λ _ _ _ _ _ _ _. tt;
        promote_user = λ _ _ _ _ _ _. tt;
        insert_credential = λ _ _ _ _ _. tt;
        update_assertion = λ _ _ _ _ _ _ _. tt;
        mark_deleted = λ _ _ _ _. tt;
      }

-- The endpoints whose handlers write no row.
abbrev pub writes_rows : Route → Bool
writes_rows Route.register_begin = false
writes_rows Route.login_begin = false
writes_rows Route.promote_begin = false
writes_rows Route.logout_route = false
writes_rows Route.users_me = false
writes_rows Route.users_credentials = false
writes_rows _ = true

abbrev SameDb : {P : Platform} → World P → Db → Type 0
SameDb w db = db ≡ w.db

module _ {P : Platform} where
  handler_of-db :
      (deps : Deps) (route : Route) (r : Request) (w : World P)
      → writes_rows route ≡ false
      → (handler_of deps route r w).1.db ≡ w.db
  unfolding handler_of
  handler_of-db deps Route.register_begin r w e =
      ((begin_register-Ensures (tables-KeptByLookups (SameDb w)) (tables-KeptBySaves (SameDb w))
          deps r).at
        w refl).0
  handler_of-db deps Route.login_begin r w e =
      ((begin_login-Ensures (tables-KeptByLookups (SameDb w)) (tables-KeptBySaves (SameDb w))
          deps).at
        w refl).0
  handler_of-db deps Route.promote_begin r w e =
      ((begin_promote-Ensures (tables-KeptByLookups (SameDb w)) (tables-KeptBySaves (SameDb w)) deps
          r).at
        w refl).0
  handler_of-db deps Route.logout_route r w e =
      ((logout-Ensures (tables-KeptByLookups (SameDb w)) r).at w refl).0
  handler_of-db deps Route.users_me r w e =
      ((require_session-Ensures (tables-KeptByLookups (SameDb w)) me
          (me-Ensures (tables-KeptByLookups (SameDb w))) r).at
        w refl).0
  handler_of-db deps Route.users_credentials r w e =
      ((require_session-Ensures (tables-KeptByLookups (SameDb w)) list_credentials
          (list_credentials-Ensures (tables-KeptByLookups (SameDb w))) r).at
        w refl).0
  handler_of-db deps _ r w e = absurd (false≢true (sym e))

  -- Beginning a ceremony, logging out and reading one's data leave both tables as they are, whatever
  -- the request and the failures: an abandoned ceremony leaves no row.
  pub serve-db :
      (deps : Deps) (route : Route) (r : Request) (w : World P)
      → writes_rows route ≡ false
      → (serve deps route r w).1.db ≡ w.db
  unfolding serve
  serve-db deps route r w e = handler_of-db deps route r (record w { cookies = [] }) e
