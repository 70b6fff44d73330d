-- ===== src/Api/Tables.antt =====
-- What the endpoints do to the two tables: a property of the tables is kept by every endpoint if the
-- statements that write keep it, and by every endpoint that writes none in any case.
pub mod Integrity
use go_passkey_auth.Prelude.{
  ℕ, Bool, true, false, String, Bytes, ◌≡◌, refl, if◌then◌else◌, leb, Option, none, some, inl, inr,
  Bool-cases,
}
use go_passkey_auth.Domain.{Result, ok, err, Err, Credential, last_credential}
use go_passkey_auth.Store.Tables.{Db, Sql}
use go_passkey_auth.Platform as Go
use go_passkey_auth.Platform.{
  Platform, PgOutcome, answered, refused, lost, World, Call, counted, raise,
}
use go_passkey_auth.Store.Postgres.Run.{run_sql}
use go_passkey_auth.Store.Postgres.Users.{
  insert_user, select_by_id, select_by_username, promote_user, get_by_id, get_by_username,
  create_guest, create_registered, promote_guest,
}
use go_passkey_auth.Store.Postgres.Credentials.{
  insert_credential, select_live, select_by_user, update_rows, is_live_key, set_assertion,
  set_deleted, has_key, get_by_credential_id, list_by_user_id, insert, update_after_assertion,
}
use go_passkey_auth.Store.Postgres.SoftDelete.{
  soft_delete, in_tx, tx_time, commit, mark_deleted, owner_or_error, count_or_error, lock_row,
  count_live, delete_counted, delete_owned, delete_begun,
}
use go_passkey_auth.Store.Redis.Token.{new_token}
use go_passkey_auth.Store.Redis.Challenge.{save, take}
use go_passkey_auth.Store.Redis.Session as SessionStore
use go_passkey_auth.Store.Redis.Guest as GuestStore
use go_passkey_auth.Api.Http.Ensures.{Preserves, Keeps, IgnoresLog, Preserves-bind}
use go_passkey_auth.Api.Kept.Deletion.{soft_delete-Preserves}
use go_passkey_auth.Api.Kept.{KeptByLookups, KeptByWrites, KeptBySaves}

-- The statements that write, and what they keep.
pub record KeptByStatements (D : Db → Type 0) : Type 0 where
  pub insert_user :
      (db : Db) (id now : ℕ) (n d : String) (g : Bool) → D db → D (insert_user id now n d g db).1
  pub promote_user : (db : Db) (now id : ℕ) (n d : String) → D db → D (promote_user now id n d db).1
  pub insert_credential :
      (db : Db) (id now : ℕ) (c : Credential) → D db → D (insert_credential id now c db).1
  pub update_assertion :
      (db : Db) (now id n : ℕ) (be bs : Bool)
      → D db
      → D (update_rows (is_live_key id) (set_assertion now n be bs) db).1
  pub mark_deleted : (db : Db) (now id : ℕ) → D db → D (mark_deleted now id db)

abbrev pub OnTables : {P : Platform} → (Db → Type 0) → World P → Type 0
OnTables D w = D w.db

module _ {P : Platform} (D : Db → Type 0) where
  run_sql-keeps :
      {A : Type 0} (statement : Db → Sql A × Db) (w : World P)
      → D w.db
      → D (statement w.db).1
      → D (run_sql statement w).1.db
  unfolding run_sql
  run_sql-keeps {A} statement w before after = go (P.pg_outcome w.calls)
    where
      go :
          (o : PgOutcome)
          → let r : Sql A × World P = elim o [
            | answered ↦ ((statement w.db).0, record (counted w) { db = (statement w.db).1 })
            | refused ↦ (Sql.failure, counted w)
            | lost ↦ (Sql.failure, record (counted w) { db = (statement w.db).1 })
          ] in
            D r.1.db
      go answered = after
      go refused = before
      go lost = after

  new_token-Preserves : Preserves (OnTables {P = P} D) (new_token {P = P})
  unfolding new_token
  new_token-Preserves = record { at = λ w q. go (P.rand_read w.calls 32) w q }
    where
      go :
          (o : Option Bytes) (w : World P)
          → D w.db
          → let r : Result String × World P = elim o [
            | none ↦ (err Err.other, counted w)
            | some b ↦ (ok (P.encode_base64 b), counted w)
          ] in
            D r.1.db
      go none w q = q
      go (some b) w q = q

  pub tables-KeptByLookups : KeptByLookups (OnTables {P = P} D)
  unfolding get_by_id get_by_username get_by_credential_id list_by_user_id take SessionStore.get
      SessionStore.delete GuestStore.get GuestStore.delete select_by_id select_by_username
      select_live select_by_user SessionStore.create GuestStore.create
  tables-KeptByLookups = record {
    log = record { at = λ lines w q. q };
    cookie = λ c. record { at = λ w q. q };
    count_call = record { at = λ w q. q };
    user_by_id = λ id. record { at = λ w q. run_sql-keeps (select_by_id id) w q q };
    user_by_name = λ n. record { at = λ w q. run_sql-keeps (select_by_username n) w q q };
    credential_by_id = λ c. record { at = λ w q. run_sql-keeps (select_live c) w q q };
    credentials_of = λ u. record { at = λ w q. run_sql-keeps (select_by_user u) w q q };
    take_challenge = λ s. record { at = λ w q. q };
    session_create = λ ttl u.
        Preserves-bind new_token
          (λ token.
            SessionStore.set_key (SessionStore.session_key token) token ttl (P.uuid_string u))
          new_token-Preserves (λ token. record { at = λ w q. q });
    session_get = λ t. record { at = λ w q. q };
    session_delete = λ t. record { at = λ w q. q };
    guest_create = λ ttl u.
        Preserves-bind new_token
          (λ token. SessionStore.set_key (GuestStore.guest_key token) token ttl (P.uuid_string u))
          new_token-Preserves (λ token. record { at = λ w q. q });
    guest_get = λ t. record { at = λ w q. q };
    guest_delete = λ t. record { at = λ w q. q };
  }

  pub tables-KeptBySaves : KeptBySaves (λ _. Unit {0}) (OnTables {P = P} D)
  unfolding save
  tables-KeptBySaves = record {
    drawn = λ w b q e. tt;
    save_challenge = λ ttl s payload fresh. record { at = λ w q. q };
  }

  in_tx-Preserves :
      {A : Type 0} (read : Db → Result A) → Preserves (OnTables D) (in_tx {P = P} read)
  in_tx-Preserves {A} read = record { at = λ w q. go (P.pg_outcome w.calls) w q }
    where
      go :
          (o : PgOutcome) (w : World P)
          → D w.db
          → let r : Result A × World P = elim o [
            | answered ↦ (read w.db, counted w)
            | refused ↦ (err Err.other, counted w)
            | lost ↦ (err Err.other, counted w)
          ] in
            D r.1.db
      go answered w q = q
      go refused w q = q
      go lost w q = q

  module _ (kept : KeptByStatements D) where
    commit-Preserves : (now id : ℕ) → Preserves (OnTables D) (commit {P = P} (mark_deleted now id))
    commit-Preserves now id = record { at = λ w q. go (P.pg_outcome w.calls) w q }
      where
        go :
            (o : PgOutcome) (w : World P)
            → D w.db
            → let r : Result (Unit {0}) × World P = elim o [
              | answered ↦ (ok tt, record (counted w) { db = mark_deleted now id w.db })
              | refused ↦ (err Err.other, counted w)
              | lost ↦ (err Err.other, record (counted w) { db = mark_deleted now id w.db })
            ] in
              D r.1.db
        go answered w q = kept.mark_deleted w.db now id q
        go refused w q = q
        go lost w q = kept.mark_deleted w.db now id q

    pub tables-KeptByWrites : KeptByWrites (OnTables {P = P} D)
    unfolding create_guest create_registered promote_guest insert update_after_assertion
    tables-KeptByWrites = record {
      new_guest_row = λ n d. record {
        at = λ w q.
            run_sql-keeps (insert_user (P.new_uuid w.calls) w.now n d true) w q
              (kept.insert_user w.db (P.new_uuid w.calls) w.now n d true q);
      };
      new_user_row = λ n d. record {
        at = λ w q.
            run_sql-keeps (insert_user (P.new_uuid w.calls) w.now n d false) w q
              (kept.insert_user w.db (P.new_uuid w.calls) w.now n d false q);
      };
      promotion = λ id n d. record {
        at = λ w q.
            run_sql-keeps (promote_user w.now id n d) w q (kept.promote_user w.db w.now id n d q);
      };
      new_credential = λ c. record {
        at = λ w q.
            run_sql-keeps (insert_credential (P.new_uuid w.calls) w.now c) w q
              (kept.insert_credential w.db (P.new_uuid w.calls) w.now c q);
      };
      assertion = λ id n be bs. record {
        at = λ w q.
            run_sql-keeps (update_rows (is_live_key id) (set_assertion w.now n be bs)) w q
              (kept.update_assertion w.db w.now id n be bs q);
      };
      deletion = soft_delete-Preserves (λ A. in_tx-Preserves) commit-Preserves;
    }
