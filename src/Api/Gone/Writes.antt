-- ===== src/Api/Gone/Writes.antt =====
-- The statements that change a table keep what Redis no longer holds.
use go_passkey_auth.Prelude.{ℕ, true, false, String, string_eq}
use go_passkey_auth.Domain.{Result, ok, err, Err}
use go_passkey_auth.Store.Tables.{Db}
use go_passkey_auth.Platform.{Platform, PgOutcome, answered, refused, lost, World, counted}
use go_passkey_auth.Platform.Redis.{IsRedis}
use go_passkey_auth.Store.Postgres.Users.{
  insert_user, promote_user, create_guest, create_registered, promote_guest,
}
use go_passkey_auth.Store.Postgres.Credentials.{
  insert_credential, update_rows, is_live_key, set_assertion, insert, update_after_assertion,
}
use go_passkey_auth.Store.Postgres.SoftDelete.{in_tx, commit, mark_deleted}
use go_passkey_auth.Api.Http.Ensures.{Preserves}
use go_passkey_auth.Api.Kept.Deletion.{soft_delete-Preserves}
use go_passkey_auth.Api.Kept.{KeptByWrites}
use go_passkey_auth.Api.Gone.{Spent, Spent-db, Spent-counted, run_sql-Spent}

module _ {P : Platform} (L : IsRedis P.redis) (from : ℕ) (key : String) where
  in_tx-Preserves :
      {A : Type 0} (read : Db → Result A) → Preserves (Spent L from key) (in_tx {P = P} read)
  in_tx-Preserves {A} read = record { at = λ w s. go (P.pg_outcome w.calls) w s }
    where
      go :
          (o : PgOutcome) (w : World P)
          → Spent L from key w
          → let r : Result A × World P = elim o [
            | answered ↦ (read w.db, counted w)
            | refused ↦ (err Err.other, counted w)
            | lost ↦ (err Err.other, counted w)
          ] in
            Spent L from key r.1
      go answered w s = Spent-counted L from key w s
      go refused w s = Spent-counted L from key w s
      go lost w s = Spent-counted L from key w s

  commit-Preserves : (written : Db → Db) → Preserves (Spent L from key) (commit {P = P} written)
  commit-Preserves written = record { at = λ w s. go (P.pg_outcome w.calls) w s }
    where
      go :
          (o : PgOutcome) (w : World P)
          → Spent L from key w
          → let r : Result (Unit {0}) × World P = elim o [
            | answered ↦ (ok tt, record (counted w) { db = written w.db })
            | refused ↦ (err Err.other, counted w)
            | lost ↦ (err Err.other, record (counted w) { db = written w.db })
          ] in
            Spent L from key r.1
      go answered w s = Spent-db L from key w (written w.db) s
      go refused w s = Spent-counted L from key w s
      go lost w s = Spent-db L from key w (written w.db) s

  pub Spent-KeptByWrites : KeptByWrites (Spent {P = P} L from key)
  unfolding create_guest create_registered promote_guest insert update_after_assertion
  Spent-KeptByWrites = record {
    new_guest_row = λ n d. record {
      at = λ w. run_sql-Spent L from key (insert_user (P.new_uuid w.calls) w.now n d true) w;
    };
    new_user_row = λ n d. record {
      at = λ w. run_sql-Spent L from key (insert_user (P.new_uuid w.calls) w.now n d false) w;
    };
    promotion =
        λ id n d. record { at = λ w. run_sql-Spent L from key (promote_user w.now id n d) w };
    new_credential = λ c. record {
      at = λ w. run_sql-Spent L from key (insert_credential (P.new_uuid w.calls) w.now c) w;
    };
    assertion = λ id n be bs. record {
      at = λ w.
          run_sql-Spent L from key (update_rows (is_live_key id) (set_assertion w.now n be bs)) w;
    };
    deletion =
        soft_delete-Preserves (λ A. in_tx-Preserves)
          (λ now id. commit-Preserves (mark_deleted now id));
  }
