-- ===== src/Store/Postgres/Run.antt =====
-- internal/store/postgres: how a statement is run. The stores are in the child modules.
--
-- A statement is carried out as a whole, by its meaning on the two tables; the server may also
-- refuse it or lose its answer. Rows are in the order of their insertion.
use go_passkey_auth.Store.Tables.{Db, Sql, failure}
use go_passkey_auth.Platform.{Platform, answered, refused, lost, World, counted}

module _ {P : Platform} where
  unfoldable pub run_sql : {A : Type 0} → (Db → Sql A × Db) → World P → Sql A × World P
  run_sql statement w =
      let (answer, after) = statement w.db in
      elim (P.pg_outcome w.calls) [
        | answered ↦ (answer, record (counted w) { db = after })
        | refused ↦ (failure, counted w)
        | lost ↦ (failure, record (counted w) { db = after })
      ]
