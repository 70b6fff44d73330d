-- ===== src/Store/Tables.antt =====
-- internal/store/postgres/migrations/000001_init.up.sql: the two tables, as lists of rows.
use go_passkey_auth.Prelude.{ℕ, List, [], Option}
use go_passkey_auth.Domain.{User, Credential}

-- A row of `credentials`: the columns that every query selects, and `deleted_at`. Here the field
-- `sign_count` is the BIGINT column.
pub record CredentialRow : Type 0 where
  pub columns : Credential
  pub deleted_at : Option ℕ

-- The rows of `users` have the fields of `domain.User`.
pub record Db : Type 0 where
  pub users : List User
  pub credentials : List CredentialRow

-- What the server answers to one statement.
pub data Sql (A : Type 0) : Type 0 where
  row : A → Sql A
  no_rows unique_violation failure : Sql A

abbrev pub empty_db : Db
empty_db = record { users = []; credentials = [] }
