-- ===== src/Store/Postgres/SoftDelete.antt =====
-- internal/store/postgres/credential.go, SoftDelete: one transaction of five calls.
--
-- Here no other transaction runs between its statements. What the transaction writes is seen when
-- it commits; `now()` is the time at which it began.
use go_passkey_auth.Prelude.{ℕ, Option, none, some, if◌then◌else◌, leb, find, count, update}
use go_passkey_auth.Domain.{Result, ok, err, credential_not_found, last_credential, other}
use go_passkey_auth.Store.Tables.{CredentialRow, Db, Sql, row, no_rows, unique_violation, failure}
use go_passkey_auth.Store.Postgres.Credentials.{has_key, is_live_key, is_live_of, set_deleted}
use go_passkey_auth.Platform.{Platform, Call, counted, answered, refused, lost, ◌>>=◌, ◌>>◌, raise}

abbrev pub first_owner : Option CredentialRow → Sql ℕ
first_owner none = no_rows
first_owner (some r) = row r.columns.user_id

-- SELECT user_id FROM credentials WHERE id = $1 AND deleted_at IS NULL FOR UPDATE
unfoldable pub lock_row : ℕ → Db → Sql ℕ
lock_row id db = first_owner (find (is_live_key id) db.credentials)

-- SELECT COUNT(*) FROM credentials WHERE user_id = $1 AND deleted_at IS NULL
unfoldable pub count_live : ℕ → Db → Sql ℕ
count_live u db = row (count (is_live_of u) db.credentials)

-- UPDATE credentials SET deleted_at = now() WHERE id = $1
unfoldable pub mark_deleted : ℕ → ℕ → Db → Db
mark_deleted now id db = record db {
  credentials = update (has_key id) (set_deleted now) db.credentials;
}

abbrev pub owner_or_error : Sql ℕ → Result ℕ
owner_or_error (row u) = ok u
owner_or_error no_rows = err credential_not_found
owner_or_error unique_violation = err other
owner_or_error failure = err other

abbrev pub count_or_error : Sql ℕ → Result ℕ
count_or_error (row n) = ok n
count_or_error _ = err other

module _ {P : Platform} where
  -- A call inside the transaction that only reads.
  abbrev pub in_tx : {A : Type 0} → (Db → Result A) → Call P A
  in_tx read w = elim (P.pg_outcome w.calls) [
    | answered ↦ (read w.db, counted w)
    | refused ↦ (err other, counted w)
    | lost ↦ (err other, counted w)
  ]

  -- `tx.Commit`, with what the transaction has written
  abbrev pub commit : (Db → Db) → Call P (Unit {0})
  commit written w = elim (P.pg_outcome w.calls) [
    | answered ↦ (ok tt, record (counted w) { db = written w.db })
    | refused ↦ (err other, counted w)
    | lost ↦ (err other, record (counted w) { db = written w.db })
  ]

  abbrev pub tx_time : Call P ℕ
  tx_time w = (ok w.now, w)

  -- After the count: the guard, the update and the commit.
  unfoldable pub delete_counted : ℕ → ℕ → ℕ → Call P (Unit {0})
  unfolding mark_deleted
  delete_counted now id live =
      if leb live 1
      then raise last_credential
      else in_tx (λ _. ok tt) >> commit (mark_deleted now id)

  -- After the lock: the count of the owner's live credentials.
  unfoldable pub delete_owned : ℕ → ℕ → ℕ → Call P (Unit {0})
  unfolding count_live delete_counted
  delete_owned now id owner =
      in_tx (λ db. count_or_error (count_live owner db)) >>= delete_counted now id

  unfoldable pub delete_begun : ℕ → ℕ → Call P (Unit {0})
  unfolding lock_row delete_owned
  delete_begun id now = in_tx (λ db. owner_or_error (lock_row id db)) >>= delete_owned now id

  unfoldable pub soft_delete : ℕ → Call P (Unit {0})
  unfolding delete_begun
  soft_delete id = in_tx (λ _. ok tt) >> (tx_time >>= delete_begun id)
