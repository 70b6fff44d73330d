-- ===== src/Store/Postgres/Credentials.antt =====
-- internal/store/postgres/credential.go: the statements of the credential store, and its methods.
use go_passkey_auth.Prelude.{
  ℕ, zero, suc, ◌%◌, ◌^◌, Bool, not, ◌&&◌, ◌||◌, String, Option, none, some, List, [], ◌∷◌, ◌++◌,
  ◌==◌, if◌then◌else◌, any, find, keep, update, count, leb, Bytes, is_some, map, nat_eq, bytes_eq,
}
use go_passkey_auth.Domain.{
  Credential, Result, ok, err, credential_not_found, credential_exists, other,
}
use go_passkey_auth.Store.Tables.{CredentialRow, Db, Sql, row, no_rows, unique_violation, failure}
use go_passkey_auth.Store.Postgres.Run.{run_sql}
use go_passkey_auth.Store.Postgres.Users.{has_id}
use go_passkey_auth.Platform.{Platform, Call}

-- deleted_at IS NULL
abbrev pub is_live : CredentialRow → Bool
is_live r = not (is_some r.deleted_at)

abbrev pub has_key : ℕ → CredentialRow → Bool
has_key i r = r.columns.id == i

-- The rows that the partial unique index on `credential_id` holds.
abbrev pub is_live_with : Bytes → CredentialRow → Bool
is_live_with c r = r.columns.credential_id == c && is_live r

abbrev pub is_live_of : ℕ → CredentialRow → Bool
is_live_of u r = r.columns.user_id == u && is_live r

abbrev pub is_live_key : ℕ → CredentialRow → Bool
is_live_key i r = has_key i r && is_live r

-- uint32(count), of a BIGINT that was stored from a uint32
abbrev pub scanned : Credential → Credential
scanned c = record c { sign_count = c.sign_count % 2 ^ 32 }

-- INSERT INTO credentials … RETURNING …, under the primary key, the unique index and the reference
-- to `users`
unfoldable pub insert_credential : ℕ → ℕ → Credential → Db → Sql Credential × Db
insert_credential id now c db =
    if any (has_key id) db.credentials || any (is_live_with c.credential_id) db.credentials
    then (unique_violation, db)
    else if not (any (has_id c.user_id) db.users)
    then (failure, db)
    else let stored : Credential = record c { id = id; created_at = now; last_used_at = none } in
      let new : CredentialRow = record { columns = stored; deleted_at = none } in
      (row stored, record db { credentials = db.credentials ++ new ∷ [] })

abbrev pub first_columns : Option CredentialRow → Sql Credential
first_columns none = no_rows
first_columns (some r) = row r.columns

-- SELECT … WHERE credential_id = $1 AND deleted_at IS NULL
unfoldable pub select_live : Bytes → Db → Sql Credential × Db
select_live c db = (first_columns (find (is_live_with c) db.credentials), db)

-- ORDER BY created_at ASC, rows of one time in the order of their insertion
unfoldable pub insert_by_age : Credential → List Credential → List Credential
insert_by_age c [] = c ∷ []
insert_by_age c (d ∷ ds) =
    if leb c.created_at d.created_at then c ∷ d ∷ ds else d ∷ insert_by_age c ds

unfoldable pub order_by_age : List Credential → List Credential
order_by_age [] = []
order_by_age (c ∷ cs) = insert_by_age c (order_by_age cs)

abbrev pub columns_of : List CredentialRow → List Credential
columns_of [] = []
columns_of (r ∷ rs) = r.columns ∷ columns_of rs

-- SELECT … WHERE user_id = $1 AND deleted_at IS NULL ORDER BY created_at ASC
unfoldable pub select_by_user : ℕ → Db → Sql (List Credential) × Db
unfolding order_by_age insert_by_age
select_by_user u db = (row (order_by_age (columns_of (keep (is_live_of u) db.credentials))), db)

-- UPDATE credentials SET … WHERE …, answered by the number of rows
unfoldable pub update_rows :
    (CredentialRow → Bool) → (CredentialRow → CredentialRow) → Db → Sql ℕ × Db
update_rows test set db =
    (row (count test db.credentials), record db { credentials = update test set db.credentials })

abbrev pub set_assertion : ℕ → ℕ → Bool → Bool → CredentialRow → CredentialRow
set_assertion now sign_count be bs r = record r {
  columns = record (r.columns) {
    sign_count = sign_count;
    backup_eligible = be;
    backup_state = bs;
    last_used_at = some now;
  };
}

abbrev pub set_deleted : ℕ → CredentialRow → CredentialRow
set_deleted now r = record r { deleted_at = some now }

abbrev pub set_name : String → CredentialRow → CredentialRow
set_name name r = record r { columns = record (r.columns) { name = some name } }

-- `scanCredential`
abbrev pub scan_credential : Sql Credential → Result Credential
scan_credential (row c) = ok (scanned c)
scan_credential no_rows = err credential_not_found
scan_credential unique_violation = err other
scan_credential failure = err other

abbrev pub exists_if_unique : Sql Credential → Result Credential → Result Credential
exists_if_unique unique_violation scanned = err credential_exists
exists_if_unique _ scanned = scanned

-- The loop over the rows of a list query.
abbrev pub scan_all : Sql (List Credential) → Result (List Credential)
scan_all (row cs) = ok (map scanned cs)
scan_all _ = err other

-- `tag.RowsAffected() == 0` after an UPDATE
abbrev pub rows_affected : Sql ℕ → Result (Unit {0})
rows_affected (row zero) = err credential_not_found
rows_affected (row (suc _)) = ok tt
rows_affected _ = err other

module _ {P : Platform} where
  unfoldable pub insert : Credential → Call P Credential
  unfolding run_sql insert_credential
  insert c w =
      let (answer, w') = run_sql (insert_credential (P.new_uuid w.calls) w.now c) w in
      (exists_if_unique answer (scan_credential answer), w')

  unfoldable pub get_by_credential_id : Bytes → Call P Credential
  unfolding run_sql select_live
  get_by_credential_id c w =
      let (answer, w') = run_sql (select_live c) w in (scan_credential answer, w')

  unfoldable pub list_by_user_id : ℕ → Call P (List Credential)
  unfolding run_sql select_by_user
  list_by_user_id u w = let (answer, w') = run_sql (select_by_user u) w in (scan_all answer, w')

  unfoldable pub update_after_assertion : ℕ → ℕ → Bool → Bool → Call P (Unit {0})
  unfolding run_sql update_rows
  update_after_assertion id sign_count be bs w =
      let set = set_assertion w.now sign_count be bs in
      let (answer, w') = run_sql (update_rows (is_live_key id) set) w in (rows_affected answer, w')

  unfoldable pub rename : ℕ → String → Call P (Unit {0})
  unfolding run_sql update_rows
  rename id name w =
      let (answer, w') = run_sql (update_rows (is_live_key id) (set_name name)) w in
      (rows_affected answer, w')
