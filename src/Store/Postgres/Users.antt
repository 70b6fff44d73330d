-- ===== src/Store/Postgres/Users.antt =====
-- internal/store/postgres/user.go: the statements of the user store, and its methods.
use go_passkey_auth.Prelude.{
  ℕ, Bool, true, false, not, ◌&&◌, ◌||◌, String, Option, none, some, [], ◌∷◌, ◌++◌, ◌==◌,
  if◌then◌else◌, any, find, update, nat_eq, string_eq,
}
use go_passkey_auth.Domain.{User, Result, ok, err, user_not_found, username_taken, other}
use go_passkey_auth.Store.Tables.{Db, Sql, row, no_rows, unique_violation, failure}
use go_passkey_auth.Store.Postgres.Run.{run_sql}
use go_passkey_auth.Platform.{Platform, Call}

abbrev pub has_id : ℕ → User → Bool
has_id i u = u.id == i

-- The rows that the partial unique index on `username` holds.
abbrev pub is_registered_as : String → User → Bool
is_registered_as n u = not u.is_guest && u.username == n

abbrev pub is_guest_row : ℕ → User → Bool
is_guest_row i u = has_id i u && u.is_guest

-- INSERT INTO users … RETURNING …, under the primary key and the unique index
unfoldable pub insert_user : ℕ → ℕ → String → String → Bool → Db → Sql User × Db
insert_user id now username display_name is_guest db =
    if any (has_id id) db.users || (not is_guest && any (is_registered_as username) db.users)
    then (unique_violation, db)
    else let u : User = record {
      id = id;
      username = username;
      display_name = display_name;
      is_guest = is_guest;
      created_at = now;
      promoted_at = none;
    } in
      (row u, record db { users = db.users ++ u ∷ [] })

abbrev pub first_row : {A : Type 0} → Option A → Sql A
first_row none = no_rows
first_row (some a) = row a

-- SELECT … FROM users WHERE id = $1
unfoldable pub select_by_id : ℕ → Db → Sql User × Db
select_by_id id db = (first_row (find (has_id id) db.users), db)

-- SELECT … FROM users WHERE username = $1 AND is_guest = FALSE
unfoldable pub select_by_username : String → Db → Sql User × Db
select_by_username username db = (first_row (find (is_registered_as username) db.users), db)

-- The SET clause of the promotion.
abbrev pub promoted : ℕ → String → String → User → User
promoted now username display_name u = record u {
  username = username;
  display_name = display_name;
  is_guest = false;
  promoted_at = some now;
}

-- UPDATE users SET … WHERE id = $1 AND is_guest = TRUE RETURNING …. The new row enters the unique
-- index, so it must not meet another registered row of the name.
unfoldable pub promote_user : ℕ → ℕ → String → String → Db → Sql User × Db
promote_user now id username display_name db = elim (find (is_guest_row id) db.users) [
  | none ↦ (no_rows, db)
  | some u ↦ if any (is_registered_as username) db.users then (unique_violation, db) else (
    row (promoted now username display_name u),
    record db { users = update (is_guest_row id) (promoted now username display_name) db.users },
  )
]

-- `scanUser`
abbrev pub scan_user : Sql User → Result User
scan_user (row u) = ok u
scan_user no_rows = err user_not_found
scan_user unique_violation = err other
scan_user failure = err other

-- The test of the error's code that follows a scan.
abbrev pub taken_if_unique : Sql User → Result User → Result User
taken_if_unique unique_violation scanned = err username_taken
taken_if_unique _ scanned = scanned

module _ {P : Platform} where
  unfoldable pub create_guest : String → String → Call P User
  unfolding run_sql insert_user
  create_guest username display_name w =
      let statement = insert_user (P.new_uuid w.calls) w.now username display_name true in
      let (answer, w') = run_sql statement w in (scan_user answer, w')

  unfoldable pub create_registered : String → String → Call P User
  unfolding run_sql insert_user
  create_registered username display_name w =
      let statement = insert_user (P.new_uuid w.calls) w.now username display_name false in
      let (answer, w') = run_sql statement w in (taken_if_unique answer (scan_user answer), w')

  unfoldable pub get_by_id : ℕ → Call P User
  unfolding run_sql select_by_id
  get_by_id id w = let (answer, w') = run_sql (select_by_id id) w in (scan_user answer, w')

  unfoldable pub get_by_username : String → Call P User
  unfolding run_sql select_by_username
  get_by_username username w =
      let (answer, w') = run_sql (select_by_username username) w in (scan_user answer, w')

  unfoldable pub promote_guest : ℕ → String → String → Call P User
  unfolding run_sql promote_user
  promote_guest id username display_name w =
      let statement = promote_user w.now id username display_name in
      let (answer, w') = run_sql statement w in (taken_if_unique answer (scan_user answer), w')
