-- ===== src/Store/Postgres/Consistent.antt =====
-- The integrity that the schema promises, and that every statement of the two stores keeps it.
use go_passkey_auth.Prelude.{
  ℕ, ◌≤◌, Bool, true, false, ◌≡◌, refl, ◌||◌, ◌&&◌, not, Bool-cases, inl, inr, String, Bytes, List,
  [], ◌∷◌, ◌++◌, arith, count, count-append, count-eq-zero_of_any, count_mono, any, find, update,
  All, eq_iff, bytes_beq_iff, nat_beq_iff, Option-cases, ap, nat_beq, ◌==◌, string_eq,
}
use go_passkey_auth.Domain.{User, Credential}
use go_passkey_auth.Store.Tables.{Db, CredentialRow, empty_db}
use go_passkey_auth.Store.Postgres.Rows.{
  count-update, count-update-le, count-update-le-add, any-update, All-update, All-append,
  any-append, All-mono,
}
use go_passkey_auth.Store.Postgres.Users.{
  has_id, is_registered_as, is_guest_row, insert_user, promoted, promote_user,
}
use go_passkey_auth.Store.Postgres.Credentials.{
  has_key, is_live_with, insert_credential, update_rows,
}

-- Every user row has its own id, a username belongs to one registered user at most, every
-- credential row has its own id, a WebAuthn credential id belongs to one live row at most, and each
-- credential refers to a user.
pub record IsConsistent (db : Db) : Type 0 where
  pub user_ids : (i : ℕ) → count (has_id i) db.users ≤ 1
  pub usernames : (n : String) → count (is_registered_as n) db.users ≤ 1
  pub keys : (i : ℕ) → count (has_key i) db.credentials ≤ 1
  pub live_ids : (c : Bytes) → count (is_live_with c) db.credentials ≤ 1
  pub owners : All (λ r. any (has_id r.columns.user_id) db.users ≡ true) db.credentials

pub IsConsistent-empty : IsConsistent empty_db
IsConsistent-empty = record {
  user_ids = λ i. omega arith;
  usernames = λ n. omega arith;
  keys = λ i. omega arith;
  live_ids = λ c. omega arith;
  owners = tt;
}

-- A further row keeps a count of a key below two if no row has the key.
one_more :
    {A : Type 0} (p : A → Bool) (xs : List A) (x : A)
    → count p xs ≤ 1
    → (p x ≡ true → any p xs ≡ false)
    → count p (xs ++ x ∷ []) ≤ 1
one_more p xs x h fresh = ground (arith, count-append p xs (x ∷ []), count-eq-zero_of_any p xs)

-- A test by a key says the same of equal keys.
none_with_key :
    {A K : Type 0} (p : K → A → Bool) (xs : List A) {j k : K}
    → j ≡ k
    → any (p j) xs ≡ false
    → any (p k) xs ≡ false
none_with_key p xs e h = rw (← e) h

abbrev HasOwner : List User → CredentialRow → Type 0
HasOwner users r = any (has_id r.columns.user_id) users ≡ true

HasOwner-append :
    (users more : List User) (r : CredentialRow) → HasOwner users r → HasOwner (users ++ more) r
HasOwner-append users more r h = rw any-append (ground arith)

-- A new user row with a fresh id, and a name that is free if the row is registered.
add_user-IsConsistent :
    (db : Db) (u : User)
    → IsConsistent db
    → any (has_id u.id) db.users ≡ false
    → (u.is_guest ≡ false → any (is_registered_as u.username) db.users ≡ false)
    → IsConsistent (record db { users = db.users ++ u ∷ [] })
add_user-IsConsistent db u h fresh free = record {
  user_ids = λ i.
      one_more (has_id i) db.users u (h.user_ids i)
        λ e. none_with_key has_id db.users ((nat_beq_iff u.id i).0 e) fresh;
  usernames = λ n. one_more (is_registered_as n) db.users u (h.usernames n) λ e.
      none_with_key is_registered_as db.users ((eq_iff u.username n).0 (ground arith))
        (free (ground arith));
  keys = h.keys;
  live_ids = h.live_ids;
  owners = All-mono (λ r. HasOwner-append db.users (u ∷ []) r) db.credentials h.owners;
}

pub insert_user-IsConsistent :
    (db : Db) (id now : ℕ) (username display_name : String) (is_guest : Bool)
    → IsConsistent db
    → IsConsistent (insert_user id now username display_name is_guest db).1
unfolding insert_user
insert_user-IsConsistent db id now username display_name is_guest h =
    elim (Bool-cases
      (any (has_id id) db.users || (not is_guest && any (is_registered_as username) db.users))) [
        | inl e ↦ rw e h
        | inr e ↦ rw e (add_user-IsConsistent db _ h (ground arith) (λ g. ground arith))
      ]

-- Under a promotion to a free name, each name stays with one registered row at most.
module _ (users : List User) (id now : ℕ) (username display_name : String) where
  count-promoted :
      (n : String)
      → count (has_id id) users ≤ 1
      → count (is_registered_as n) users ≤ 1
      → any (is_registered_as username) users ≡ false
      → count
          (is_registered_as n)
          (update (is_guest_row id) (promoted now username display_name) users)
        ≤ 1
  count-promoted n one h free = elim (Bool-cases (username == n)) [
    | inl e ↦
        let none : count (is_registered_as n) users ≡ 0 =
          count-eq-zero_of_any (is_registered_as n) users
            (none_with_key is_registered_as users ((eq_iff username n).0 e) free) in
        omega (
          arith,
          count-update-le-add (is_guest_row id) (promoted now username display_name)
              (is_registered_as n) users,
          count_mono (is_guest_row id) (has_id id) users (λ x p. ground arith),
        )
    | inr e ↦ omega (
      arith,
      count-update-le (is_guest_row id) (promoted now username display_name) (is_registered_as n)
          (λ x p. ground arith) users,
    )
  ]

  HasOwner-promoted :
      (r : CredentialRow)
      → HasOwner users r
      → HasOwner (update (is_guest_row id) (promoted now username display_name) users) r
  HasOwner-promoted r h =
      rw
        (any-update (is_guest_row id) (promoted now username display_name)
          (has_id r.columns.user_id) (λ x. refl) users)
        h

pub promote_user-IsConsistent :
    (db : Db) (now id : ℕ) (username display_name : String)
    → IsConsistent db
    → IsConsistent (promote_user now id username display_name db).1
unfolding promote_user
promote_user-IsConsistent db now id username display_name h =
    elim (Option-cases (find (is_guest_row id) db.users)) [
      | inl missing ↦ rw (missing, promote_user) h
      | inr (u, found) ↦ elim (Bool-cases (any (is_registered_as username) db.users)) [
        | inl claimed ↦ rw (found, claimed, promote_user) h
        | inr free ↦
            rw (found, free, promote_user)
              (record {
                user_ids = λ i. omega (
                  arith,
                  h.user_ids i,
                  count-update (is_guest_row id) (promoted now username display_name) (has_id i)
                      (λ x. refl) db.users,
                );
                usernames = λ n.
                    count-promoted db.users id now username display_name n (h.user_ids id)
                      (h.usernames n) free;
                keys = h.keys;
                live_ids = h.live_ids;
                owners =
                    All-mono (HasOwner-promoted db.users id now username display_name)
                      db.credentials h.owners;
              })
      ]
    ]

pub insert_credential-IsConsistent :
    (db : Db) (id now : ℕ) (c : Credential)
    → IsConsistent db
    → IsConsistent (insert_credential id now c db).1
unfolding insert_credential
insert_credential-IsConsistent db id now c h =
    elim (Bool-cases
      (any (has_key id) db.credentials || any (is_live_with c.credential_id) db.credentials)) [
        | inl e ↦ rw e h
        | inr e ↦ elim (Bool-cases (any (has_id c.user_id) db.users)) [
          | inr missing ↦ rw (e, missing) h
          | inl owner ↦
              rw (e, owner)
                (record {
                  user_ids = h.user_ids;
                  usernames = h.usernames;
                  keys = λ i. one_more (has_key i) db.credentials _ (h.keys i) λ p.
                      none_with_key has_key db.credentials ((nat_beq_iff id i).0 p) (ground arith);
                  live_ids = λ b. one_more (is_live_with b) db.credentials _ (h.live_ids b) λ p.
                      none_with_key is_live_with db.credentials
                        ((bytes_beq_iff c.credential_id b).0 (ground arith)) (ground arith);
                  owners = All-append (HasOwner db.users) db.credentials _ h.owners (owner, tt);
                })
        ]
      ]

-- An update that keeps ids, owners and credential ids, and revives no row.
module _ (test : CredentialRow → Bool) (set : CredentialRow → CredentialRow) where
  pub update_rows-IsConsistent :
      (db : Db)
      → ((r : CredentialRow) → (set r).columns.id ≡ r.columns.id)
      → ((r : CredentialRow) → (set r).columns.user_id ≡ r.columns.user_id)
      → ((b : Bytes) (r : CredentialRow) → is_live_with b (set r) ≡ true → is_live_with b r ≡ true)
      → IsConsistent db
      → IsConsistent (update_rows test set db).1
  unfolding update_rows
  update_rows-IsConsistent db ids users live h = record {
    user_ids = h.user_ids;
    usernames = h.usernames;
    keys = λ i. omega (
      arith,
      h.keys i,
      count-update test set (has_key i) (λ r. ap (λ j. nat_beq j i) (ids r)) db.credentials,
    );
    live_ids = λ b.
        omega
          (arith, h.live_ids b, count-update-le test set (is_live_with b) (live b) db.credentials);
    owners =
        All-update (HasOwner db.users) test set (λ r o. rw (users r) o) db.credentials h.owners;
  }
