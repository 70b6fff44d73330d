-- ===== src/Store/Postgres/LastCredential.antt =====
-- SoftDelete keeps the last credential, when no other transaction comes between its statements.
use go_passkey_auth.Prelude.{
  ℕ, ◌+◌, ◌≤◌, ◌<◌, false, ◌≡◌, ◌≢◌, refl, List, [], ◌∷◌, some, arith, if◌then◌else◌, count, find,
  update, leb, Option-cases, Bool-cases, inl, inr, ◌⊎◌, ◌==◌, nat_eq,
}
use go_passkey_auth.Domain.{ok}
use go_passkey_auth.Store.Tables.{CredentialRow, Db}
use go_passkey_auth.Platform.{Platform, World}
use go_passkey_auth.Store.Postgres.Credentials.{has_key, is_live_key, is_live_of, set_deleted}
use go_passkey_auth.Store.Postgres.Consistent.{IsConsistent}
use go_passkey_auth.Store.Postgres.SoftDelete.{
  lock_row, count_live, mark_deleted, soft_delete, delete_begun, delete_owned, delete_counted,
}

-- An update that meets no row changes none.
update_none :
    (id now : ℕ) (rs : List CredentialRow)
    → count (has_key id) rs ≡ 0
    → update (has_key id) (set_deleted now) rs ≡ rs
update_none id now [] h = refl
update_none id now (r ∷ rs) h = ground (arith, update_none id now rs)

dead_key :
    (id : ℕ) (rs : List CredentialRow) (r : CredentialRow)
    → count (has_key id) rs ≡ 0
    → find (is_live_key id) rs ≢ some r
dead_key id [] r h found = cc
dead_key id (x ∷ rs) r h found = ground (arith, dead_key id rs r)

-- Deleting a live row takes one from its owner's live rows, and none from anybody else's.
pub count-deleted :
    (id now u : ℕ) (rs : List CredentialRow) (r : CredentialRow)
    → count (has_key id) rs ≤ 1
    → find (is_live_key id) rs ≡ some r
    → count (is_live_of u) (update (has_key id) (set_deleted now) rs)
        + (if r.columns.user_id == u then 1 else 0)
      ≡ count (is_live_of u) rs
count-deleted id now u [] r one found = cc
count-deleted id now u (x ∷ rs) r one found = elim (Bool-cases (has_key id x)) [
  | inl here ↦
      let none : count (has_key id) rs ≡ 0 = ground arith in
      elim (Bool-cases (is_live_key id x)) [
        | inl live ↦ ground (arith, update_none id now rs none)
        | inr dead ↦ ground (arith, dead_key id rs r none)
      ]
  | inr there ↦ ground (arith, count-deleted id now u rs r)
]

-- The row to delete, with another live row of its owner beside it.
pub record IsDeletable (id : ℕ) (db : Db) (r : CredentialRow) : Type 0 where
  pub live : find (is_live_key id) db.credentials ≡ some r
  pub not_last : 1 < count (is_live_of r.columns.user_id) db.credentials

module _ {P : Platform} (id : ℕ) (w : World P) where
  soft_delete_inv :
      (soft_delete id w).0 ≡ ok tt
      → (r : CredentialRow) × IsDeletable id w.db r
        × ((soft_delete id w).1.db ≡ mark_deleted w.now id w.db)
  unfolding soft_delete delete_begun delete_owned delete_counted lock_row count_live mark_deleted
  soft_delete_inv e = elim (Option-cases (find (is_live_key id) w.db.credentials)) [
    | inl missing ↦ ground (arith, missing)
    | inr (r, found) ↦ (r, record { live = found; not_last = ground arith }, ground arith)
  ]

  -- Whatever the outcome, the tables are as before or the row is marked, under the guard.
  soft_delete-db :
      ((soft_delete id w).1.db ≡ w.db)
      ⊎ (r : CredentialRow) × IsDeletable id w.db r
        × ((soft_delete id w).1.db ≡ mark_deleted w.now id w.db)
  unfolding soft_delete delete_begun delete_owned delete_counted lock_row count_live mark_deleted
  soft_delete-db = elim (Option-cases (find (is_live_key id) w.db.credentials)) [
    | inl missing ↦ inl (ground (arith, missing))
    | inr (r, found) ↦
        elim (Bool-cases (leb (count (is_live_of r.columns.user_id) w.db.credentials) 1)) [
          | inl last ↦ inl (ground arith)
          | inr more ↦ elim (either_db found more) [
            | inl same ↦ inl same
            | inr marked ↦ inr (r, record { live = found; not_last = ground arith }, marked)
          ]
        ]
  ]
    where
      either_db :
          {r : CredentialRow}
          → find (is_live_key id) w.db.credentials ≡ some r
          → leb (count (is_live_of r.columns.user_id) w.db.credentials) 1 ≡ false
          → ((soft_delete id w).1.db ≡ w.db)
            ⊎ ((soft_delete id w).1.db ≡ mark_deleted w.now id w.db)
      either_db found more = ground arith

  -- On consistent tables, every user who has a live credential before a soft delete has one after
  -- it, whichever of its five calls fail or lose their answers, when no other transaction runs in
  -- between; and a delete that is reported as done takes exactly one credential, that of the key,
  -- from its owner's live ones.
  pub soft_delete-keeps_one :
      IsConsistent w.db
      → ((u : ℕ)
          → 1 ≤ count (is_live_of u) w.db.credentials
          → 1 ≤ count (is_live_of u) (soft_delete id w).1.db.credentials)
        × ((soft_delete id w).0 ≡ ok tt
            → (r : CredentialRow) × (find (is_live_key id) w.db.credentials ≡ some r)
              × (count (is_live_of r.columns.user_id) (soft_delete id w).1.db.credentials + 1
                  ≡ count (is_live_of r.columns.user_id) w.db.credentials))
  unfolding mark_deleted
  soft_delete-keeps_one h = (keeps, takes)
    where
      keeps :
          (u : ℕ)
          → 1 ≤ count (is_live_of u) w.db.credentials
          → 1 ≤ count (is_live_of u) (soft_delete id w).1.db.credentials
      keeps u had = elim soft_delete-db [
        | inl same ↦ rw same had
        | inr (r, d, marked) ↦ rw marked (
            ground
              (arith, d.not_last, count-deleted id w.now u w.db.credentials r (h.keys id) d.live))
      ]

      takes :
          (soft_delete id w).0 ≡ ok tt
          → (r : CredentialRow) × (find (is_live_key id) w.db.credentials ≡ some r)
            × (count (is_live_of r.columns.user_id) (soft_delete id w).1.db.credentials + 1
                ≡ count (is_live_of r.columns.user_id) w.db.credentials)
      takes e =
          let (r, d, marked) = soft_delete_inv e in
          (
            r,
            d.live,
            rw marked (
                ground (
                  arith,
                  count-deleted id w.now r.columns.user_id w.db.credentials r (h.keys id) d.live,
                )),
          )
