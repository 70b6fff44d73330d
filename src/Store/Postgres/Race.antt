-- ===== src/Store/Postgres/Race.antt =====
-- internal/store/postgres/credential.go: two SoftDelete transactions at once, on two credentials.
--
-- At READ COMMITTED a statement sees what has been committed before it. The first statement locks the
-- transaction's own row only, so it waits for no transaction on another row. Here the calls are
-- answered; what a transaction writes is seen from its commit on, which is one step with the update.
use go_passkey_auth.Prelude.{
  ℕ, ◌≤◌, ◌≡◌, ◌≢◌, refl, List, [], ◌∷◌, some, arith, if◌then◌else◌, leb, count, find, update,
  nat_eq, nat_beq_iff,
}
use go_passkey_auth.Store.Tables.{CredentialRow, Db, Sql, row}
use go_passkey_auth.Store.Postgres.Credentials.{has_key, is_live_key, is_live_of, set_deleted}
use go_passkey_auth.Store.Postgres.Consistent.{IsConsistent}
use go_passkey_auth.Store.Postgres.SoftDelete.{lock_row, count_live, mark_deleted}
use go_passkey_auth.Store.Postgres.Rows.{count-update}
use go_passkey_auth.Store.Postgres.LastCredential.{count-deleted}

-- How far a transaction has come: nothing read, the owner read, the guard passed, and the two ends.
pub data Phase : Type 0 where
  begun : Phase
  owned : ℕ → Phase
  guarded committed rolled_back : Phase

abbrev after_lock : Sql ℕ → Phase
after_lock (row u) = owned u
after_lock _ = rolled_back

abbrev after_count : Sql ℕ → Phase
after_count (row n) = if leb n 1 then rolled_back else guarded
after_count _ = rolled_back

-- The next statement of the transaction that deletes `id`, on what is committed.
unfoldable pub tx_step : ℕ → ℕ → Phase → Db → Phase × Db
unfolding lock_row count_live mark_deleted
tx_step now id begun db = (after_lock (lock_row id db), db)
tx_step now id (owned u) db = (after_count (count_live u db), db)
tx_step now id guarded db = (committed, mark_deleted now id db)
tx_step now id p db = (p, db)

-- Which of the two transactions moves.
pub data Mover : Type 0 where
  first second : Mover

unfoldable pub run_two : ℕ → ℕ → ℕ → List Mover → Phase × Phase × Db → Phase × Phase × Db
unfolding tx_step
run_two now a b [] s = s
run_two now a b (first ∷ ms) (p, q, db) =
    let (p', db') = tx_step now a p db in run_two now a b ms (p', q, db')
run_two now a b (second ∷ ms) (p, q, db) =
    let (q', db') = tx_step now b q db in run_two now a b ms (p, q', db')

-- Both lock, both count, both commit.
abbrev pub in_turn : List Mover
in_turn = first ∷ second ∷ first ∷ second ∷ first ∷ second ∷ []

-- A delete of one row leaves the others to be found.
find-deleted_other :
    (now a b : ℕ) (rs : List CredentialRow)
    → a ≢ b
    → find (is_live_key b) (update (has_key a) (set_deleted now) rs) ≡ find (is_live_key b) rs
find-deleted_other now a b [] ne = refl
find-deleted_other now a b (x ∷ rs) ne = ground (
  arith,
  find-deleted_other now a b rs ne,
  nat_beq_iff x.columns.id a,
  nat_beq_iff x.columns.id b,
)

-- Two transactions that delete the two last live credentials of a user can both commit, and leave
-- the user none: the guard of each is passed on a count that the other is about to change.
pub run_two-in_turn :
    (now a b u : ℕ) (ra rb : CredentialRow) (db : Db)
    → IsConsistent db
    → a ≢ b
    → find (is_live_key a) db.credentials ≡ some ra
    → find (is_live_key b) db.credentials ≡ some rb
    → ra.columns.user_id ≡ u
    → rb.columns.user_id ≡ u
    → count (is_live_of u) db.credentials ≡ 2
    → let (p, q, after) = run_two now a b in_turn (begun, begun, db) in
      (p ≡ committed) × (q ≡ committed) × (count (is_live_of u) after.credentials ≡ 0)
unfolding run_two tx_step lock_row count_live mark_deleted
run_two-in_turn now a b u ra rb db h ne fa fb ua ub two =
    let one : count (has_key b) (update (has_key a) (set_deleted now) db.credentials) ≤ 1 = omega (
      arith,
      h.keys b,
      count-update (has_key a) (set_deleted now) (has_key b) (λ r. refl) db.credentials,
    ) in
    let ca = count-deleted a now u db.credentials ra (h.keys a) fa in
    let cb =
      count-deleted b now u (update (has_key a) (set_deleted now) db.credentials) rb one
        (rw (find-deleted_other now a b db.credentials ne) fb) in
    (ground arith, ground arith, ground (arith, ca, cb))
