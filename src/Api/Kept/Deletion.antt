-- ===== src/Api/Kept/Deletion.antt =====
-- internal/store/postgres/credential.go, SoftDelete: the transaction keeps what its calls keep.
use go_passkey_auth.Prelude.{ℕ, leb, inl, inr, Bool-cases}
use go_passkey_auth.Domain.{Result, ok}
use go_passkey_auth.Store.Tables.{Db}
use go_passkey_auth.Platform as Go
use go_passkey_auth.Platform.{Platform, World, raise}
use go_passkey_auth.Store.Postgres.SoftDelete.{
  soft_delete, in_tx, tx_time, commit, mark_deleted, owner_or_error, count_or_error, lock_row,
  count_live, delete_counted, delete_owned, delete_begun,
}
use go_passkey_auth.Api.Http.Ensures.{Preserves, Preserves-bind}

module _ {P : Platform} {Q : World P → Type 0}
    (reads : (A : Type 0) (read : Db → Result A) → Preserves Q (in_tx {P = P} read))
    (commits : (now id : ℕ) → Preserves Q (commit {P = P} (mark_deleted now id))) where
  delete_counted-Preserves : (now id live : ℕ) → Preserves Q (delete_counted {P = P} now id live)
  unfolding delete_counted
  delete_counted-Preserves now id live = elim (Bool-cases (leb live 1)) [
    | inl last ↦ rw (last, delete_counted) (record { at = λ w q. q })
    | inr more ↦
        rw (more, delete_counted)
          (Preserves-bind (in_tx (λ _. ok tt)) (λ _. commit (mark_deleted now id))
            (reads _ (λ _. ok tt)) (λ _. commits now id))
  ]

  delete_begun-Preserves : (id now : ℕ) → Preserves Q (delete_begun {P = P} id now)
  unfolding delete_begun
  delete_begun-Preserves id now =
      Preserves-bind (in_tx (λ db. owner_or_error (lock_row id db))) (delete_owned now id)
        (reads _ (λ db. owner_or_error (lock_row id db)))
        λ owner.
          Preserves-bind (in_tx (λ db. count_or_error (count_live owner db)))
            (delete_counted now id) (reads _ (λ db. count_or_error (count_live owner db)))
            (delete_counted-Preserves now id)

  pub soft_delete-Preserves : (id : ℕ) → Preserves Q (soft_delete {P = P} id)
  unfolding soft_delete
  soft_delete-Preserves id =
      Preserves-bind (in_tx (λ _. ok tt)) (λ _. Go.◌>>=◌ tx_time (delete_begun id))
        (reads _ (λ _. ok tt)) λ _. record { at = λ w q. (delete_begun-Preserves id w.now).at w q }
