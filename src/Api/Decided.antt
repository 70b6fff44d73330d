-- ===== src/Api/Decided.antt =====
-- internal/api/handler/user.go, DeleteCredential: its answer and its effect as a function of the
-- tables, when Postgres answers.
use go_passkey_auth.Prelude.{
  ℕ, suc, ◌≤◌, true, false, not, ◌&&◌, ◌≡◌, refl, ap, ◌∙◌, some, arith, any, count, find, List, [],
  ◌∷◌, ◌==◌, nat_eq, leb, if◌then◌else◌, Bool-cases, inl, inr,
}
use go_passkey_auth.Domain.{Credential, ok, err, last_credential}
use go_passkey_auth.Platform.{Platform, World, counted, answered}
use go_passkey_auth.Platform.Library.{WebauthnLib}
use go_passkey_auth.Store.Tables.{Db, CredentialRow}
use go_passkey_auth.Store.Postgres.Consistent.{IsConsistent}
use go_passkey_auth.Store.Postgres.Credentials.{has_key, is_live_of, is_live_key, list_by_user_id}
use go_passkey_auth.Store.Postgres.SoftDelete.{
  lock_row, count_live, mark_deleted, soft_delete, delete_begun, delete_owned, delete_counted,
}
use go_passkey_auth.Api.Http.{
  Request, Response, respond, write_error, write_json, internal_error, refuse_if, or_else, attempt,
  outcome, error_body, no_body, ◌>>◌,
}
use go_passkey_auth.Api.Http.Forward.{
  bind_next, seq_next, seq_respond, attempted, attempt_run, or_else_run,
}
use go_passkey_auth.Api.Ownership.{any-list_by_user_id}
use go_passkey_auth.Api.Foreign.{owned_by, list_run, delete_credential-foreign}
use go_passkey_auth.Api.Users.{delete_credential, delete_error}

-- What the user `u` gets at the time `now` for asking to delete the key `k`, and the tables after it.
pub deletion_of : {L : WebauthnLib} → ℕ → ℕ → ℕ → Db → Response L × Db
unfolding mark_deleted
deletion_of u k now db =
    if not (any (λ x. is_live_of u x && has_key k x) db.credentials)
    then (record { status = 404; body = error_body "not_found" "Resource not found." }, db)
    else if leb (count (is_live_of u) db.credentials) 1
    then (
      record {
        status = 409;
        body =
            error_body "last_credential"
              "Cannot delete the last passkey. Register another one first.";
      },
      db,
    )
    else (record { status = 204; body = no_body }, mark_deleted now k db)

none_of_key :
    (u k : ℕ) (rs : List CredentialRow)
    → count (has_key k) rs ≡ 0
    → any (λ x. is_live_of u x && has_key k x) rs ≡ false
none_of_key u k [] h = refl
none_of_key u k (x ∷ rs) h = ground (arith, none_of_key u k rs)

-- A key that a live row of the user has, and no other row, is found with that owner.
find_owned :
    (u k : ℕ) (rs : List CredentialRow)
    → count (has_key k) rs ≤ 1
    → any (λ x. is_live_of u x && has_key k x) rs ≡ true
    → (r : CredentialRow) × (find (is_live_key k) rs ≡ some r) × (r.columns.user_id ≡ u)
find_owned u k [] one h = cc
find_owned u k (x ∷ rs) one h = elim (Bool-cases (has_key k x)) [
  | inl here ↦
      let none : count (has_key k) rs ≡ 0 = ground arith in
      (x, ground (arith, none_of_key u k rs none), ground (arith, none_of_key u k rs none))
  | inr there ↦
      let (r, found, owner) = find_owned u k rs (ground arith) (ground arith) in
      (r, ground arith, owner)
]

module _ {P : Platform} where
  -- The five calls of a soft delete, each answered.
  soft_delete_run :
      (u k : ℕ) (w : World P) (r : CredentialRow)
      → ((n : ℕ) → P.pg_outcome n ≡ answered)
      → find (is_live_key k) w.db.credentials ≡ some r
      → r.columns.user_id ≡ u
      → ((soft_delete k w).0
          ≡ (if leb (count (is_live_of u) w.db.credentials) 1 then err last_credential else ok tt))
        × ((soft_delete k w).1.db ≡ (
            if leb (count (is_live_of u) w.db.credentials) 1
            then w.db
            else mark_deleted w.now k w.db))
  unfolding soft_delete delete_begun delete_owned delete_counted lock_row count_live mark_deleted
  soft_delete_run u k w r answers found owner =
      let n0 = answers w.calls in
      let n1 = answers (suc w.calls) in
      let n2 = answers (suc (suc w.calls)) in
      let n3 = answers (suc (suc (suc w.calls))) in
      let n4 = answers (suc (suc (suc (suc w.calls)))) in (ground arith, ground arith)

  -- Up to the store's call: the key is among the user's.
  owned_run :
      (r : Request) (w : World P) (u k : ℕ) {x : Response P.lib} {v : World P}
      → r.context_user ≡ some u
      → P.uuid_parse r.id_param ≡ some k
      → P.pg_outcome w.calls ≡ answered
      → any (λ x. is_live_of u x && has_key k x) w.db.credentials ≡ true
      → (attempt (soft_delete k) delete_error >> write_json {A = ⊥} 204 no_body) (counted w)
        ≡ (respond x, v)
      → delete_credential r w ≡ (respond x, v)
  unfolding delete_credential attempted refuse_if
  owned_run r w u k user key answers owned rest =
      let listed = list_run u w answers in
      let present : any (λ (c : Credential). c.id == k) (owned_by u w) ≡ true =
        any-list_by_user_id u k w (ap (λ s. s.0) listed) ∙ owned in
      bind_next (or_else r.context_user (write_error 401 "unauthorized")) _ w
        (or_else_run r.context_user _ w user)
      ∙ bind_next (or_else (P.uuid_parse r.id_param) (write_error 400 "invalid_request")) _ w
          (or_else_run (P.uuid_parse r.id_param) _ w key)
      ∙ bind_next (attempt (list_by_user_id u) (λ _. internal_error "delete credential: list")) _ w
          (attempt_run (list_by_user_id u) _ w listed)
      ∙ seq_next
          (refuse_if (not (any (λ (c : Credential). c.id == k) (owned_by u w))) 404 "not_found") _
          (counted w) (rw present refl)
      ∙ rest

  last_run :
      (k : ℕ) (v : World P)
      → (soft_delete k v).0 ≡ err last_credential
      → (attempt (soft_delete k) delete_error >> write_json {A = ⊥} 204 no_body) v ≡ (
        respond (record {
          status = 409;
          body =
              error_body "last_credential"
                "Cannot delete the last passkey. Register another one first.";
        }),
        (soft_delete k v).1,
      )
  unfolding delete_error write_error write_json attempted
  last_run k v e =
      seq_respond (attempt (soft_delete k) delete_error) _ v
        (attempt_run (soft_delete k) delete_error v (ap (λ x. (x, (soft_delete k v).1)) e))

  done_run :
      (k : ℕ) (v : World P)
      → (soft_delete k v).0 ≡ ok tt
      → (attempt (soft_delete k) delete_error >> write_json {A = ⊥} 204 no_body) v
        ≡ (respond (record { status = 204; body = no_body }), (soft_delete k v).1)
  unfolding write_json attempted
  done_run k v e =
      seq_next (attempt (soft_delete k) delete_error) _ v
        (attempt_run (soft_delete k) delete_error v (ap (λ x. (x, (soft_delete k v).1)) e))

  -- When Postgres answers, a deletion by a signed-in user on consistent tables, with no other
  -- transaction in between, is answered and acts as the reference says: 404 for a key that no live
  -- credential of his has, 409 for his only live credential, and otherwise 204, which marks the rows
  -- of the key as deleted at that time and changes nothing else.
  pub delete_credential-deletion_of :
      (r : Request) (w : World P) (u k : ℕ)
      → r.context_user ≡ some u
      → P.uuid_parse r.id_param ≡ some k
      → ((n : ℕ) → P.pg_outcome n ≡ answered)
      → IsConsistent w.db
      → (outcome (delete_credential r w).0 ≡ (deletion_of {L = P.lib} u k w.now w.db).0)
        × ((delete_credential r w).1.db ≡ (deletion_of {L = P.lib} u k w.now w.db).1)
  unfolding deletion_of
  delete_credential-deletion_of r w u k user key answers h =
      elim (Bool-cases (any (λ x. is_live_of u x && has_key k x) w.db.credentials)) [
        | inl owned ↦ owned_case owned
        | inr foreign ↦
            rw foreign (delete_credential-foreign r w u k user key (answers w.calls) foreign)
      ]
    where
      Claim : Type 0
      Claim =
          (outcome (delete_credential r w).0 ≡ (deletion_of {L = P.lib} u k w.now w.db).0)
          × ((delete_credential r w).1.db ≡ (deletion_of {L = P.lib} u k w.now w.db).1)

      owned_case : any (λ x. is_live_of u x && has_key k x) w.db.credentials ≡ true → Claim
      owned_case owned =
          let v : World P = counted w in
          let (row, found, owner) = find_owned u k w.db.credentials (h.keys k) owned in
          let (answer, tables) = soft_delete_run u k v row answers found owner in
          elim (Bool-cases (leb (count (is_live_of u) w.db.credentials) 1)) [
            | inl last ↦
                let whole =
                  owned_run r w u k user key (answers w.calls) owned
                    (last_run k v (rw last at answer)) in
                rw (owned, last)
                  (ap (λ s. outcome s.0) whole, ap (λ s. s.1.db) whole ∙ rw last at tables)
            | inr more ↦
                let whole =
                  owned_run r w u k user key (answers w.calls) owned
                    (done_run k v (rw more at answer)) in
                rw (owned, more)
                  (ap (λ s. outcome s.0) whole, ap (λ s. s.1.db) whole ∙ rw more at tables)
          ]
