-- ===== src/Api/Foreign.antt =====
-- internal/api/handler/user.go, DeleteCredential: a credential of somebody else.
use go_passkey_auth.Prelude.{
  ℕ, Bool, true, false, not, ◌&&◌, ◌≡◌, refl, ap, ◌∙◌, some, arith, any, keep, map, List, ◌==◌,
  nat_eq,
}
use go_passkey_auth.Domain.{Credential, ok}
use go_passkey_auth.Platform.{Platform, World, counted, answered}
use go_passkey_auth.Store.Postgres.Run.{run_sql}
use go_passkey_auth.Store.Postgres.Credentials.{
  has_key, is_live_of, order_by_age, columns_of, scanned, select_by_user, list_by_user_id,
}
use go_passkey_auth.Api.Http.{
  Request, respond, write_error, write_json, internal_error, refuse_if, or_else, attempt, outcome,
  error_body,
}
use go_passkey_auth.Api.Http.Forward.{bind_next, seq_respond, attempted, attempt_run, or_else_run}
use go_passkey_auth.Api.Ownership.{any-list_by_user_id}
use go_passkey_auth.Api.Users.{delete_credential}

module _ {P : Platform} where
  abbrev pub owned_by : ℕ → World P → List Credential
  owned_by u w = map scanned (order_by_age (columns_of (keep (is_live_of u) w.db.credentials)))

  pub list_run :
      (u : ℕ) (w : World P)
      → P.pg_outcome w.calls ≡ answered
      → list_by_user_id u w ≡ (ok (owned_by u w), counted w)
  unfolding list_by_user_id run_sql select_by_user
  list_run u w answers = ground (arith, answers)

  refused_by :
      (b : Bool) (w : World P)
      → b ≡ true
      → refuse_if b 404 "not_found" w ≡ (
        respond (record { status = 404; body = error_body "not_found" "Resource not found." }),
        w,
      )
  unfolding refuse_if write_error write_json
  refused_by b w e = rw e refl

  -- A user who asks to delete a key that no live credential of his has is answered by 404 not_found,
  -- whoever else has it, and both tables stay as they are. Postgres answers the listing.
  pub delete_credential-foreign :
      (r : Request) (w : World P) (u k : ℕ)
      → r.context_user ≡ some u
      → P.uuid_parse r.id_param ≡ some k
      → P.pg_outcome w.calls ≡ answered
      → any (λ x. is_live_of u x && has_key k x) w.db.credentials ≡ false
      → (outcome (delete_credential r w).0
          ≡ record { status = 404; body = error_body "not_found" "Resource not found." })
        × ((delete_credential r w).1.db ≡ w.db)
  unfolding delete_credential attempted
  delete_credential-foreign r w u k user key answers foreign =
      let listed = list_run u w answers in
      let absent : any (λ (c : Credential). c.id == k) (owned_by u w) ≡ false =
        any-list_by_user_id u k w (ap (λ s. s.0) listed) ∙ foreign in
      let whole : delete_credential r w ≡ (
        respond (record { status = 404; body = error_body "not_found" "Resource not found." }),
        counted w,
      ) =
        bind_next (or_else r.context_user (write_error 401 "unauthorized")) _ w
          (or_else_run r.context_user _ w user)
        ∙ bind_next (or_else (P.uuid_parse r.id_param) (write_error 400 "invalid_request")) _ w
            (or_else_run (P.uuid_parse r.id_param) _ w key)
        ∙ bind_next (attempt (list_by_user_id u) (λ _. internal_error "delete credential: list")) _
            w (attempt_run (list_by_user_id u) _ w listed)
        ∙ seq_respond
            (refuse_if (not (any (λ (c : Credential). c.id == k) (owned_by u w))) 404 "not_found") _
            (counted w) (refused_by _ (counted w) (ap not absent)) in
      (ap (λ s. outcome s.0) whole, ap (λ s. s.1.db) whole)
