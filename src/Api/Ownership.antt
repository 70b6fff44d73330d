-- ===== src/Api/Ownership.antt =====
-- internal/api/handler/user.go, DeleteCredential: whose credential it deletes.
use go_passkey_auth.Prelude.{
  ℕ, Bool, true, not, ◌&&◌, ◌||◌, ◌≡◌, refl, sym, ap, ◌∙◌, List, [], ◌∷◌, some, arith, any, keep,
  map, ◌==◌, nat_eq,
}
use go_passkey_auth.Domain.{Credential, ok, Err, last_credential, credential_not_found}
use go_passkey_auth.Store.Tables.{CredentialRow}
use go_passkey_auth.Store.Postgres.Run.{run_sql}
use go_passkey_auth.Store.Postgres.Credentials.{
  has_key, is_live_of, insert_by_age, order_by_age, columns_of, scanned, select_by_user,
  list_by_user_id,
}
use go_passkey_auth.Store.Postgres.SoftDelete.{soft_delete}
use go_passkey_auth.Platform.{Platform, World}
use go_passkey_auth.Api.Http.{Request, write_error, write_json, outcome, no_body, or_else}
use go_passkey_auth.Api.Http.Success.{
  Fails, Succeeds, bind-Succeeds, seq-Succeeds, or_else-next, attempt-next, or_else-Fails,
  attempt-Fails, write_error-Fails, refuse_if-Fails, refuse_if-next, internal_error-Fails,
  write_error-Ends, internal_error-Ends,
}
use go_passkey_auth.Api.Users.{delete_credential, delete_error}

any-insert_by_age :
    (p : Credential → Bool) (c : Credential) (ds : List Credential)
    → any p (insert_by_age c ds) ≡ (p c || any p ds)
unfolding insert_by_age
any-insert_by_age p c [] = refl
any-insert_by_age p c (d ∷ ds) = ground (arith, any-insert_by_age p c ds)

any-order_by_age :
    (p : Credential → Bool) (cs : List Credential) → any p (order_by_age cs) ≡ any p cs
unfolding order_by_age
any-order_by_age p [] = refl
any-order_by_age p (c ∷ cs) =
    any-insert_by_age p c (order_by_age cs) ∙ ap (λ b. p c || b) (any-order_by_age p cs)

any-columns_of-keep :
    (p : Credential → Bool) (q : CredentialRow → Bool) (rs : List CredentialRow)
    → any p (columns_of (keep q rs)) ≡ any (λ r. q r && p r.columns) rs
any-columns_of-keep p q [] = refl
any-columns_of-keep p q (r ∷ rs) = ground (arith, any-columns_of-keep p q rs)

any-map-scanned :
    (p : Credential → Bool)
    → ((c : Credential) → p (scanned c) ≡ p c)
    → (cs : List Credential) → any p (map scanned cs) ≡ any p cs
any-map-scanned p same [] = refl
any-map-scanned p same (c ∷ cs) = ground (arith, same c, any-map-scanned p same cs)

module _ {P : Platform} where
  pub list_by_user_id_inv :
      (u : ℕ) (w : World P) {owned : List Credential}
      → (list_by_user_id u w).0 ≡ ok owned
      → map scanned (order_by_age (columns_of (keep (is_live_of u) w.db.credentials))) ≡ owned
  unfolding list_by_user_id run_sql select_by_user
  list_by_user_id_inv u w h = ground arith

  -- A user sees a key among his credentials just if a live row of his has it.
  pub any-list_by_user_id :
      (u k : ℕ) (w : World P) {owned : List Credential}
      → (list_by_user_id u w).0 ≡ ok owned
      → any (λ (c : Credential). c.id == k) owned
        ≡ any (λ r. is_live_of u r && has_key k r) w.db.credentials
  any-list_by_user_id u k w h =
      let p : Credential → Bool = λ c. c.id == k in
      ap (any p) (sym (list_by_user_id_inv u w h))
      ∙ any-map-scanned p (λ c. refl)
          (order_by_age (columns_of (keep (is_live_of u) w.db.credentials)))
      ∙ any-order_by_age p (columns_of (keep (is_live_of u) w.db.credentials))
      ∙ any-columns_of-keep p (is_live_of u) w.db.credentials

  delete_error-Fails : {A : Type 0} (e : Err) → Fails {P = P} {A = A} (delete_error e)
  unfolding delete_error
  delete_error-Fails last_credential = write_error-Fails 409 "last_credential"
  delete_error-Fails credential_not_found = write_error-Fails 404 "not_found"
  delete_error-Fails _ = internal_error-Fails "delete credential: soft delete"

  -- A deletion that succeeds is of a credential that the session's user owns and that is live when the
  -- request comes in, and the response is a 204 with no body.
  pub delete_credential-owned :
      (r : Request) (w : World P)
      → Succeeds (delete_credential r w).0
      → (u : ℕ) × (k : ℕ) × (r.context_user ≡ some u)
        × (P.uuid_parse r.id_param ≡ some k)
        × (any (λ x. is_live_of u x && has_key k x) w.db.credentials ≡ true)
        × (outcome (delete_credential r w).0 ≡ record { status = 204; body = no_body })
  unfolding delete_credential write_json
  delete_credential-owned r w h =
      let (u, e1, h1, s1) =
        bind-Succeeds {m = or_else r.context_user (write_error 401 "unauthorized")} _ w
          (or_else-Fails r.context_user (write_error-Fails _ _)) h in
      let (k, e2, h2, s2) =
        bind-Succeeds _ _ (or_else-Fails (P.uuid_parse r.id_param) (write_error-Fails _ _)) h1 in
      let (owned, e3, h3, s3) =
        bind-Succeeds _ _ (attempt-Fails (list_by_user_id u) (λ e. internal_error-Fails _)) h2 in
      let (_, e4, h4, s4) =
        seq-Succeeds _ _ (refuse_if-Fails (not (any (λ (c : Credential). c.id == k) owned)) _ _)
          h3 in
      let (_, e5, h5, s5) =
        seq-Succeeds _ _ (attempt-Fails (soft_delete k) delete_error-Fails) h4 in
      let (known, q1) = or_else-next r.context_user _ w (write_error-Ends _ _) e1 in
      let (is_id, q2) = or_else-next (P.uuid_parse r.id_param) _ _ (write_error-Ends _ _) e2 in
      let (listed, q3) = attempt-next (list_by_user_id u) _ _ (λ e. internal_error-Ends _) e3 in
      let in_list : any (λ (c : Credential). c.id == k) owned ≡ true =
        ground
          (arith, (refuse_if-next (not (any (λ (c : Credential). c.id == k) owned)) _ _ _ e4).0) in
      (
        u,
        k,
        known,
        is_id,
        sym (any-list_by_user_id u k w (ap (λ v. (list_by_user_id u v).0) (sym (q2 ∙ q1)) ∙ listed))
            ∙ in_list,
        ap outcome (s1 ∙ s2 ∙ s3 ∙ s4 ∙ s5),
      )
