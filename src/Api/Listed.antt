-- ===== src/Api/Listed.antt =====
-- internal/store/postgres/credential.go, ListByUserID: what the listing of a user's credentials holds.
use go_passkey_auth.Prelude.{
  ℕ, ◌≤◌, ◌+◌, Bool, ◌&&◌, ◌≡◌, refl, sym, ap, ◌∙◌, List, [], ◌∷◌, arith, keep, map, count, All,
  if◌then◌else◌, leb, Bool-cases, inl, inr,
}
use go_passkey_auth.Domain.{Credential, ok}
use go_passkey_auth.Store.Tables.{CredentialRow}
use go_passkey_auth.Store.Postgres.Credentials.{
  is_live_of, insert_by_age, order_by_age, columns_of, scanned, list_by_user_id,
}
use go_passkey_auth.Platform.{Platform, World}
use go_passkey_auth.Api.Ownership.{list_by_user_id_inv}

-- The oldest first.
abbrev pub IsByAge : List Credential → Type 0
IsByAge [] = Unit
IsByAge (c ∷ cs) = All (λ (d : Credential). c.created_at ≤ d.created_at) cs × IsByAge cs

All-insert_by_age :
    (t : ℕ) (c : Credential) (ds : List Credential)
    → t ≤ c.created_at
    → All (λ (d : Credential). t ≤ d.created_at) ds
    → All (λ (d : Credential). t ≤ d.created_at) (insert_by_age c ds)
unfolding insert_by_age
All-insert_by_age t c [] h all = (h, tt)
All-insert_by_age t c (d ∷ ds) h all = ground (arith, all, All-insert_by_age t c ds h all.1)

All-le_mono :
    (s t : ℕ) (ds : List Credential)
    → s ≤ t
    → All (λ (d : Credential). t ≤ d.created_at) ds
    → All (λ (d : Credential). s ≤ d.created_at) ds
All-le_mono s t [] h all = tt
All-le_mono s t (d ∷ ds) h all = (omega (arith, all.0), All-le_mono s t ds h all.1)

insert_by_age-IsByAge :
    (c : Credential) (ds : List Credential) → IsByAge ds → IsByAge (insert_by_age c ds)
unfolding insert_by_age
insert_by_age-IsByAge c [] h = (tt, tt)
insert_by_age-IsByAge c (d ∷ ds) h = elim (Bool-cases (leb c.created_at d.created_at)) [
  | inl older ↦
      let le : c.created_at ≤ d.created_at = ground arith in
      rw (older, insert_by_age) ((le, All-le_mono c.created_at d.created_at ds le h.0), h)
  | inr younger ↦
      let le : d.created_at ≤ c.created_at = ground arith in
      rw (younger, insert_by_age)
        (All-insert_by_age d.created_at c ds le h.0, insert_by_age-IsByAge c ds h.1)
]

order_by_age-IsByAge : (cs : List Credential) → IsByAge (order_by_age cs)
unfolding order_by_age
order_by_age-IsByAge [] = tt
order_by_age-IsByAge (c ∷ cs) = insert_by_age-IsByAge c (order_by_age cs) (order_by_age-IsByAge cs)

All-map-scanned :
    (t : ℕ) (cs : List Credential)
    → All (λ (d : Credential). t ≤ d.created_at) cs
    → All (λ (d : Credential). t ≤ d.created_at) (map scanned cs)
All-map-scanned t [] all = tt
All-map-scanned t (c ∷ cs) all = (all.0, All-map-scanned t cs all.1)

map-scanned-IsByAge : (cs : List Credential) → IsByAge cs → IsByAge (map scanned cs)
map-scanned-IsByAge [] h = tt
map-scanned-IsByAge (c ∷ cs) h = (All-map-scanned c.created_at cs h.0, map-scanned-IsByAge cs h.1)

module _ (p : Credential → Bool) where
  count-insert_by_age :
      (c : Credential) (ds : List Credential)
      → count p (insert_by_age c ds) ≡ (if p c then 1 else 0) + count p ds
  unfolding insert_by_age
  count-insert_by_age c [] = refl
  count-insert_by_age c (d ∷ ds) = ground (arith, count-insert_by_age c ds)

  count-order_by_age : (cs : List Credential) → count p (order_by_age cs) ≡ count p cs
  unfolding order_by_age
  count-order_by_age [] = refl
  count-order_by_age (c ∷ cs) =
      count-insert_by_age c (order_by_age cs)
      ∙ ap (λ n. (if p c then 1 else 0) + n) (count-order_by_age cs)

  count-columns_of-keep :
      (q : CredentialRow → Bool) (rs : List CredentialRow)
      → count p (columns_of (keep q rs)) ≡ count (λ r. q r && p r.columns) rs
  count-columns_of-keep q [] = refl
  count-columns_of-keep q (r ∷ rs) = ground (arith, count-columns_of-keep q rs)

  count-map-scanned :
      (cs : List Credential) → count p (map scanned cs) ≡ count (λ c. p (scanned c)) cs
  count-map-scanned [] = refl
  count-map-scanned (c ∷ cs) = ap (λ n. (if p (scanned c) then 1 else 0) + n) (count-map-scanned cs)

module _ {P : Platform} where
  -- A listing that succeeds has the oldest credential first, and for every test as many credentials
  -- that pass it as the user has live rows whose columns, with the counter as a uint32, pass it.
  pub list_by_user_id-IsByAge :
      (u : ℕ) (w : World P) (owned : List Credential) (p : Credential → Bool)
      → (list_by_user_id u w).0 ≡ ok owned
      → IsByAge owned
        × (count p owned ≡ count (λ r. is_live_of u r && p (scanned r.columns)) w.db.credentials)
  list_by_user_id-IsByAge u w owned p h =
      let same = list_by_user_id_inv u w h in
      let rows : List Credential = columns_of (keep (is_live_of u) w.db.credentials) in
      (
        rw (← same) (map-scanned-IsByAge (order_by_age rows) (order_by_age-IsByAge rows)),
        ap (count p) (sym same)
            ∙ count-map-scanned p (order_by_age rows)
            ∙ count-order_by_age (λ c. p (scanned c)) rows
            ∙ count-columns_of-keep (λ c. p (scanned c)) (is_live_of u) w.db.credentials,
      )
