-- ===== src/Api/Kept/Guests.antt =====
-- The guest and promotion endpoints keep what their calls keep.
use go_passkey_auth.Prelude.{ℕ, String, Option, none, some, Bool-cases, inl, inr}
use go_passkey_auth.Domain.{Result, ok, err, Err, User}
use go_passkey_auth.Platform.{Platform, World}
use go_passkey_auth.Store.Postgres.Users.{get_by_id}
use go_passkey_auth.Store.Redis.Guest as GuestStore
use go_passkey_auth.Api.Http.{Request}
use go_passkey_auth.Api.Http.Ensures.{Ensures, Preserves, Keeps}
use go_passkey_auth.Api.Http.Stable.{IsStable}
use go_passkey_auth.Api.Cookie.{cookie_of, non_empty, guest_cookie_name, set_guest_cookie}
use go_passkey_auth.Api.Kept.{KeptByLookups, KeptByWrites, KeptBySaves}
use go_passkey_auth.Api.Kept.Steps.{
  ensures, begin_ceremony-Ensures, verify_ceremony-Ensures, store_credential-Ensures,
  read_names-Ensures,
}
use go_passkey_auth.Api.Kept.Endpoints.{drop_guest-Keeps, set_session_cookie-Keeps}
use go_passkey_auth.Api.Auth.Deps.{Deps}
use go_passkey_auth.Api.Auth.Guest.{
  user_of_id, user_of_token, resolve_guest, new_name, new_guest, reuse_or_create, guest,
}
use go_passkey_auth.Api.Auth.Promote.{begin_promote, promote_error, complete_promote}

module _ {P : Platform} {Q : World P → Type 0} (kept : KeptByLookups Q) where
  user_of_id-Preserves : (r : Result ℕ) → Preserves Q (user_of_id {P = P} r)
  user_of_id-Preserves (err _) = record { at = λ w q. q }
  user_of_id-Preserves (ok id) = record {
    at = λ w q. go (get_by_id id w) ((kept.user_by_id id).at w q);
  }
    where
      go :
          (s : Result User × World P)
          → Q s.1
          → let r : Option User × World P = elim s.0 [
            | ok u ↦ (some u, s.1)
            | err _ ↦ (none, s.1)
          ] in
            Q r.1
      go (ok u, w) q = q
      go (err e, w) q = q

  user_of_token-Preserves : (o : Option String) → Preserves Q (user_of_token {P = P} o)
  user_of_token-Preserves none = record { at = λ w q. q }
  user_of_token-Preserves (some token) = record {
    at = λ w q.
        (user_of_id-Preserves (GuestStore.get token w).0).at (GuestStore.get token w).1
          ((kept.guest_get token).at w q);
  }

  pub resolve_guest-Preserves : (r : Request) → Preserves Q (resolve_guest {P = P} r)
  unfolding resolve_guest
  resolve_guest-Preserves r = user_of_token-Preserves (non_empty (r.cookie guest_cookie_name))

  new_name-Preserves : Preserves Q (new_name {P = P})
  new_name-Preserves = record { at = kept.count_call.at }

  set_guest_cookie-Keeps :
      (r : Request) (token : String) (age : ℕ) → Keeps Q (set_guest_cookie {P = P} r token age)
  set_guest_cookie-Keeps r token age = kept.cookie (cookie_of r guest_cookie_name token (some age))

  new_guest-Ensures :
      KeptByWrites Q → (deps : Deps) (r : Request) → Ensures Q IsStable (new_guest {P = P} deps r)
  unfolding new_guest
  new_guest-Ensures writes deps r =
      search
        (
          ensures, new_name-Preserves, writes.new_guest_row, kept.guest_create,
          set_guest_cookie-Keeps,
        )
        depth 12

  reuse_or_create-Ensures :
      KeptByWrites Q
      → (deps : Deps) (r : Request) (o : Option User)
      → Ensures Q IsStable (reuse_or_create {P = P} deps r o)
  unfolding reuse_or_create
  reuse_or_create-Ensures writes deps r none = new_guest-Ensures writes deps r
  reuse_or_create-Ensures writes deps r (some user) = elim (Bool-cases user.is_guest) [
    | inl live ↦ rw (live, reuse_or_create) (search ensures)
    | inr gone ↦ rw (gone, reuse_or_create) (new_guest-Ensures writes deps r)
  ]

  pub guest-Ensures :
      KeptByWrites Q → (deps : Deps) (r : Request) → Ensures Q IsStable (guest {P = P} deps r)
  unfolding guest
  guest-Ensures writes deps r =
      search (ensures, resolve_guest-Preserves, reuse_or_create-Ensures) depth 8

  pub begin_promote-Ensures :
      {Fresh : String → Type 0}
      → KeptBySaves Fresh Q
      → (deps : Deps) (r : Request) → Ensures Q IsStable (begin_promote {P = P} deps r)
  unfolding begin_promote
  begin_promote-Ensures saves deps r =
      search (ensures, read_names-Ensures, resolve_guest-Preserves, begin_ceremony-Ensures) depth 10

  pub promote_error-Ensures :
      {A : Type 0} (e : Err) → Ensures {A = A} Q IsStable (promote_error {P = P} e)
  unfolding promote_error
  promote_error-Ensures Err.username_taken = search ensures
  promote_error-Ensures Err.user_not_found = search ensures
  promote_error-Ensures _ = search ensures

  pub complete_promote-Ensures :
      KeptByWrites Q
      → (deps : Deps) (r : Request) → Ensures Q IsStable (complete_promote {P = P} deps r)
  unfolding complete_promote
  complete_promote-Ensures writes deps r =
      search
        (
          ensures, verify_ceremony-Ensures, promote_error-Ensures, store_credential-Ensures,
          writes.promotion, kept.session_create, set_session_cookie-Keeps, drop_guest-Keeps,
        )
        depth 14
