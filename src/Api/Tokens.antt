-- ===== src/Api/Tokens.antt =====
-- A token that a client sends back in its cookie, and the user whom it is for.
use go_passkey_auth.Prelude.{
  ℕ, Bytes, String, ◌≡◌, ◌≢◌, sym, ap, ◌∙◌, some, arith, List, string_eq, nat_eq, find, find_sound,
  inl, inr, Option-cases, eq_iff, nat_beq_iff,
}
use go_passkey_auth.Domain.{ok, User}
use go_passkey_auth.Platform.{Platform, World, answered, counted}
use go_passkey_auth.Store.Postgres.Run.{run_sql}
use go_passkey_auth.Store.Postgres.Users.{has_id, get_by_id, select_by_id}
use go_passkey_auth.Store.Redis.Token.{new_token}
use go_passkey_auth.Store.Redis.Session as SessionStore
use go_passkey_auth.Store.Redis.Session.{session_key, resolved}
use go_passkey_auth.Store.Redis.Guest as GuestStore
use go_passkey_auth.Store.Redis.Guest.{guest_key}
use go_passkey_auth.Api.Cookie.{non_empty}

-- The encoding of the 32 random bytes of a token is not the empty text.
abbrev pub NeverEmpty : Platform → Type 0
NeverEmpty P = (n : ℕ) (b : Bytes) → P.rand_read n 32 ≡ some b → P.encode_base64 b ≢ ""

-- A cookie that is not empty is read.
pub carried : (token : String) → token ≢ "" → non_empty (some token) ≡ some token
carried token ne = ground (arith, eq_iff token "")

pub find_self :
    (i : ℕ) (us : List User) (u : User)
    → find (has_id i) us ≡ some u
    → find (has_id u.id) us ≡ some u
find_self i us u found =
    let same : u.id ≡ i = (nat_beq_iff u.id i).0 (find_sound (has_id i) us u found).0 in
    ap (λ j. find (has_id j) us) same ∙ found

module _ {P : Platform} where
  -- A token is not empty where the random source and the encoding make no empty one.
  pub session_drawn :
      (ttl id : ℕ) (w : World P) (token : String)
      → NeverEmpty P
      → (SessionStore.create {P = P} ttl id w).0 ≡ ok token
      → token ≢ ""
  unfolding SessionStore.create new_token
  session_drawn ttl id w token drawn e = elim (Option-cases (P.rand_read w.calls 32)) [
    | inl short ↦ absurd (ground (arith, short))
    | inr (b, read) ↦ λ empty.
        let same : token ≡ P.encode_base64 b = ground (arith, read) in
        drawn w.calls b read (sym same ∙ empty)
  ]

  pub guest_drawn :
      (ttl id : ℕ) (w : World P) (token : String)
      → NeverEmpty P
      → (GuestStore.create {P = P} ttl id w).0 ≡ ok token
      → token ≢ ""
  unfolding GuestStore.create new_token
  guest_drawn ttl id w token drawn e = elim (Option-cases (P.rand_read w.calls 32)) [
    | inl short ↦ absurd (ground (arith, short))
    | inr (b, read) ↦ λ empty.
        let same : token ≡ P.encode_base64 b = ground (arith, read) in
        drawn w.calls b read (sym same ∙ empty)
  ]

  pub get_by_id_run :
      (w : World P) (user : User)
      → P.pg_outcome w.calls ≡ answered
      → find (has_id user.id) w.db.users ≡ some user
      → get_by_id {P = P} user.id w ≡ (ok user, counted w)
  unfolding get_by_id run_sql select_by_id
  get_by_id_run w user answers found = ground (arith, answers, found)
