-- ===== src/Api/Gone.antt =====
-- A key that Redis no longer holds: every call of the endpoints keeps it so, unless a token or a
-- session id that is drawn later falls on it.
pub mod Writes
pub mod History
use go_passkey_auth.Prelude.{
  ℕ, true, false, String, Bytes, ◌≡◌, ◌≢◌, sym, ap, ◌∙◌, Option, none, some, ◌≤◌, arith, inl, inr,
  refl, Bool-cases, eq_iff, ◌==◌, string_eq,
}
use go_passkey_auth.Domain.{Result, ok, err, Err}
use go_passkey_auth.Store.Tables.{Db, Sql}
use go_passkey_auth.Platform as Go
use go_passkey_auth.Platform.{Platform, PgOutcome, answered, refused, lost, World, counted}
use go_passkey_auth.Platform.Redis.{IsRedis}
use go_passkey_auth.Store.Postgres.Run.{run_sql}
use go_passkey_auth.Store.Postgres.Users.{
  insert_user, select_by_id, select_by_username, promote_user, get_by_id, get_by_username,
  create_guest, create_registered, promote_guest,
}
use go_passkey_auth.Store.Postgres.Credentials.{
  insert_credential, select_live, select_by_user, update_rows, is_live_key, set_assertion,
  get_by_credential_id, list_by_user_id, insert, update_after_assertion,
}
use go_passkey_auth.Store.Postgres.SoftDelete.{in_tx, commit, mark_deleted}
use go_passkey_auth.Store.Redis.Token.{new_token}
use go_passkey_auth.Store.Redis.Challenge.{save, take, challenge_key}
use go_passkey_auth.Store.Redis.Session as SessionStore
use go_passkey_auth.Store.Redis.Session.{session_key}
use go_passkey_auth.Store.Redis.Guest as GuestStore
use go_passkey_auth.Store.Redis.Guest.{guest_key}
use go_passkey_auth.Store.Redis.Keys.{
  challenge_key_ne, session_key-ne-challenge_key, guest_key-ne-challenge_key,
}
use go_passkey_auth.Api.Http.Ensures.{Preserves, Preserves-bind}
use go_passkey_auth.Api.Kept.Deletion.{soft_delete-Preserves}
use go_passkey_auth.Api.Kept.{KeptByLookups, KeptByWrites, KeptBySaves}

-- No call before the `from`-th is still to come, and the key is held neither now nor later.
pub record Spent {P : Platform} (L : IsRedis P.redis) (from : ℕ) (key : String) (w : World P)
    : Type 0 where
  pub reached : from ≤ w.calls
  pub gone : (u : ℕ) → w.now ≤ u → L.view w.redis u key ≡ none

-- What the random source gives from the `from`-th call on is not encoded as `token`.
abbrev pub NeverDrawn : Platform → ℕ → String → Type 0
NeverDrawn P from token =
    (n : ℕ) (b : Bytes) → from ≤ n → P.rand_read n 32 ≡ some b → P.encode_base64 b ≢ token

-- A kind of key under which no token that is drawn from the `from`-th call on falls on `key`.
abbrev pub Misses : Platform → ℕ → String → (String → String) → Type 0
Misses P from key key_of =
    (n : ℕ) (b : Bytes) → from ≤ n → P.rand_read n 32 ≡ some b → key_of (P.encode_base64 b) ≢ key

module _ {P : Platform} (L : IsRedis P.redis) (from : ℕ) (key : String) where
  -- A call that leaves Redis alone, whatever it does to the tables.
  pub Spent-db :
      (w : World P) (db : Db)
      → Spent L from key w
      → Spent L from key (record (counted w) { db = db })
  Spent-db w db s = record {
    reached = let n : from ≤ w.calls = s.reached in omega arith;
    gone = s.gone;
  }

  pub Spent-counted : (w : World P) → Spent L from key w → Spent L from key (counted w)
  Spent-counted w s = Spent-db w w.db s

  -- A command that does not bring the key back.
  Spent-redis :
      (w : World P) (redis' : P.redis.State)
      → ((u : ℕ) → L.view w.redis u key ≡ none → L.view redis' u key ≡ none)
      → Spent L from key w
      → Spent L from key (record (counted w) { redis = redis' })
  Spent-redis w redis' still s = record {
    reached = let n : from ≤ w.calls = s.reached in omega arith;
    gone = λ u after. still u (s.gone u after);
  }

  pub run_sql-Spent :
      {A : Type 0} (statement : Db → Sql A × Db) (w : World P)
      → Spent L from key w
      → Spent L from key (run_sql statement w).1
  unfolding run_sql
  run_sql-Spent {A} statement w s = go (P.pg_outcome w.calls)
    where
      go :
          (o : PgOutcome)
          → let r : Sql A × World P = elim o [
            | answered ↦ ((statement w.db).0, record (counted w) { db = (statement w.db).1 })
            | refused ↦ (Sql.failure, counted w)
            | lost ↦ (Sql.failure, record (counted w) { db = (statement w.db).1 })
          ] in
            Spent L from key r.1
      go answered = Spent-db w (statement w.db).1 s
      go refused = Spent-counted w s
      go lost = Spent-db w (statement w.db).1 s

  -- A command on one key, which leaves the others alone and does not bring its own back.
  command-Spent :
      (w : World P) (own : String) (redis' : P.redis.State)
      → ((u : ℕ) → own ≢ key → L.view redis' u key ≡ L.view w.redis u key)
      → ((u : ℕ) → L.view w.redis u own ≡ none → L.view redis' u own ≡ none)
      → Spent L from key w
      → Spent L from key (record (counted w) { redis = redis' })
  command-Spent w own redis' frame still = Spent-redis w redis' λ u h.
      elim (Bool-cases (own == key)) [
        | inl same ↦
            let e : own ≡ key = (eq_iff own key).0 same in
            ap (L.view redis' u) (sym e) ∙ still u (ap (L.view w.redis u) e ∙ h)
        | inr other ↦ frame u (λ e. ground (arith, eq_iff own key)) ∙ h
      ]

  set_key-Spent :
      (own token text : String) (ttl : ℕ) (w : World P)
      → own ≢ key
      → Spent L from key w
      → Spent L from key (SessionStore.set_key {P = P} own token ttl text w).1
  set_key-Spent own token text ttl w ne =
      Spent-redis w (P.redis.set w.now own text ttl w.redis).1
        (λ u h. L.set_frame w.now u ttl own text key w.redis ne ∙ h)

  -- A token that is drawn, and stored under its key.
  mint-Spent :
      (key_of : String → String) (text : String) (ttl : ℕ) (w : World P)
      → Misses P from key key_of
      → Spent L from key w
      → Spent L from key
          (Go.◌>>=◌ new_token
            (λ token. SessionStore.set_key {P = P} (key_of token) token ttl text)
            w).1
  unfolding new_token
  mint-Spent key_of text ttl w misses s = go (P.rand_read w.calls 32) refl
    where
      go :
          (o : Option Bytes)
          → P.rand_read w.calls 32 ≡ o
          → let t : Result String × World P = elim o [
            | none ↦ (err Err.other, counted w)
            | some b ↦ (ok (P.encode_base64 b), counted w)
          ] in
            let v : Result String × World P = elim t.0 [
              | ok token ↦ SessionStore.set_key {P = P} (key_of token) token ttl text t.1
              | err e ↦ (err e, t.1)
            ] in
            Spent L from key v.1
      go none e = Spent-counted w s
      go (some b) e =
          set_key-Spent (key_of (P.encode_base64 b)) (P.encode_base64 b) text ttl (counted w)
            (misses w.calls b s.reached e) (Spent-counted w s)

  pub Spent-KeptByLookups :
      Misses P from key session_key
      → Misses P from key guest_key
      → KeptByLookups (Spent {P = P} L from key)
  unfolding get_by_id get_by_username get_by_credential_id list_by_user_id SessionStore.get
      SessionStore.delete GuestStore.get GuestStore.delete SessionStore.create GuestStore.create
      take
  Spent-KeptByLookups sessions guests = record {
    log = record { at = λ lines w s. record { reached = s.reached; gone = s.gone } };
    cookie = λ c. record { at = λ w s. record { reached = s.reached; gone = s.gone } };
    count_call = record { at = Spent-counted };
    user_by_id = λ id. record { at = run_sql-Spent (select_by_id id) };
    user_by_name = λ n. record { at = run_sql-Spent (select_by_username n) };
    credential_by_id = λ c. record { at = run_sql-Spent (select_live c) };
    credentials_of = λ u. record { at = run_sql-Spent (select_by_user u) };
    take_challenge = λ t. record {
      at = λ w.
          command-Spent w (challenge_key t) (P.redis.get_del w.now (challenge_key t) w.redis).1
            (λ u. L.get_del_frame w.now u (challenge_key t) key w.redis)
            (λ u. L.get_del_gone w.now u (challenge_key t) w.redis);
    };
    session_create =
        λ ttl u. record { at = λ w. mint-Spent session_key (P.uuid_string u) ttl w sessions };
    session_get = λ t. record {
      at = λ w.
          Spent-redis w (P.redis.get w.now (session_key t) w.redis).1
            (λ u h. L.get_frame w.now u (session_key t) key w.redis ∙ h);
    };
    session_delete = λ t. record {
      at = λ w.
          command-Spent w (session_key t) (P.redis.del w.now (session_key t) w.redis).1
            (λ u. L.del_frame w.now u (session_key t) key w.redis)
            (λ u. L.del_gone w.now u (session_key t) w.redis);
    };
    guest_create =
        λ ttl u. record { at = λ w. mint-Spent guest_key (P.uuid_string u) ttl w guests };
    guest_get = λ t. record {
      at = λ w.
          Spent-redis w (P.redis.get w.now (guest_key t) w.redis).1
            (λ u h. L.get_frame w.now u (guest_key t) key w.redis ∙ h);
    };
    guest_delete = λ t. record {
      at = λ w.
          command-Spent w (guest_key t) (P.redis.del w.now (guest_key t) w.redis).1
            (λ u. L.del_frame w.now u (guest_key t) key w.redis)
            (λ u. L.del_gone w.now u (guest_key t) w.redis);
    };
  }

  pub Spent-KeptBySaves :
      Misses P from key challenge_key
      → KeptBySaves {P = P} (λ s. challenge_key s ≢ key) (Spent {P = P} L from key)
  unfolding save
  Spent-KeptBySaves challenges = record {
    drawn = λ w b s. challenges w.calls b s.reached;
    save_challenge = λ ttl s payload ne. record {
      at = λ w.
          Spent-redis w (P.redis.set w.now (challenge_key s) payload ttl w.redis).1
            (λ u h. L.set_frame w.now u ttl (challenge_key s) payload key w.redis ne ∙ h);
    };
  }
