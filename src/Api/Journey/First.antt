-- ===== src/Api/Journey/First.antt =====
-- internal/api/handler/auth.go, BeginRegister: the first request of an undisturbed registration.
use go_passkey_auth.Prelude.{
  ℕ, false, ◌||◌, Bytes, Option, String, ◌≡◌, ap, ◌∙◌, none, some, any, find_of_any, arith, ◌==◌,
  string_eq,
}
use go_passkey_auth.Platform.{Platform, World, NamesRequest, counted, answered}
use go_passkey_auth.Store.Postgres.Run.{run_sql}
use go_passkey_auth.Store.Postgres.Users.{get_by_username, select_by_username, is_registered_as}
use go_passkey_auth.Store.Redis.Challenge.{save, saved}
use go_passkey_auth.Webauthn.Service.{new_user_handle, begin_registration}
use go_passkey_auth.Api.Http.{
  Request, next, respond, ◌>>=◌, ◌>>◌, write_json, or_else, refuse_if, gets, creation_options,
}
use go_passkey_auth.Api.Http.Forward.{
  bind_next, seq_next, attempted, attempt_run, or_else_run, obtain_run,
}
use go_passkey_auth.Api.Auth.Deps.{Deps}
use go_passkey_auth.Api.Auth.Ceremony.{read_names, new_session_id, begin_ceremony, fresh_user}
use go_passkey_auth.Api.Auth.Register.{begin_register, check_name, is_free}
use go_passkey_auth.Api.Journey.{IsHonest}

module _ {P : Platform} where
  read_names_run :
      (r : Request) (w : World P) (names : NamesRequest)
      → P.decode_names r.body ≡ some names
      → (names.username == "" || names.display_name == "") ≡ false
      → read_names {P = P} r w ≡ (next names, w)
  unfolding read_names or_else refuse_if gets ◌>>=◌ ◌>>◌
  read_names_run r w names e filled = ground (arith, e, filled)

  check_name_run :
      (n : String) (w : World P)
      → P.pg_outcome w.calls ≡ answered
      → any (is_registered_as n) w.db.users ≡ false
      → check_name {P = P} n w ≡ (next tt, counted w)
  unfolding check_name is_free gets get_by_username run_sql select_by_username
  check_name_run n w answers free =
      let missing = find_of_any (is_registered_as n) w.db.users free in
      ground (arith, answers, missing)

  -- From the state `w` on, each call by its number.
  abbrev pub after_begin :
      (deps : Deps) (begin complete : Request) (w : World P) (elapsed : ℕ)
      → IsHonest {P = P} deps begin complete w elapsed
      → World P
  after_begin deps begin complete w elapsed c =
      let v : World P = counted (counted (counted (counted w))) in
      (save {P = P} deps.challenge_ttl (P.encode_base64 c.drawn) c.payload v).1

  pub begin_register_run :
      (deps : Deps) (begin complete : Request) (w : World P) (elapsed : ℕ)
      (c : IsHonest {P = P} deps begin complete w elapsed)
      → begin_register {P = P} deps begin w ≡ (
        respond
            (record { status = 200; body = creation_options c.options (P.encode_base64 c.drawn) }),
        after_begin deps begin complete w elapsed c,
      )
  unfolding begin_register begin_ceremony new_user_handle begin_registration write_json attempted
      save
  begin_register_run deps begin complete w elapsed c =
      let v1 : World P = counted w in
      let v2 : World P = counted v1 in
      let v3 : World P = counted v2 in
      let v4 : World P = counted v3 in
      let encoded : Option Bytes → Option String × World P =
        λ o. elim o [ none ↦ (none, v3) | some b ↦ (some (P.encode_base64 b), v3) ] in
      bind_next (read_names begin) _ w (read_names_run begin w c.names c.named c.named_fully)
      ∙ seq_next (check_name c.names.username) _ w
          (check_name_run c.names.username w (c.answers w.calls) c.name_free)
      ∙ bind_next _ _ v1 (obtain_run new_user_handle _ v1 (ap (λ o. (o, v2)) c.draws_handle))
      ∙ bind_next _ _ v2 (obtain_run new_session_id _ v2 (ap encoded c.draws_id))
      ∙ bind_next _ _ v3 (
          obtain_run
            (begin_registration {P = P} (fresh_user c.handle c.names) (P.encode_base64 c.drawn)) _
            v3 (ground (arith, c.begins)))
      ∙ bind_next _ _ v4 (or_else_run _ _ v4 c.marshals)
      ∙ seq_next _ _ v4 (
          attempt_run (save {P = P} deps.challenge_ttl (P.encode_base64 c.drawn) c.payload) _ v4
            (ap (λ x. (saved x, after_begin deps begin complete w elapsed c)) c.saves))
