-- ===== src/Tests/Challenges.antt =====
-- A challenge that is saved and taken twice.
use go_passkey_auth.Prelude.{arith, ◌≡◌, refl, List, [], ◌∷◌, none, All}
use go_passkey_auth.Domain.{challenge_not_found}
use go_passkey_auth.Store.Redis.Challenge.{save, take, challenge_key}
use go_passkey_auth.Store.Redis.Refinement.{Represents, store_run-spec_run}
use go_passkey_auth.Store.Redis.Spec.{
  Command, saving, taking, waiting, Answered, store_run, spec_run, payload, saved_ok, refused_with,
}
use go_passkey_auth.Tests.Fixture.{start, redis_server-IsRedis, view_start}

abbrev commands : List Command
commands = saving 60 "s" "session" ∷ waiting 10 ∷ taking "s" ∷ taking "s" ∷ []

start-Represents : Represents redis_server-IsRedis start (λ _. none)
start-Represents = record { at = λ u sid after. view_start u (challenge_key sid) }

no_failure_test : All Answered (store_run commands start)
unfolding save take
no_failure_test = ((λ e. cc, tt), (tt, ((λ e. cc, tt), ((λ e. cc, tt), tt))))

store_run-spec_run_example : store_run commands start ≡ spec_run commands 100 (λ _. none)
store_run-spec_run_example =
    store_run-spec_run redis_server-IsRedis commands start (λ _. none) start-Represents
      (omega arith, (tt, (tt, (tt, tt)))) no_failure_test

spec_run_test :
    spec_run commands 100 (λ _. none)
    ≡ (saved_ok ∷ []) ∷ [] ∷ (payload "session" ∷ []) ∷ (refused_with challenge_not_found ∷ []) ∷ []
spec_run_test = refl
