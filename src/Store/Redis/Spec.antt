-- ===== src/Store/Redis/Spec.antt =====
-- internal/store/redis/challenge.go: the challenge store as a map from session ids to payloads with
-- deadlines, and the commands that drive both.
use go_passkey_auth.Prelude.{
  ℕ, ◌+◌, String, Option, none, some, ◌≢◌, ◌<◌, ltb, if◌then◌else◌, List, [], ◌∷◌, All, ◌==◌,
  string_eq,
}
use go_passkey_auth.Domain.{Result, ok, err, Err, challenge_not_found, other}
use go_passkey_auth.Platform.{Platform, World}
use go_passkey_auth.Store.Redis.Challenge.{save, take}

-- What each session id stands for, and until when.
abbrev pub Challenges : Type 0
Challenges = String → Option (String × ℕ)

abbrev pub live_at : ℕ → Option (String × ℕ) → Option String
live_at now none = none
live_at now (some (payload, deadline)) = if ltb now deadline then some payload else none

abbrev pub put : String → Option (String × ℕ) → Challenges → Challenges
put sid entry m key = if sid == key then entry else m key

-- Calls of the store, and time that passes.
pub data Command : Type 0 where
  saving : ℕ → String → String → Command
  taking : String → Command
  waiting : ℕ → Command

-- A lifetime of zero is none to the server.
abbrev pub HasLifetime : Command → Type 0
HasLifetime (saving ttl _ _) = 0 < ttl
HasLifetime _ = Unit {0}

-- The answer of a call; a save has no payload to give.
pub data Answer : Type 0 where
  saved_ok : Answer
  payload : String → Answer
  refused_with : Err → Answer

abbrev pub answer_taken : Option String → Answer
answer_taken none = refused_with challenge_not_found
answer_taken (some p) = payload p

-- One call on the map, at a time.
abbrev pub spec_step : Command → ℕ → Challenges → List Answer × ℕ × Challenges
spec_step (saving ttl sid p) now m = (saved_ok ∷ [], now, put sid (some (p, now + ttl)) m)
spec_step (taking sid) now m = (answer_taken (live_at now (m sid)) ∷ [], now, put sid none m)
spec_step (waiting n) now m = ([], now + n, m)

abbrev pub spec_run : List Command → ℕ → Challenges → List (List Answer)
spec_run [] now m = []
spec_run (c ∷ cs) now m =
    let (answers, now', m') = spec_step c now m in answers ∷ spec_run cs now' m'

abbrev pub save_answer : Result (Unit {0}) → Answer
save_answer (ok _) = saved_ok
save_answer (err e) = refused_with e

abbrev pub take_answer : Result String → Answer
take_answer (ok p) = payload p
take_answer (err e) = refused_with e

module _ {P : Platform} where
  abbrev pub store_step : Command → World P → List Answer × World P
  store_step (saving ttl sid p) w = let (r, w') = save ttl sid p w in (save_answer r ∷ [], w')
  store_step (taking sid) w = let (r, w') = take sid w in (take_answer r ∷ [], w')
  store_step (waiting n) w = ([], record w { now = w.now + n })

  abbrev pub store_run : List Command → World P → List (List Answer)
  store_run [] w = []
  store_run (c ∷ cs) w = let (answers, w') = store_step c w in answers ∷ store_run cs w'

-- No call failed.
abbrev pub Answered : List Answer → Type 0
Answered answers = All (λ a. a ≢ refused_with other) answers
