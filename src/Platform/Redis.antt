-- ===== src/Platform/Redis.antt =====
-- What internal/store/redis asks of the Redis server through go-redis: a parameter of the
-- development. Times and lifetimes are in nanoseconds.
use Prim.Native.Nat.{ℕ, ◌≤◌, ◌<◌, ◌+◌}
use go_passkey_auth.Prelude.{String, Option, none, some, ◌≡◌, ◌≢◌, ltb, if◌then◌else◌}

-- The outcome of a command: a value, `redis.Nil`, or any other error.
pub data Reply (A : Type 0) : Type 0 where
  value : A → Reply A
  nil failed : Reply A

-- Each command takes the time at which it runs. SET takes a key, a value and a lifetime.
pub record RedisServer : Type 1 where
  pub State : Type 0
  pub set : ℕ → String → String → ℕ → State → Reply (Unit {0}) × State
  pub get : ℕ → String → State → Reply String × State
  pub del : ℕ → String → State → Reply (Unit {0}) × State
  pub get_del : ℕ → String → State → Reply String × State

-- The documented behaviour of the commands, by what a key holds at a time. A command that fails may
-- have taken effect or not, but touches no other key.
pub record IsRedis (r : RedisServer) : Type 0 where
  pub view : r.State → ℕ → String → Option String
  -- a key that is gone does not come back with time
  pub view_expired :
      (s : r.State) (t u : ℕ) (k : String) → t ≤ u → view s t k ≡ none → view s u k ≡ none
  -- SET with a lifetime; one of zero is no expiration, and the law says nothing of it. Lifetimes
  -- are exact here, where go-redis sends them in milliseconds.
  pub set_value :
      (t u ttl : ℕ) (k v : String) (s : r.State)
      → 0 < ttl
      → (r.set t k v ttl s).0 ≡ value tt
      → t ≤ u
      → view (r.set t k v ttl s).1 u k ≡ (if ltb u (t + ttl) then some v else none)
  pub set_frame :
      (t u ttl : ℕ) (k v j : String) (s : r.State)
      → k ≢ j
      → view (r.set t k v ttl s).1 u j ≡ view s u j
  pub get_value :
      (t : ℕ) (k v : String) (s : r.State) → (r.get t k s).0 ≡ value v → view s t k ≡ some v
  pub get_nil : (t : ℕ) (k : String) (s : r.State) → (r.get t k s).0 ≡ nil → view s t k ≡ none
  pub get_frame : (t u : ℕ) (k j : String) (s : r.State) → view (r.get t k s).1 u j ≡ view s u j
  pub del_value :
      (t u : ℕ) (k : String) (s : r.State)
      → (r.del t k s).0 ≡ value tt
      → t ≤ u
      → view (r.del t k s).1 u k ≡ none
  -- DEL answers by a count
  pub del_not_nil : (t : ℕ) (k : String) (s : r.State) → (r.del t k s).0 ≢ nil
  pub del_frame :
      (t u : ℕ) (k j : String) (s : r.State) → k ≢ j → view (r.del t k s).1 u j ≡ view s u j
  pub get_del_value :
      (t u : ℕ) (k v : String) (s : r.State)
      → (r.get_del t k s).0 ≡ value v
      → t ≤ u
      → (view s t k ≡ some v) × (view (r.get_del t k s).1 u k ≡ none)
  pub get_del_nil :
      (t u : ℕ) (k : String) (s : r.State)
      → (r.get_del t k s).0 ≡ nil
      → t ≤ u
      → (view s t k ≡ none) × (view (r.get_del t k s).1 u k ≡ none)
  -- DEL and GETDEL write nothing
  pub del_gone :
      (t u : ℕ) (k : String) (s : r.State) → view s u k ≡ none → view (r.del t k s).1 u k ≡ none
  pub get_del_gone :
      (t u : ℕ) (k : String) (s : r.State) → view s u k ≡ none → view (r.get_del t k s).1 u k ≡ none
  pub get_del_frame :
      (t u : ℕ) (k j : String) (s : r.State) → k ≢ j → view (r.get_del t k s).1 u j ≡ view s u j
