-- ===== src/Tests/Fixture.antt =====
-- A server, a library and a random source that behave as documented, to run the program on.
use Prim.Native.String as Text
use Prim.Native.String.{◌∷◌ as cons}
use Prim.Native.String.count as Count
use go_passkey_auth.Prelude.{
  ℕ, zero, suc, ◌+◌, ◌≤◌, true, false, String, Bytes, Option, none, some, [], ◌∷◌, ◌≡◌, ◌≢◌, refl,
  ap, ◌==◌, string_eq, nat_eq, eq_iff, ltb, if◌then◌else◌, arith, ◌∙◌,
}
use go_passkey_auth.Store.Tables.{empty_db}
use go_passkey_auth.Platform.{Platform, IsUuid, World, answered, RegistrationSession}
use go_passkey_auth.Platform.Redis.{Reply, value, nil, RedisServer, IsRedis}
use go_passkey_auth.Platform.Library.{LibCredential, WaUser, WebauthnLib, ask}
use go_passkey_auth.Api.Http.{Request}
use go_passkey_auth.Api.Auth.Deps.{Deps}

-- What each key holds, with the time at which it expires.
abbrev pub Keys : Type 0
Keys = String → Option (String × ℕ)

abbrev live_at : ℕ → Option (String × ℕ) → Option String
live_at t none = none
live_at t (some (v, deadline)) = if ltb t deadline then some v else none

abbrev reply_of : Option String → Reply String
reply_of none = nil
reply_of (some v) = value v

abbrev put : String → Option (String × ℕ) → Keys → Keys
put k held s j = if k == j then held else s j

abbrev pub redis_server : RedisServer
redis_server = record {
  State = Keys;
  set = λ t k v ttl s. (value tt, put k (some (v, t + ttl)) s);
  get = λ t k s. (reply_of (live_at t (s k)), s);
  del = λ t k s. (value tt, put k none s);
  get_del = λ t k s. (reply_of (live_at t (s k)), put k none s);
}

live_at-expired :
    (t u : ℕ) (o : Option (String × ℕ)) → t ≤ u → live_at t o ≡ none → live_at u o ≡ none
live_at-expired t u none le h = refl
live_at-expired t u (some (v, deadline)) le h = ground arith

reply_of-value : (o : Option String) (v : String) → reply_of o ≡ value v → o ≡ some v
reply_of-value none v h = cc
reply_of-value (some w) v h = ground arith

reply_of-nil : (o : Option String) → reply_of o ≡ nil → o ≡ none
reply_of-nil none h = refl
reply_of-nil (some w) h = cc

put_same : (k : String) (o : Option (String × ℕ)) (s : Keys) → put k o s k ≡ o
put_same k o s = rw ((eq_iff k k).1 refl) refl

put_other : (k j : String) (o : Option (String × ℕ)) (s : Keys) → k ≢ j → put k o s j ≡ s j
put_other k j o s ne = ground (arith, eq_iff k j)

pub redis_server-IsRedis : IsRedis redis_server
redis_server-IsRedis = record {
  view = λ s t k. live_at t (s k);
  view_expired = λ s t u k. live_at-expired t u (s k);
  set_value = λ t u ttl k v s _ _ _. ap (live_at u) (put_same k (some (v, t + ttl)) s);
  set_frame = λ t u ttl k v j s ne. ap (live_at u) (put_other k j (some (v, t + ttl)) s ne);
  get_value = λ t k v s. reply_of-value (live_at t (s k)) v;
  get_nil = λ t k s. reply_of-nil (live_at t (s k));
  get_frame = λ t u k j s. refl;
  del_value = λ t u k s _ _. ap (live_at u) (put_same k none s);
  del_not_nil = λ t k s h. ground arith;
  del_frame = λ t u k j s ne. ap (live_at u) (put_other k j none s ne);
  get_del_value =
      λ t u k v s h _. (reply_of-value (live_at t (s k)) v h, ap (live_at u) (put_same k none s));
  get_del_nil =
      λ t u k s h _. (reply_of-nil (live_at t (s k)) h, ap (live_at u) (put_same k none s));
  del_gone = λ t u k s _. ap (live_at u) (put_same k none s);
  get_del_gone = λ t u k s _. ap (live_at u) (put_same k none s);
  get_del_frame = λ t u k j s ne. ap (live_at u) (put_other k j none s ne);
}

-- An id is written as that number of letters, and as one number among bytes.
abbrev pub tally : ℕ → String
tally zero = ""
tally (suc n) = cons "a" (tally n)

count-tally : (n : ℕ) → Text.count (tally n) ≡ n
count-tally zero = refl
count-tally (suc n) = Count.cons "a" (tally n) ∙ ap suc (count-tally n)

abbrev one_number : Bytes → Option ℕ
one_number (u ∷ []) = some u
one_number _ = none

one_number_sound : (b : Bytes) (u : ℕ) → one_number b ≡ some u → u ∷ [] ≡ b
one_number_sound [] u h = cc
one_number_sound (x ∷ []) u h = ground arith
one_number_sound (x ∷ y ∷ b) u h = cc

abbrev pub passkey : LibCredential
passkey = record {
  id = 7 ∷ [];
  public_key = 1 ∷ 2 ∷ [];
  attestation_type = "";
  attestation_format = "none";
  transport = "internal" ∷ [];
  user_present = true;
  user_verified = true;
  backup_eligible = true;
  backup_state = true;
  aaguid = [];
  sign_count = 0;
  clone_warning = false;
  attachment = "platform";
  attestation = 5 ∷ [];
}

abbrev pub first_credential : Option WaUser → Option LibCredential
first_credential none = none
first_credential (some u) = elim (u.credentials) [ [] ↦ none | c ∷ _ ↦ some c ]

-- One authenticator with one passkey. The session data is the user handle.
abbrev pub library : WebauthnLib
library = record {
  SessionData = Bytes;
  CreationOptions = Unit;
  RequestOptions = Unit;
  ParsedCreation = String;
  ParsedAssertion = String;
  session_user_id = λ s. s;
  raw_id = λ _. 7 ∷ [];
  begin_registration = λ _ u. some (tt, some u.handle);
  begin_discoverable_login = λ _. some (tt, some []);
  parse_creation = λ s. some s;
  parse_assertion = λ s. some s;
  create_credential = λ _ _ _ _. some passkey;
  finish_registration = λ _ _ _ _. some passkey;
  validate_discoverable_login = λ _ _ _. ask (7 ∷ []) [] first_credential;
}

abbrev pub session_of : String → RegistrationSession Bytes
session_of payload = record {
  session = 9 ∷ [];
  username = "alice";
  display_name = "Alice";
  promote_user_id = 0;
  promote = payload == "promote";
}

abbrev pub platform : Platform
platform = record {
  redis = redis_server;
  lib = library;
  pg_outcome = λ _. answered;
  new_uuid = λ n. n;
  rand_read = λ n _. if n == 0 then none else some (n ∷ []);
  encode_base64 = λ b. elim (one_number b) [ none ↦ "" | some n ↦ tally n ];
  uuid_string = tally;
  uuid_parse = λ s. some (Text.count s);
  uuid_from_bytes = one_number;
  uuid_bytes = λ u. u ∷ [];
  decode_names =
      λ s. if s == "" then none else some (record { username = "alice"; display_name = "Alice" });
  decode_complete =
      λ s. if s == "" then none else some (record { session_id = s; credential = "credential" });
  marshal_session = λ _. some "session";
  unmarshal_session = λ _. some [];
  marshal_registration = λ s. some (if s.promote then "promote" else "register");
  unmarshal_registration = λ s. some (session_of s);
  marshal_login = λ _. some "login";
  unmarshal_login = λ _. some (record { session = [] });
}

pub platform-IsUuid : IsUuid platform
platform-IsUuid = record {
  parse_string = λ u. ap some (count-tally u);
  from_bytes = λ u. refl;
  bytes = one_number_sound;
}

abbrev pub start : World platform
start = record { db = empty_db; redis = λ _. none; now = 100; calls = 1; cookies = []; log = [] }

abbrev pub deps : Deps
deps = record {
  challenge_ttl = 60;
  session_ttl = 1000;
  guest_ttl = 1000;
  session_max_age = 1000;
  guest_max_age = 1000;
}

abbrev pub request_of : String → Request
request_of body = record {
  cookie = λ _. none;
  tls = true;
  header = λ _. "";
  body = body;
  id_param = "";
  context_user = none;
}

-- The server starts empty.
pub view_start : (u : ℕ) (k : String) → redis_server-IsRedis.view start.redis u k ≡ none
unfolding redis_server-IsRedis
view_start u k = refl
