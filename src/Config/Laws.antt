-- ===== src/Config/Laws.antt =====
-- What a configuration that loads has, and when one loads.
use go_passkey_auth.Prelude.{
  ℕ, ◌<◌, Bool, String, ◌≡◌, refl, ◌≢◌, none, some, List, [], ◌∷◌, string_eq, if◌then◌else◌, arith,
  eq_iff, All,
}
use go_passkey_auth.Config.{
  Config, Loaded, loaded, invalid, Env, parse_ttl, config_of, ◌>>=◌, trim_all, split_and_trim,
  validate, load, new_service, service_config, library_refused, ServiceConfig, ConfigErr,
}

-- The fields are there, and every lifetime is positive.
pub record IsUsable (c : Config) : Type 0 where
  pub http_addr : c.http_addr ≢ ""
  pub database_url : c.database_url ≢ ""
  pub redis_url : c.redis_url ≢ ""
  pub rp_id : c.rp_id ≢ ""
  pub rp_display_name : c.rp_display_name ≢ ""
  pub rp_origins : c.rp_origins ≢ []
  pub session_ttl : 0 < c.session_ttl
  pub challenge_ttl : 0 < c.challenge_ttl
  pub guest_ttl : 0 < c.guest_ttl

parse_ttl_pos :
    (env : Env) (raw : String) (e : ConfigErr) (n : ℕ) → parse_ttl env raw e ≡ loaded n → 0 < n
unfolding parse_ttl
parse_ttl_pos env raw e n h = ground arith

trim_all-non_empty : (env : Env) (ps : List String) → All (λ s. s ≢ "") (trim_all env ps)
unfolding trim_all
trim_all-non_empty env [] = tt
trim_all-non_empty env (p ∷ ps) =
    ground (arith, eq_iff (env.trim_space p) "", trim_all-non_empty env ps)

pub split_and_trim-non_empty :
    (env : Env) (s sep : String) → All (λ t. t ≢ "") (split_and_trim env s sep)
unfolding split_and_trim
split_and_trim-non_empty env s sep = ground (arith, trim_all-non_empty env (env.split s sep))

validate_sound :
    (c d : Config)
    → validate c ≡ loaded d
    → (c ≡ d)
      × (c.http_addr ≢ "")
      × (c.database_url ≢ "")
      × (c.redis_url ≢ "")
      × (c.rp_id ≢ "")
      × (c.rp_display_name ≢ "")
      × (c.rp_origins ≢ [])
unfolding validate
validate_sound c d h = ground (
  arith,
  eq_iff c.http_addr "",
  eq_iff c.database_url "",
  eq_iff c.redis_url "",
  eq_iff c.rp_id "",
  eq_iff c.rp_display_name "",
)

bind-eq-loaded :
    {A B : Type 0} (m : Loaded A) (f : A → Loaded B) {b : B}
    → (m >>= f) ≡ loaded b
    → (a : A) × (m ≡ loaded a) × (f a ≡ loaded b)
bind-eq-loaded (loaded a) f h = (a, refl, h)
bind-eq-loaded (invalid e) f h = cc

-- A configuration that loads has every required field, at least one origin, no empty origin, and
-- positive lifetimes.
pub load-IsUsable :
    (env : Env) (c : Config) → load env ≡ loaded c → IsUsable c × All (λ s. s ≢ "") c.rp_origins
unfolding load
load-IsUsable env c h =
    let (s, hs, h1) = bind-eq-loaded _ _ h in
    let (t, ht, h2) = bind-eq-loaded _ _ h1 in
    let (g, hg, h3) = bind-eq-loaded _ _ h2 in
    let (same, a, d, r, i, n, o) = validate_sound (config_of env s t g) c h3 in
    rw (← same) (
      record {
        http_addr = a;
        database_url = d;
        redis_url = r;
        rp_id = i;
        rp_display_name = n;
        rp_origins = o;
        session_ttl = parse_ttl_pos env _ _ s hs;
        challenge_ttl = parse_ttl_pos env _ _ t ht;
        guest_ttl = parse_ttl_pos env _ _ g hg;
      },
      split_and_trim-non_empty env (env.getenv "RP_ORIGINS") ",",
    )

-- The service is built from a configuration that loaded, unless the library itself refuses it: none
-- of the four tests of `NewService` fails.
pub new_service-load :
    (env : Env) (c : Config) (accepts : ServiceConfig → Bool)
    → load env ≡ loaded c
    → new_service accepts (service_config c)
      ≡ (if accepts (service_config c) then none else some library_refused)
unfolding new_service
new_service-load env c accepts h =
    let u = (load-IsUsable env c h).0 in
    ground (
      arith,
      eq_iff c.rp_id "",
      eq_iff c.rp_display_name "",
      u.rp_id,
      u.rp_display_name,
      u.rp_origins,
      u.challenge_ttl,
    )
