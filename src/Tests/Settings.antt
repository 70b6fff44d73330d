-- ===== src/Tests/Settings.antt =====
-- A configuration that loads.
use go_passkey_auth.Prelude.{true, ◌≡◌, refl, none, some, [], ◌∷◌, All, ◌≢◌}
use go_passkey_auth.Config.{
  Env, Config, pos, load, loaded, parse_ttl, validate, split_and_trim, trim_all, new_service,
  service_config,
}
use go_passkey_auth.Config.Laws.{IsUsable, load-IsUsable, new_service-load}

abbrev pub env : Env
env = record {
  getenv = λ key. key;
  parse_duration = λ _. some (pos 5);
  split = λ s _. s ∷ "" ∷ [];
  trim_space = λ s. s;
}

abbrev pub settings : Config
settings = record {
  http_addr = "HTTP_ADDR";
  database_url = "DATABASE_URL";
  redis_url = "REDIS_URL";
  rp_id = "RP_ID";
  rp_display_name = "RP_DISPLAY_NAME";
  rp_origins = "RP_ORIGINS" ∷ [];
  session_ttl = 5;
  challenge_ttl = 5;
  guest_ttl = 5;
}

pub load_test : load env ≡ loaded settings
unfolding load parse_ttl validate split_and_trim trim_all
load_test = refl

load-IsUsable_example : IsUsable settings × All (λ s. s ≢ "") settings.rp_origins
load-IsUsable_example = load-IsUsable env settings load_test

new_service-load_example : new_service (λ _. true) (service_config settings) ≡ none
new_service-load_example = new_service-load env settings (λ _. true) load_test
