-- ===== src/Api/Health.antt =====
-- internal/api/handler/health.go: liveness and readiness. A subsystem that is not given is skipped;
-- one that is given answers a ping or not.
use go_passkey_auth.Prelude.{
  Bool, true, false, not, String, Option, none, some, ◌==◌, string_eq, if◌then◌else◌,
}
use go_passkey_auth.Platform.Library.{WebauthnLib}
use go_passkey_auth.Api.Http.{Response, liveness, readiness}

-- `pingStatusOf`, by whether the ping returned no error
abbrev pub ping_status_of : Bool → String
ping_status_of true = "ok"
ping_status_of false = "down"

abbrev pub status_of : Option Bool → Option String
status_of none = none
status_of (some up) = some (ping_status_of up)

-- The overall status after one more subsystem.
abbrev pub degraded_by : Option String → String → String
degraded_by none status = status
degraded_by (some s) status = if not (s == "ok") then "degraded" else status

module _ {L : WebauthnLib} where
  unfoldable pub live : Response L
  live = record { status = 200; body = liveness "ok" }

  unfoldable pub ready : Option Bool → Option Bool → Response L
  ready postgres redis =
      let status = degraded_by (status_of redis) (degraded_by (status_of postgres) "ok") in
      record {
        status = if not (status == "ok") then 503 else 200;
        body = readiness status (status_of postgres) (status_of redis);
      }
