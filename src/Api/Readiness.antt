-- ===== src/Api/Readiness.antt =====
-- internal/api/handler/health.go, Ready: when a load balancer may send traffic.
use go_passkey_auth.Prelude.{
  ℕ, String, Bool, true, false, ◌≡◌, ◌≢◌, ◌↔◌, refl, ap, Option, none, some, arith, ◌⊎◌, inl, inr,
}
use go_passkey_auth.Platform.Library.{WebauthnLib}
use go_passkey_auth.Api.Http.{Response, readiness}
use go_passkey_auth.Api.Health.{ready, status_of}

module _ (L : WebauthnLib) (postgres redis : Option Bool) where
  abbrev answer : ℕ → String → Response L
  answer status text = record {
    status = status;
    body = readiness text (status_of postgres) (status_of redis);
  }

  -- The status code says whether a subsystem is down, and the body is that of the code.
  abbrev Tells : Type 0
  Tells =
      ((ready {L = L} postgres redis).status ≡ 200 ↔ (postgres ≢ some false) × (redis ≢ some false))
      × ((ready {L = L} postgres redis ≡ answer 200 "ok")
          ⊎ (ready {L = L} postgres redis ≡ answer 503 "degraded"))

  tells_up :
      ready {L = L} postgres redis ≡ answer 200 "ok"
      → (postgres ≢ some false) × (redis ≢ some false)
      → Tells
  tells_up e up = (((λ _. up), λ _. ap (λ r. r.status) e), inl e)

  tells_down :
      ready {L = L} postgres redis ≡ answer 503 "degraded"
      → ¬ ((postgres ≢ some false) × (redis ≢ some false))
      → Tells
  tells_down e down =
      (((λ h. absurd (ground (arith, ap (λ r. r.status) e))), λ up. absurd (down up)), inr e)

-- A subsystem that is not given, or that answers its ping, is not down.
none_up : ◌≢◌ {A = Option Bool} none (some false)
none_up e = cc

some_up : ◌≢◌ {A = Option Bool} (some true) (some false)
some_up e = cc

module _ {L : WebauthnLib} where
  -- Ready answers 200 just if neither subsystem that is given fails its ping, with the status "ok";
  -- otherwise it answers 503, with the status "degraded". Either way the body names the subsystems
  -- that are given, each by its own ping.
  pub ready_iff :
      (postgres redis : Option Bool)
      → ((ready {L = L} postgres redis).status ≡ 200
          ↔ (postgres ≢ some false) × (redis ≢ some false))
        × ((ready {L = L} postgres redis ≡ record {
          status = 200;
          body = readiness "ok" (status_of postgres) (status_of redis);
        })
            ⊎ (ready {L = L} postgres redis ≡ record {
              status = 503;
              body = readiness "degraded" (status_of postgres) (status_of redis);
            }))
  unfolding ready
  ready_iff none none = tells_up L none none refl (none_up, none_up)
  ready_iff none (some true) = tells_up L none (some true) refl (none_up, some_up)
  ready_iff (some true) none = tells_up L (some true) none refl (some_up, none_up)
  ready_iff (some true) (some true) = tells_up L (some true) (some true) refl (some_up, some_up)
  ready_iff none (some false) = tells_down L none (some false) refl (λ up. up.1 refl)
  ready_iff (some true) (some false) = tells_down L (some true) (some false) refl (λ up. up.1 refl)
  ready_iff (some false) none = tells_down L (some false) none refl (λ up. up.0 refl)
  ready_iff (some false) (some true) = tells_down L (some false) (some true) refl (λ up. up.0 refl)
  ready_iff (some false) (some false) =
      tells_down L (some false) (some false) refl (λ up. up.0 refl)
