-- ===== src/Api/HealthService.antt =====
-- internal/api/v1/health_service.go: Ping.
use gophkeeper.Base.Go.{internal, status, Prog, map_err}

pub record HealthRepository (S : Type 0) : Type 0 where
  pub ping : Prog S (Unit {0})

pub record HealthService (S : Type 0) : Type 0 where
  pub repo : HealthRepository S

unfoldable pub new_health_service : {S : Type 0} → HealthRepository S → HealthService S
new_health_service repo = record { repo = repo }

unfoldable pub ping : {S : Type 0} → HealthService S → Prog S (Unit {0})
ping h = map_err (λ e. status internal "repository disconnected") h.repo.ping
