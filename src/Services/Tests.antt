-- ===== src/Services/Tests.antt =====
-- Runs of the service registry on small inputs.
use bridge_framework.Base.{
  ◌≡◌, ◌↔◌, ◌+◌, ◌<◌, refl, true, false, some, [], ◌∷◌, map, contains, string_eq, decimal,
}
use bridge_framework.Base.Map
use bridge_framework.Services.{
  Service, ServiceRegistry, new, new_service, register, heartbeat, list_alive, discover, url,
  list_filtered, deregister,
}
use bridge_framework.Services.Alive
use bridge_framework.Services.Alive.{Reach, start, next, Step}

program : Unit {0}
unfolding register heartbeat list_alive list_filtered deregister url decimal Map.get Map.insert
    Map.update Map.remove
program = tt

abbrev api : Service
api = new_service 100 "api" "localhost" 8080

abbrev one : ServiceRegistry
one = register api new

one_run :
    (url api ≡ "http://localhost:8080")
    × (map (λ s. s.name) (list_alive 129 one) ≡ "api" ∷ [])
    × (list_alive 130 one ≡ [])
    × ((heartbeat 120 "web" one).1 ≡ false)
unfolding program
one_run = (refl, refl, refl, refl)

one-Reach : Reach one
one-Reach = next start (Step.register api new)

contains-list_alive_example :
    (contains "api" (map (λ s. s.name) (list_alive 120 one)) ≡ true)
    ↔ ((s : Service) × (discover "api" one ≡ some s) × (120 < s.last_heartbeat + 30))
contains-list_alive_example = Alive.contains-list_alive one-Reach 120 "api"
