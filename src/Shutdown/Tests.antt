-- ===== src/Shutdown/Tests.antt =====
-- A shutdown of two handlers that write to a log, of which one fails.
use bridge_framework.Base.{◌≡◌, refl, true, String, List, [], ◌∷◌, push, ok, err}
use bridge_framework.Shutdown.{
  CleanupHandler, ShutdownCoordinator, new, register, clean_up, report, shutdown,
}
use bridge_framework.Shutdown.Order
use bridge_framework.Shutdown.Order.{after_all, failures}

program : Unit {0}
unfolding shutdown clean_up
program = tt

abbrev flush : CleanupHandler (List String)
flush = record { name = "flush"; cleanup = λ log. (push log "flush", ok tt) }

abbrev close : CleanupHandler (List String)
close = record { name = "close"; cleanup = λ log. (push log "close", err "busy") }

abbrev two : ShutdownCoordinator (List String)
two = register close (register flush (new 30))

two_run :
    ((shutdown two []).1 ≡ "close" ∷ "flush" ∷ [])
    × ((shutdown two []).2 ≡ err "Cleanup errors: close: busy")
unfolding program
two_run = (refl, refl)

shutdown-order_example : shutdown two [] ≡ (
  record two { shutting_down = true },
  after_all two.handlers [],
  report (failures two.handlers []),
)
shutdown-order_example = Order.shutdown-order two []
