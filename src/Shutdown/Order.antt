-- ===== src/Shutdown/Order.antt =====
-- The order in which the handlers run.
use mathlib.Core.List.{reverse-cons}
use bridge_framework.Base.{◌≡◌, refl, true, String, List, [], ◌∷◌, ◌++◌, reverse}
use bridge_framework.Shutdown.{
  CleanupHandler, ShutdownCoordinator, clean_up, message, report, shutdown,
}

module _ {ℓ} {World : Type ℓ} where
  -- The state after all handlers have run, the last of the list first, whether they fail or not.
  abbrev pub after_all : List (CleanupHandler World) → World → World
  after_all [] w = w
  after_all (h ∷ hs) w = (h.cleanup (after_all hs w)).0

  -- What the handlers report when they run in that order.
  abbrev pub failures : List (CleanupHandler World) → World → List String
  failures [] w = []
  failures (h ∷ hs) w = failures hs w ++ message h.name (h.cleanup (after_all hs w)).1

  clean_up-append :
      (hs gs : List (CleanupHandler World)) (w : World) (errors : List String)
      → clean_up (hs ++ gs) w errors ≡ clean_up gs (clean_up hs w errors).0 (clean_up hs w errors).1
  unfolding clean_up
  clean_up-append [] gs w errors = refl
  clean_up-append (h ∷ hs) gs w errors = clean_up-append hs gs (h.cleanup w).0 _

  clean_up-reverse :
      (hs : List (CleanupHandler World)) (w : World)
      → clean_up (reverse hs) w [] ≡ (after_all hs w, failures hs w)
  unfolding clean_up
  clean_up-reverse [] w = refl
  clean_up-reverse (h ∷ hs) w =
      rw (reverse-cons h hs, clean_up-append (reverse hs) (h ∷ []) w [], clean_up-reverse hs w) refl

  -- A shutdown raises the signal, runs every handler once, the one that was registered last first,
  -- each on the state that the one before it left, and goes on past those that fail; it reports
  -- their errors in that order, and succeeds if there are none.
  pub shutdown-order :
      (c : ShutdownCoordinator World) (w : World)
      → shutdown c w ≡ (
        record c { shutting_down = true },
        after_all c.handlers w,
        report (failures c.handlers w),
      )
  unfolding shutdown
  shutdown-order c w = rw (clean_up-reverse c.handlers w) refl
