-- ===== src/Shutdown.antt =====
-- The shutdown coordinator of daemon/src/shutdown.rs. A cleanup handler is code of the application:
-- it is a name and a step on the state of the application that may fail. The signal is a flag that
-- its clones share, and is kept with the coordinator that stores it.
pub mod Order
mod Tests
use Prim.Native.String.{◌++◌ as join_text}
use bridge_framework.Base.{
  ℕ, Bool, true, false, String, List, [], ◌∷◌, ◌++◌, push, reverse, Result, ok, err,
}

pub record CleanupHandler {ℓ} (World : Type ℓ) : Type ℓ where
  pub name : String
  pub cleanup : World → World × Result String (Unit {0})

pub record ShutdownCoordinator {ℓ} (World : Type ℓ) : Type ℓ where
  pub shutting_down : Bool
  pub handlers : List (CleanupHandler World)
  pub timeout : ℕ

abbrev join : String → List String → String
join sep [] = ""
join sep (s ∷ []) = s
join sep (s ∷ t ∷ rest) = join_text s (join_text sep (join sep (t ∷ rest)))

-- What the coordinator notes of a handler's result.
abbrev pub message : String → Result String (Unit {0}) → List String
message name (ok u) = []
message name (err e) = join_text name (join_text ": " e) ∷ []

abbrev pub report : List String → Result String (Unit {0})
report [] = ok tt
report (e ∷ errors) = err (join_text "Cleanup errors: " (join "; " (e ∷ errors)))

module _ {ℓ} {World : Type ℓ} where
  abbrev pub new : ℕ → ShutdownCoordinator World
  new timeout = record { shutting_down = false; handlers = []; timeout = timeout }

  abbrev pub register : CleanupHandler World → ShutdownCoordinator World → ShutdownCoordinator World
  register h c = record c { handlers = push c.handlers h }

  -- The loop over the handlers, with the errors so far.
  unfoldable pub clean_up : List (CleanupHandler World) → World → List String → World × List String
  clean_up [] w errors = (w, errors)
  clean_up (h ∷ hs) w errors =
      let done = h.cleanup w in clean_up hs done.0 (errors ++ message h.name done.1)

  unfoldable pub shutdown :
      ShutdownCoordinator World
      → World
      → ShutdownCoordinator World × World × Result String (Unit {0})
  unfolding clean_up
  shutdown c w =
      let done = clean_up (reverse c.handlers) w [] in
      (record c { shutting_down = true }, done.0, report done.1)
