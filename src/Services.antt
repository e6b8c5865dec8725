-- ===== src/Services.antt =====
-- The service registry of daemon/src/registry.rs. A method that reads the clock takes the reading
-- first, in seconds. The lock is taken to succeed: it is poisoned only when a holder has panicked.
pub mod Alive
mod Tests
use Prim.Native.String.{◌++◌}
use bridge_framework.Base.{
  ℕ, ◌-◌, Bool, true, false, String, Option, some, none, List, [], ◌∷◌, length, filterb, ltb,
  is_some, string_eq, decimal,
}
use bridge_framework.Base.Map
use bridge_framework.Base.Map.{Map}

pub record Service : Type 0 where
  pub name : String
  pub host : String
  pub port : ℕ  -- u16
  pub scheme : String
  pub metadata : Map String String
  pub last_heartbeat : ℕ

abbrev pub with_scheme : ℕ → String → String → ℕ → String → Service
with_scheme now name host port scheme = record {
  name = name;
  host = host;
  port = port;
  scheme = scheme;
  metadata = [];
  last_heartbeat = now;
}

abbrev pub new_service : ℕ → String → String → ℕ → Service
new_service now name host port = with_scheme now name host port "http"

unfoldable pub url : Service → String
unfolding decimal
url s = s.scheme ++ "://" ++ s.host ++ ":" ++ decimal s.port

unfoldable pub with_metadata : String → String → Service → Service
with_metadata key value s = record s { metadata = Map.insert key value s.metadata }

abbrev pub get_metadata : String → Service → Option String
get_metadata key s = Map.get key s.metadata

abbrev pub refreshed : ℕ → Service → Service
refreshed now s = record s { last_heartbeat = now }

-- `saturating_sub` is the subtraction that stops at 0.
abbrev pub is_alive : ℕ → Service → Bool
is_alive now s = ltb (now - s.last_heartbeat) 30

abbrev pub ServiceRegistry : Type 0
ServiceRegistry = Map String Service

abbrev pub new : ServiceRegistry
new = []

unfoldable pub register : Service → ServiceRegistry → ServiceRegistry
register s r = Map.insert s.name s r

unfoldable pub deregister : String → ServiceRegistry → ServiceRegistry × Bool
deregister name r = (Map.remove name r, Map.contains_key name r)

abbrev pub discover : String → ServiceRegistry → Option Service
discover name r = Map.get name r

abbrev pub is_registered : String → ServiceRegistry → Bool
is_registered name r = Map.contains_key name r

abbrev pub list_all : ServiceRegistry → List Service
list_all r = Map.values r

unfoldable pub list_filtered : (Service → Bool) → ServiceRegistry → List Service
list_filtered p r = filterb p (Map.values r)

abbrev pub count : ServiceRegistry → ℕ
count r = length r

unfoldable pub heartbeat : ℕ → String → ServiceRegistry → ServiceRegistry × Bool
heartbeat now name r = (Map.update name (refreshed now) r, Map.contains_key name r)

unfoldable pub list_alive : ℕ → ServiceRegistry → List Service
unfolding list_filtered
list_alive now r = list_filtered (is_alive now) r

abbrev pub clear : ServiceRegistry → ServiceRegistry
clear r = []
