-- ===== src/Deploy/Words.antt =====
-- The words for the states of a deployment, and the moves between states.
use bridge_framework.Base.{◌≡◌, refl, some, trim}
use bridge_framework.Deploy.{Status, queued, building, deploying, deployed, failed, as_str, parse}

-- Every state is read back from its word.
pub parse-as_str : (s : Status) → parse (as_str s) ≡ some s
unfolding parse as_str trim
parse-as_str queued = refl
parse-as_str building = refl
parse-as_str deploying = refl
parse-as_str deployed = refl
parse-as_str failed = refl
