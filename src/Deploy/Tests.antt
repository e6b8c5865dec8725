-- ===== src/Deploy/Tests.antt =====
-- Runs of the deployment registry on small inputs.
use bridge_framework.Base.{◌≡◌, refl, String, some, List, [], ◌∷◌, map, err, trim, split, decimal}
use bridge_framework.Deploy.{
  Status, building, deploying, deployed, failed, DeployRegistry, new, create, set_status, rollback,
  dep_id, is_platform, max_by_id, supersede, demote, bad_platform,
}
use bridge_framework.Deploy.Live
use bridge_framework.Deploy.Live.{Reach, start, next, Step, IsValid}

program : Unit {0}
unfolding create set_status rollback dep_id is_platform max_by_id supersede demote trim split
    decimal
program = tt

abbrev advance : String → DeployRegistry → DeployRegistry
advance id r = (set_status id deployed (set_status id deploying (set_status id building r).0).0).0

abbrev release : String → DeployRegistry → DeployRegistry
release revision r = (create "prod" "linux/amd64" revision r).0

-- Three releases of one target, each made live.
abbrev three : DeployRegistry
three =
    advance "dep-3"
      (release "v3" (advance "dep-2" (release "v2" (advance "dep-1" (release "v1" new)))))

abbrev statuses : DeployRegistry → List Status
statuses r = map (λ d. d.status) r.deployments

create_run : (create "prod" "linux/" "abc" new).1 ≡ err bad_platform
unfolding program
create_run = refl

three_run : statuses three ≡ failed ∷ failed ∷ deployed ∷ []
unfolding program
three_run = refl

-- The first rollback returns to the second release; the one after it goes on to the first release,
-- not back to the third, which the second had replaced last.
rollback_run :
    ((rollback "prod" three).1 ≡ some "dep-2")
    × ((rollback "prod" (rollback "prod" three).0).1 ≡ some "dep-1")
unfolding program
rollback_run = (refl, refl)

one-Reach : Reach (release "v1" new)
one-Reach = next start (Step.create "prod" "linux/amd64" "v1" new)

Reach-IsValid_example : IsValid (release "v1" new)
Reach-IsValid_example = Live.Reach-IsValid one-Reach
