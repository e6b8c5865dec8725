-- ===== src/Deploy.antt =====
-- The deployment registry of daemon/src/deploy.rs. A message of an error is a constructor with the
-- message's arguments.
pub mod Ids
pub mod Live
pub mod Words
mod Tests
use Prim.Native.String.{compare, ◌++◌}
use text.Mathlib.Text.{is_le}
use bridge_framework.Base.{
  ℕ, ◌+◌, Bool, true, false, not, ◌&&◌, ◌||◌, String, Option, none, some, List, [], ◌∷◌, map,
  length, push, filterb, anyb, find_first, set_first, unwrap_or, map_some, and_then, if◌then◌else◌,
  nat_eq, string_eq, list_eq, ◌==◌, Result, ok, err, trim, split, is_empty_text, chars,
  to_lowercase, decimal,
}

pub data Status : Type 0 where
  queued building deploying deployed failed : Status

unfoldable pub as_str : Status → String
as_str queued = "queued"
as_str building = "building"
as_str deploying = "deploying"
as_str deployed = "deployed"
as_str failed = "failed"

unfoldable pub parse : String → Option Status
parse s =
    let word = to_lowercase (trim s) in
    if word == chars "queued"
    then some queued
    else if word == chars "building"
    then some building
    else if word == chars "deploying"
    then some deploying
    else if word == chars "deployed"
    then some deployed
    else if word == chars "failed"
    then some failed
    else none

abbrev pub can_transition : Status → Status → Bool
can_transition queued building = true
can_transition queued failed = true
can_transition building deploying = true
can_transition building failed = true
can_transition deploying deployed = true
can_transition deploying failed = true
can_transition _ _ = false

-- `== Status::Deployed`
abbrev pub is_deployed : Status → Bool
is_deployed deployed = true
is_deployed _ = false

pub record Deployment : Type 0 where
  pub id : String
  pub target : String
  pub platform : String
  pub revision : String
  pub status : Status
  pub superseded_by : Option String

pub record DeployRegistry : Type 0 where
  pub deployments : List Deployment
  pub next_seq : ℕ

abbrev pub new : DeployRegistry
new = record { deployments = []; next_seq = 0 }

pub data Error : Type 0 where
  target_required bad_platform revision_required : Error
  not_found : String → Error
  illegal_transition : Status → Status → Error

-- The identifier of the `n`th deployment.
unfoldable pub dep_id : ℕ → String
dep_id n = "dep-" ++ decimal n

-- `parts.len() == 2 || parts.len() == 3`, with no part empty.
unfoldable pub is_platform : String → Bool
is_platform p =
    let parts = split b'/' p in
    (length parts == 2 || length parts == 3) && not (anyb is_empty_text parts)

unfoldable pub create :
    String → String → String → DeployRegistry → DeployRegistry × Result Error String
create target platform revision r =
    let t = trim target in
    let p = trim platform in
    let rev = trim revision in
    if is_empty_text t
    then (r, err target_required)
    else if not (is_platform p)
    then (r, err bad_platform)
    else if is_empty_text rev
    then (r, err revision_required)
    else (let seq = r.next_seq + 1 in
        (
          record {
            deployments = push r.deployments (record {
              id = dep_id seq;
              target = t;
              platform = p;
              revision = rev;
              status = queued;
              superseded_by = none;
            });
            next_seq = seq;
          },
          ok (dep_id seq),
        ))

abbrev pub has_id : String → Deployment → Bool
has_id id d = d.id == id

-- Is the deployment the live one of the target?
abbrev pub is_live : String → Deployment → Bool
is_live target d = d.target == target && is_deployed d.status

-- The body of the loop of `set_status` that demotes what another deployment replaces.
unfoldable pub supersede : String → String → Deployment → Deployment
supersede id target d =
    if not (d.id == id) && is_live target d
    then record d { status = failed; superseded_by = some id }
    else d

unfoldable pub set_status :
    String → Status → DeployRegistry → DeployRegistry × Result Error (Unit {0})
set_status id status r = elim (find_first (has_id id) r.deployments) [
  | none ↦ (r, err (not_found id))
  | some d ↦
      if not (can_transition d.status status)
      then (r, err (illegal_transition d.status status))
      else (let demoted =
            if is_deployed status
            then map (supersede id d.target) r.deployments
            else r.deployments in
          (
            record r {
              deployments = set_first (has_id id) (λ x. record x { status = status }) demoted;
            },
            ok tt,
          ))
]

-- `max_by_key`: of equal keys the last.
unfoldable pub max_by_id : Option Deployment → List Deployment → Option Deployment
max_by_id best [] = best
max_by_id none (d ∷ ds) = max_by_id (some d) ds
max_by_id (some b) (d ∷ ds) = max_by_id (some (if is_le (compare b.id d.id) then d else b)) ds

abbrev pub live_id : String → List Deployment → Option String
live_id target ds = map_some (λ d. d.id) (max_by_id none (filterb (is_live target) ds))

abbrev pub was_superseded_by : String → Option String → Bool
was_superseded_by id none = false
was_superseded_by id (some by) = by == id

abbrev pub is_candidate : String → String → Deployment → Bool
is_candidate target live d = d.target == target && was_superseded_by live d.superseded_by

-- The body of the loop of `rollback` that demotes the live deployment.
unfoldable pub demote : String → String → Deployment → Deployment
demote target candidate d =
    if is_live target d then record d { status = failed; superseded_by = some candidate } else d

abbrev pub promote : Deployment → Deployment
promote d = record d { status = deployed; superseded_by = none }

-- The candidate is found again by its id after the loop, and it is there, since the loop keeps ids:
-- the last `?` of the source returns only after the demotion.
unfoldable pub rollback : String → DeployRegistry → DeployRegistry × Option String
rollback target r = elim (live_id target r.deployments) [
  | none ↦ (r, none)
  | some live ↦ elim (find_first (is_candidate target live) r.deployments) [
    | none ↦ (r, none)
    | some c ↦
        let demoted = map (demote target c.id) r.deployments in
        elim (find_first (has_id c.id) demoted) [
          | none ↦ (record r { deployments = demoted }, none)
          | some c' ↦
              (record r { deployments = set_first (has_id c.id) promote demoted }, some c'.id)
        ]
  ]
]
