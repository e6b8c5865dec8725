-- ===== src/Deploy/Live.antt =====
-- The registry over every sequence of calls: each target has one live deployment at most.
use bridge_framework.Base.{
  ℕ, ◌+◌, ◌≤◌, ◌≡◌, refl, sym, ◌∙◌, Bool, true, false, String, none, some, List, [], ◌∷◌, map,
  arith, ◌==◌, ==_iff, string_eq, map_some, NoRepeats, All, All-push, All-map, All-imp,
  All-set_first, countb, countb-push, countb-set_first, countb-set_first_fails, countb-map_le,
  countb-map_none, find_first, set_first, find_first-passes, All-of, Bool-cases, Option-cases, inl,
  inr, trim, is_empty_text,
}
use mathlib.Core.Path.{subst}
use bridge_framework.Deploy
use bridge_framework.Deploy.{
  Status, queued, building, deploying, deployed, failed, Deployment, DeployRegistry, new, dep_id,
  has_id, is_live, is_deployed, can_transition, supersede, demote, promote, live_id, is_candidate,
  is_platform,
}
use bridge_framework.Deploy.Ids.{
  ids, IsIssued, ids-map, ids-set_first, NoRepeats-issue, only_one, find_again,
}

pub data Step : DeployRegistry → DeployRegistry → Type 0 where
  create :
      (target platform revision : String) (r : DeployRegistry)
      → Step r (Deploy.create target platform revision r).0
  set_status :
      (id : String) (status : Status) (r : DeployRegistry)
      → Step r (Deploy.set_status id status r).0
  rollback : (target : String) (r : DeployRegistry) → Step r (Deploy.rollback target r).0

pub data Reach : DeployRegistry → Type 0 where
  start : Reach new
  next : {r s : DeployRegistry} → Reach r → Step r s → Reach s

pub record IsValid (r : DeployRegistry) : Type 0 where
  pub distinct : NoRepeats (ids r.deployments)
  pub issued : All (IsIssued r.next_seq) r.deployments
  pub one_live : (target : String) → countb (is_live target) r.deployments ≤ 1

create-IsValid :
    (target platform revision : String) (r : DeployRegistry)
    → IsValid r
    → IsValid (Deploy.create target platform revision r).0
unfolding Deploy.create
create-IsValid target platform revision r v = elim (Bool-cases (is_empty_text (trim target))) [
  | inl e ↦ rw e v
  | inr e ↦ elim (Bool-cases (is_platform (trim platform))) [
    | inr p ↦ rw (e, p) v
    | inl p ↦ elim (Bool-cases (is_empty_text (trim revision))) [
      | inl f ↦ rw (e, p, f) v
      | inr f ↦
          rw (e, p, f)
            (record {
              distinct = NoRepeats-issue r.next_seq r.deployments _ refl v.issued v.distinct;
              issued =
                  All-push (IsIssued (r.next_seq + 1)) r.deployments _
                    (All-imp (IsIssued r.next_seq) (IsIssued (r.next_seq + 1)) r.deployments
                      (λ d i. (i.0, i.1, omega (arith, i.2))) v.issued)
                    (r.next_seq + 1, refl, omega arith);
              one_live = λ t. ground (
                arith,
                v.one_live t,
                countb-push (is_live t) r.deployments (record {
                  id = dep_id (r.next_seq + 1);
                  target = trim target;
                  platform = trim platform;
                  revision = trim revision;
                  status = queued;
                  superseded_by = none;
                }),
              );
            })
    ]
  ]
]

-- What the loops of `set_status` and `rollback` have in common: they keep the id and the target of
-- every deployment, and make none live.
pub record Demotes (f : Deployment → Deployment) : Type 0 where
  pub keeps_id : (d : Deployment) → (f d).id ≡ d.id
  pub keeps_target : (d : Deployment) → (f d).target ≡ d.target
  pub revives_none : (t : String) (d : Deployment) → is_live t (f d) ≡ true → is_live t d ≡ true

pub supersede-Demotes : (id target : String) → Demotes (supersede id target)
unfolding supersede
supersede-Demotes id target = record {
  keeps_id = λ d. ground arith;
  keeps_target = λ d. ground arith;
  revives_none = λ t d h. ground arith;
}

pub demote-Demotes : (target candidate : String) → Demotes (demote target candidate)
unfolding demote
demote-Demotes target candidate = record {
  keeps_id = λ d. ground arith;
  keeps_target = λ d. ground arith;
  revives_none = λ t d h. ground arith;
}

module _ {f : Deployment → Deployment} (m : Demotes f) where
  pub find_first-map :
      (id : String) (ds : List Deployment)
      → find_first (has_id id) (map f ds) ≡ map_some f (find_first (has_id id) ds)
  find_first-map id [] = refl
  find_first-map id (d ∷ ds) = ground (arith, m.keeps_id d, find_first-map id ds)

  -- To demote all live deployments of a target and make one of its deployments live.
  pub one_live-replace :
      (g : Deployment → Deployment) (target id : String) (ds : List Deployment) (d : Deployment)
      → ((x : Deployment) → (g x).target ≡ x.target)
      → All (λ x. is_live target (f x) ≡ false) ds
      → find_first (has_id id) ds ≡ some d
      → d.target ≡ target
      → ((t : String) → countb (is_live t) ds ≤ 1)
      → (t : String) → countb (is_live t) (set_first (has_id id) g (map f ds)) ≤ 1
  one_live-replace g target id ds d kept clear found here one t = elim (Bool-cases (target == t)) [
    | inl same ↦
        let e : target ≡ t = ground (arith, ==_iff target t) in
        omega (
          arith,
          countb-set_first (is_live t) (has_id id) g (map f ds),
          countb-map_none (is_live t) f ds
              (subst (λ u. All (λ x. is_live u (f x) ≡ false) ds) e clear),
        )
    | inr other ↦ omega (
      arith,
      one t,
      countb-map_le (is_live t) f ds (m.revives_none t),
      countb-set_first_fails (is_live t) (has_id id) g (map f ds)
          (λ x e. ground (arith, kept x, m.keeps_target d, find_first-map id ds)),
    )
  ]

module _ (n : ℕ) (p : Deployment → Bool) (g : Deployment → Deployment)
    (kept : (d : Deployment) → (g d).id ≡ d.id) (ds : List Deployment) where
  distinct-set_first : NoRepeats (ids ds) → NoRepeats (ids (set_first p g ds))
  distinct-set_first h = rw (ids-set_first p g ds kept) h

  distinct-map : NoRepeats (ids ds) → NoRepeats (ids (map g ds))
  distinct-map h = rw (ids-map g ds kept) h

  IsIssued-set_first : All (IsIssued n) ds → All (IsIssued n) (set_first p g ds)
  IsIssued-set_first = All-set_first (IsIssued n) p g ds (λ x _ i. (i.0, kept x ∙ i.1, i.2))

  IsIssued-map : All (IsIssued n) ds → All (IsIssued n) (map g ds)
  IsIssued-map = All-map (IsIssued n) g ds (λ x i. (i.0, kept x ∙ i.1, i.2))

supersede_clears :
    (id target : String) (d x : Deployment)
    → is_deployed d.status ≡ false
    → (has_id id x ≡ true → x ≡ d)
    → is_live target (supersede id target x) ≡ false
unfolding supersede
supersede_clears id target d x h k = elim (Bool-cases (has_id id x)) [
  | inl it ↦ let e : is_deployed x.status ≡ false = rw (k it) h in ground arith
  | inr other ↦ ground arith
]

abbrev with_status : Status → Deployment → Deployment
with_status s d = record d { status = s }

module _ (id : String) (d : Deployment) (r : DeployRegistry)
    (found : find_first (has_id id) r.deployments ≡ some d) (v : IsValid r) where
  move-IsValid :
      (status : Status)
      → is_deployed status ≡ false
      → IsValid
          (record r { deployments = set_first (has_id id) (with_status status) r.deployments })
  move-IsValid status other = record {
    distinct =
        distinct-set_first r.next_seq (has_id id) (with_status status) (λ x. refl) r.deployments
          v.distinct;
    issued =
        IsIssued-set_first r.next_seq (has_id id) (with_status status) (λ x. refl) r.deployments
          v.issued;
    one_live = λ t. omega (
      arith,
      v.one_live t,
      countb-set_first_fails (is_live t) (has_id id) (with_status status) r.deployments
          (λ x e. ground arith),
    );
  }

  replace-IsValid :
      (f g : Deployment → Deployment)
      → Demotes f
      → ((x : Deployment) → (g x).id ≡ x.id)
      → ((x : Deployment) → (g x).target ≡ x.target)
      → All (λ x. is_live d.target (f x) ≡ false) r.deployments
      → IsValid (record r { deployments = set_first (has_id id) g (map f r.deployments) })
  replace-IsValid f g m kept_id kept_target clear = record {
    distinct =
        distinct-set_first r.next_seq (has_id id) g kept_id (map f r.deployments)
          (distinct-map r.next_seq (has_id id) f m.keeps_id r.deployments v.distinct);
    issued =
        IsIssued-set_first r.next_seq (has_id id) g kept_id (map f r.deployments)
          (IsIssued-map r.next_seq (has_id id) f m.keeps_id r.deployments v.issued);
    one_live =
        one_live-replace m g d.target id r.deployments d kept_target clear found refl v.one_live;
  }

set_status-IsValid :
    (id : String) (status : Status) (r : DeployRegistry)
    → IsValid r
    → IsValid (Deploy.set_status id status r).0
unfolding Deploy.set_status
set_status-IsValid id status r v = elim (Option-cases (find_first (has_id id) r.deployments)) [
  | inl absent ↦ rw (absent, Deploy.set_status) v
  | inr (d, found) ↦ elim (Bool-cases (can_transition d.status status)) [
    | inr illegal ↦ rw (found, Deploy.set_status, illegal) v
    | inl legal ↦ elim (Bool-cases (is_deployed status)) [
      | inr other ↦
          rw (found, Deploy.set_status, legal, other) (move-IsValid id d r found v status other)
      | inl live ↦
          rw (found, Deploy.set_status, legal, live)
            (replace-IsValid id d r found v (supersede id d.target) (with_status status)
              (supersede-Demotes id d.target) (λ x. refl) (λ x. refl)
              (All-imp (λ x. has_id id x ≡ true → x ≡ d)
                (λ x. is_live d.target (supersede id d.target x) ≡ false) r.deployments
                (λ x k. supersede_clears id d.target d x (ground arith) k)
                (only_one id r.deployments d v.distinct found)))
    ]
  ]
]

demote_clears :
    (target candidate : String) (x : Deployment)
    → is_live target (demote target candidate x) ≡ false
unfolding demote
demote_clears target candidate x = ground arith

rollback-IsValid :
    (target : String) (r : DeployRegistry) → IsValid r → IsValid (Deploy.rollback target r).0
unfolding Deploy.rollback
rollback-IsValid target r v = elim (Option-cases (live_id target r.deployments)) [
  | inl absent ↦ rw (absent, Deploy.rollback) v
  | inr (live, shown) ↦ elim (Option-cases (find_first (is_candidate target live) r.deployments)) [
    | inl absent ↦ rw (shown, absent, Deploy.rollback) v
    | inr (c, found) ↦
        let own : c.target ≡ target = ground (
          arith,
          find_first-passes (is_candidate target live) r.deployments c found,
          ==_iff c.target target,
        ) in
        let again = find_again (is_candidate target live) r.deployments c v.distinct found in
        let m = demote-Demotes target c.id in
        rw (shown, found, Deploy.rollback, find_first-map m c.id r.deployments, again)
          (replace-IsValid c.id c r again v (demote target c.id) promote m (λ x. refl) (λ x. refl)
            (subst (λ t. All (λ x. is_live t (demote target c.id x) ≡ false) r.deployments)
              (sym own)
              (All-of (λ x. is_live target (demote target c.id x) ≡ false)
                (demote_clears target c.id) r.deployments)))
  ]
]

Step-IsValid : {r s : DeployRegistry} → Step r s → IsValid r → IsValid s
Step-IsValid (create target platform revision r) v = create-IsValid target platform revision r v
Step-IsValid (set_status id status r) v = set_status-IsValid id status r v
Step-IsValid (rollback target r) v = rollback-IsValid target r v

-- In every registry that any sequence of calls leads to, no identifier stands twice, each was issued
-- by the counter, and every target has at most one live deployment.
pub Reach-IsValid : {r : DeployRegistry} → Reach r → IsValid r
Reach-IsValid start = record { distinct = tt; issued = tt; one_live = λ t. omega arith }
Reach-IsValid (next r s) = Step-IsValid s (Reach-IsValid r)
