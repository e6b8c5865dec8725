-- ===== src/Deploy/Ids.antt =====
-- The identifiers of the deployments: issued in order, and never twice.
use mathlib.Core.List.{map-append}
use mathlib.Core.Path.{subst}
use text.Mathlib.TextLemmas.{append_cancel_left}
use bridge_framework.Base.{
  ℕ, ◌+◌, ◌≤◌, ◌≡◌, refl, sym, ap, Bool, true, false, String, some, List, [], ◌∷◌, map, arith,
  ==_iff, ==_self, string_eq, contains, NoRepeats, All, All-imp, NoRepeats-push, push, find_first,
  set_first, decimal-injective, Bool-cases, inl, inr,
}
use bridge_framework.Deploy.{Deployment, dep_id, has_id}

abbrev pub ids : List Deployment → List String
ids = map (λ d. d.id)

abbrev pub IsIssued : ℕ → Deployment → Type 0
IsIssued n d = (k : ℕ) × (d.id ≡ dep_id k) × (k ≤ n)

pub dep_id-injective : (m n : ℕ) → dep_id m ≡ dep_id n → m ≡ n
unfolding dep_id
dep_id-injective m n h = decimal-injective m n (append_cancel_left "dep-" _ _ h)

pub ids-map :
    (f : Deployment → Deployment) (ds : List Deployment)
    → ((d : Deployment) → (f d).id ≡ d.id)
    → ids (map f ds) ≡ ids ds
ids-map f [] h = refl
ids-map f (d ∷ ds) h = rw (h d, ids-map f ds h) refl

pub ids-set_first :
    (p : Deployment → Bool) (f : Deployment → Deployment) (ds : List Deployment)
    → ((d : Deployment) → (f d).id ≡ d.id)
    → ids (set_first p f ds) ≡ ids ds
ids-set_first p f [] h = refl
ids-set_first p f (d ∷ ds) h = ground (arith, h d, ids-set_first p f ds h)

fresh :
    (n : ℕ) (ds : List Deployment)
    → All (IsIssued n) ds
    → contains (dep_id (n + 1)) (ids ds) ≡ false
fresh n [] h = refl
fresh n (d ∷ ds) ((k, e, le), h) =
    ground (arith, ==_iff d.id (dep_id (n + 1)), dep_id-injective k (n + 1), fresh n ds h)

-- A new identifier repeats none that was issued before.
pub NoRepeats-issue :
    (n : ℕ) (ds : List Deployment) (d : Deployment)
    → d.id ≡ dep_id (n + 1)
    → All (IsIssued n) ds
    → NoRepeats (ids ds)
    → NoRepeats (ids (push ds d))
NoRepeats-issue n ds d e h r =
    subst NoRepeats (sym (map-append (λ (x : Deployment). x.id) ds (d ∷ [])))
      (NoRepeats-push (ids ds) d.id (rw e (fresh n ds h)) r)

absent-fails :
    (id : String) (ds : List Deployment)
    → contains id (ids ds) ≡ false
    → All (λ d. has_id id d ≡ false) ds
absent-fails id [] h = tt
absent-fails id (d ∷ ds) h = (ground arith, absent-fails id ds (ground arith))

-- Where no identifier repeats, the first deployment that has one is the only one.
pub only_one :
    (id : String) (ds : List Deployment) (d : Deployment)
    → NoRepeats (ids ds)
    → find_first (has_id id) ds ≡ some d
    → All (λ x. has_id id x ≡ true → x ≡ d) ds
only_one id [] d n e = tt
only_one id (x ∷ ds) d n e = elim (Bool-cases (has_id id x)) [
  | inl here ↦ (
    λ _. ground arith,
    All-imp (λ y. has_id id y ≡ false) (λ y. has_id id y ≡ true → y ≡ d) ds
        (λ y fails passes. absurd (ground arith))
        (absent-fails id ds (ground (arith, ==_iff x.id id))),
  )
  | inr later ↦ (λ h. absurd (ground arith), only_one id ds d n.1 (rw later at e))
]

contains-found :
    (q : Deployment → Bool) (ds : List Deployment) (c : Deployment)
    → find_first q ds ≡ some c
    → contains c.id (ids ds) ≡ true
contains-found q [] c e = absurd (ground arith)
contains-found q (d ∷ ds) c e = elim (Bool-cases (q d)) [
  | inl here ↦ let same : d ≡ c = ground arith in rw (ap (λ x. x.id) same, ==_self c.id) refl
  | inr later ↦ ground (arith, contains-found q ds c (rw later at e))
]

-- A deployment that was found by any test is found again by its id.
pub find_again :
    (q : Deployment → Bool) (ds : List Deployment) (c : Deployment)
    → NoRepeats (ids ds)
    → find_first q ds ≡ some c
    → find_first (has_id c.id) ds ≡ some c
find_again q [] c n e = absurd (ground arith)
find_again q (d ∷ ds) c n e = elim (Bool-cases (q d)) [
  | inl here ↦ let same : d ≡ c = ground arith in rw (same, ==_self c.id) refl
  | inr later ↦
      let e' : find_first q ds ≡ some c = rw later at e in
      ground (arith, contains-found q ds c e', find_again q ds c n.1 e', ==_iff d.id c.id)
]
