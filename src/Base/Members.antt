-- ===== src/Base/Members.antt =====
-- Membership in a list by an equality test.
use mathlib.Core.Path.{◌≡◌, refl, ◌∙◌}
use mathlib.Core.Logic.{inl, inr}
use mathlib.Core.Bool.{Bool, false, ◌||◌, ◌&&◌}
use mathlib.Core.List.{List, [], ◌∷◌, map}
use native.Mathlib.Omega.{arith}
use bridge_framework.Base.Tests.{is_some, keep_if, Bool-cases}
use bridge_framework.Base.Lists.{filterb, push, All}
use bridge_framework.Base.Eq.{Eq, ◌==◌}
use bridge_framework.Base.Map
use bridge_framework.Base.Map.{Map, Distinct}

module _ {ℓ} {A : Type ℓ} ⦃e : Eq A⦄ where
  abbrev pub contains : A → List A → Bool
  contains a [] = false
  contains a (x ∷ xs) = x == a || contains a xs

  -- No item stands twice.
  abbrev pub NoRepeats : List A → Type 0
  NoRepeats [] = Unit
  NoRepeats (x ∷ xs) = (contains x xs ≡ false) × NoRepeats xs

  pub contains-filterb :
      (p : A → Bool) (a : A) (xs : List A) → contains a (filterb p xs) ≡ (contains a xs && p a)
  contains-filterb p a [] = refl
  contains-filterb p a (x ∷ xs) = ground (arith, e.equal_iff x a, contains-filterb p a xs)

  pub contains-push :
      (a : A) (xs : List A) (x : A) → contains a (push xs x) ≡ (contains a xs || x == a)
  contains-push a [] x = ground arith
  contains-push a (y ∷ xs) x = ground (arith, contains-push a xs x)

  pub NoRepeats-push :
      (xs : List A) (x : A) → contains x xs ≡ false → NoRepeats xs → NoRepeats (push xs x)
  NoRepeats-push [] x h n = (refl, tt)
  NoRepeats-push (y ∷ xs) x h n = (
    ground (arith, contains-push y xs x, e.equal_iff x y, e.equal_iff y x),
    NoRepeats-push xs x (ground arith) n.1,
  )

module _ {ℓ κ} {K : Type ℓ} {V : Type κ} ⦃e : Eq K⦄ where
  pub contains-keys : (k : K) (m : Map K V) → contains k (Map.keys m) ≡ is_some (Map.get k m)
  unfolding Map.get
  contains-keys k [] = refl
  contains-keys k ((j, v) ∷ m) = ground (arith, contains-keys k m)

  pub keys-NoRepeats : (m : Map K V) → Distinct m → NoRepeats (Map.keys m)
  keys-NoRepeats [] d = tt
  keys-NoRepeats ((j, v) ∷ m) d = (rw (contains-keys j m, d.0) refl, keys-NoRepeats m d.1)

-- Items that stand under their own names: the names of those that pass a test.
module _ {ℓ κ} {K : Type ℓ} {V : Type κ} ⦃e : Eq K⦄ (name : V → K) where
  abbrev pub Named : Map K V → Type ℓ
  Named = All (λ (x : K × V). name x.1 ≡ x.0)

  pub contains-filterb-values :
      (p : V → Bool) (k : K) (m : Map K V)
      → Distinct m
      → Named m
      → contains k (map name (filterb p (Map.values m))) ≡ is_some (keep_if p (Map.get k m))
  unfolding Map.get
  contains-filterb-values p k [] d n = refl
  contains-filterb-values p k ((j, v) ∷ m) d n =
      ground (arith, contains-filterb-values p k m d.1 n.1, e.equal_iff (name v) k, e.equal_iff j k)

  pub insert-Named : (v : V) (m : Map K V) → Named m → Named (Map.insert (name v) v m)
  unfolding Map.insert
  insert-Named v [] n = (refl, tt)
  insert-Named v ((j, w) ∷ m) n = elim (Bool-cases (j == name v)) [
    | inl here ↦ rw (here, Map.insert) (refl, n.1)
    | inr later ↦ rw (later, Map.insert) (n.0, insert-Named v m n.1)
  ]

  pub remove-Named : (k : K) (m : Map K V) → Named m → Named (Map.remove k m)
  unfolding Map.remove
  remove-Named k [] n = tt
  remove-Named k ((j, w) ∷ m) n = elim (Bool-cases (j == k)) [
    | inl here ↦ rw (here, Map.remove) (remove-Named k m n.1)
    | inr later ↦ rw (later, Map.remove) (n.0, remove-Named k m n.1)
  ]

  pub update-Named :
      (k : K) (f : V → V) (m : Map K V)
      → ((v : V) → name (f v) ≡ name v)
      → Named m
      → Named (Map.update k f m)
  unfolding Map.update
  update-Named k f [] same n = tt
  update-Named k f ((j, w) ∷ m) same n = elim (Bool-cases (j == k)) [
    | inl here ↦ rw (here, Map.update) (same w ∙ n.0, n.1)
    | inr later ↦ rw (later, Map.update) (n.0, update-Named k f m same n.1)
  ]
