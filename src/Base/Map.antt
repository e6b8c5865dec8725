-- ===== src/Base/Map.antt =====
-- A hash map as the list of its entries, in the order in which it iterates, and the laws by which
-- the other modules use it.
use Prim.Native.Nat.{◌+◌}
use mathlib.Core.Path.{◌≡◌, refl}
use mathlib.Core.Bool.{Bool, true}
use mathlib.Core.Option.{Option, none, some}
use mathlib.Core.List.{List, [], ◌∷◌, map}
use native.Mathlib.Omega.{arith}
use bridge_framework.Base.Tests.{if◌then◌else◌, is_some, keep_if, map_some}
use bridge_framework.Base.Lists.{length}
use bridge_framework.Base.Eq.{Eq, ◌==◌}

abbrev pub Map {ℓ κ} : Type ℓ → Type κ → Type (ℓ ⊔ κ)
Map K V = List (K × V)

module _ {ℓ κ} {K : Type ℓ} {V : Type κ} where
  abbrev pub keys : Map K V → List K
  keys = map (λ e. e.0)

  abbrev pub values : Map K V → List V
  values = map (λ e. e.1)

  -- `retain`: the entries that pass the test.
  unfoldable pub retain : (K → V → Bool) → Map K V → Map K V
  retain p [] = []
  retain p ((k, v) ∷ m) = if p k v then (k, v) ∷ retain p m else retain p m

module _ {ℓ κ} {K : Type ℓ} {V : Type κ} ⦃e : Eq K⦄ where
  unfoldable pub get : K → Map K V → Option V
  get k [] = none
  get k ((j, v) ∷ m) = if j == k then some v else get k m

  abbrev pub contains_key : K → Map K V → Bool
  contains_key k m = is_some (get k m)

  unfoldable pub insert : K → V → Map K V → Map K V
  insert k v [] = (k, v) ∷ []
  insert k v ((j, w) ∷ m) = if j == k then (k, v) ∷ m else (j, w) ∷ insert k v m

  unfoldable pub remove : K → Map K V → Map K V
  remove k [] = []
  remove k ((j, v) ∷ m) = if j == k then remove k m else (j, v) ∷ remove k m

  -- A write through `get_mut`.
  unfoldable pub update : K → (V → V) → Map K V → Map K V
  update k f [] = []
  update k f ((j, v) ∷ m) = if j == k then (j, f v) ∷ m else (j, v) ∷ update k f m

  -- No key stands twice, as in every hash map.
  abbrev pub Distinct : Map K V → Type κ
  Distinct [] = Unit
  Distinct ((k, v) ∷ m) = (get k m ≡ none) × Distinct m

  pub get-insert :
      (j k : K) (v : V) (m : Map K V) → get j (insert k v m) ≡ (if k == j then some v else get j m)
  unfolding get insert
  get-insert j k v [] = refl
  get-insert j k v ((i, w) ∷ m) =
      ground (arith, e.equal_iff k j, e.equal_iff i k, e.equal_iff i j, get-insert j k v m)

  pub get-insert_self : (k : K) (v : V) (m : Map K V) → get k (insert k v m) ≡ some v
  get-insert_self k v m =
      let same : e.equal k k ≡ true = (e.equal_iff k k).1 refl in rw (get-insert k k v m, same) refl

  -- A write of the value that stands there.
  pub get-insert_known :
      (k j : K) (v : V) (m : Map K V) → get k m ≡ some v → get j (insert k v m) ≡ get j m
  get-insert_known k j v m found = rw (get-insert j k v m) (ground (arith, e.equal_iff k j, found))

  pub get-remove : (j k : K) (m : Map K V) → get j (remove k m) ≡ (if k == j then none else get j m)
  unfolding get remove
  get-remove j k [] = ground arith
  get-remove j k ((i, w) ∷ m) =
      ground (arith, e.equal_iff k j, e.equal_iff i k, e.equal_iff i j, get-remove j k m)

  pub get-update :
      (j k : K) (f : V → V) (m : Map K V)
      → get j (update k f m) ≡ (if k == j then map_some f (get j m) else get j m)
  unfolding get update
  get-update j k f [] = ground arith
  get-update j k f ((i, w) ∷ m) =
      ground (arith, e.equal_iff k j, e.equal_iff i k, e.equal_iff i j, get-update j k f m)

  pub get-retain :
      (j : K) (p : K → V → Bool) (m : Map K V)
      → Distinct m
      → get j (retain p m) ≡ keep_if (p j) (get j m)
  unfolding get retain
  get-retain j p [] d = refl
  get-retain j p ((i, w) ∷ m) d = ground (arith, e.equal_iff i j, get-retain j p m d.1)

  pub insert-Distinct : (k : K) (v : V) (m : Map K V) → Distinct m → Distinct (insert k v m)
  unfolding insert get
  insert-Distinct k v [] d = (refl, tt)
  insert-Distinct k v ((i, w) ∷ m) d =
      ground
        (arith, e.equal_iff i k, e.equal_iff k i, get-insert i k v m, insert-Distinct k v m d.1)

  pub remove-Distinct : (k : K) (m : Map K V) → Distinct m → Distinct (remove k m)
  unfolding remove
  remove-Distinct k [] d = tt
  remove-Distinct k ((i, w) ∷ m) d = ground (arith, get-remove i k m, remove-Distinct k m d.1)

  pub update-Distinct : (k : K) (f : V → V) (m : Map K V) → Distinct m → Distinct (update k f m)
  unfolding update
  update-Distinct k f [] d = tt
  update-Distinct k f ((i, w) ∷ m) d = ground (arith, get-update i k f m, update-Distinct k f m d.1)

  pub retain-Distinct : (p : K → V → Bool) (m : Map K V) → Distinct m → Distinct (retain p m)
  unfolding retain
  retain-Distinct p [] d = tt
  retain-Distinct p ((i, w) ∷ m) d = ground (arith, get-retain i p m d.1, retain-Distinct p m d.1)

  pub length-remove :
      (k : K) (m : Map K V)
      → Distinct m
      → length (remove k m) + (if is_some (get k m) then 1 else 0) ≡ length m
  unfolding get remove
  length-remove k [] d = refl
  length-remove k ((i, w) ∷ m) d = ground (arith, e.equal_iff i k, length-remove k m d.1)

  pub length-insert :
      (k : K) (v : V) (m : Map K V)
      → length (insert k v m) ≡ length m + (if is_some (get k m) then 0 else 1)
  unfolding get insert
  length-insert k v [] = refl
  length-insert k v ((i, w) ∷ m) = ground (arith, length-insert k v m)

  pub length-update : (k : K) (f : V → V) (m : Map K V) → length (update k f m) ≡ length m
  unfolding update
  length-update k f [] = refl
  length-update k f ((i, w) ∷ m) = ground (arith, length-update k f m)
