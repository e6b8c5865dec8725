-- ===== src/Base/Pointwise.antt =====
-- A property of every entry of a map, stated through lookups, and the operations that keep it.
use mathlib.Core.Path.{◌≡◌, subst}
use mathlib.Core.Logic.{inl, inr}
use mathlib.Core.Bool.{Bool}
use mathlib.Core.Option.{some}
use mathlib.Core.List.{[]}
use native.Mathlib.Omega.{arith}
use bridge_framework.Base.Tests.{Bool-cases, Option-cases}
use bridge_framework.Base.Eq.{Eq, ◌==◌}
use bridge_framework.Base.Map
use bridge_framework.Base.Map.{Map, Distinct, get-insert, get-update, get-retain, get-remove}

module _ {ℓ κ μ} {K : Type ℓ} {V : Type κ} ⦃e : Eq K⦄ (P : K → V → Type μ) where
  pub record Everywhere (m : Map K V) : Type (ℓ ⊔ κ ⊔ μ) where
    pub at : (k : K) (v : V) → Map.get k m ≡ some v → P k v

  pub Everywhere-nil : Everywhere []
  unfolding Map.get
  Everywhere-nil = record { at = λ k v h. cc }

  pub Everywhere-insert :
      (k : K) (v : V) {m : Map K V} → P k v → Everywhere m → Everywhere (Map.insert k v m)
  Everywhere-insert k v {m} p h = record {
    at = λ j w found. elim (Bool-cases (k == j)) [
      | inl same ↦
          let q : k ≡ j = (e.equal_iff k j).0 same in
          let r : v ≡ w = ground (arith, get-insert j k v m) in
          subst (λ x. P x w) q (subst (P k) r p)
      | inr other ↦ h.at j w (ground (arith, get-insert j k v m))
    ];
  }

  pub Everywhere-update :
      (k : K) (f : V → V) {m : Map K V}
      → ((v : V) → Map.get k m ≡ some v → P k v → P k (f v))
      → Everywhere m
      → Everywhere (Map.update k f m)
  Everywhere-update k f {m} keep h = record {
    at = λ j w found. elim (Option-cases (Map.get j m)) [
      | inl absent ↦ absurd (ground (arith, get-update j k f m))
      | inr (old, was) ↦ elim (Bool-cases (k == j)) [
        | inl same ↦
            let q : k ≡ j = (e.equal_iff k j).0 same in
            let r : f old ≡ w = ground (arith, get-update j k f m) in
            let here : Map.get k m ≡ some old = rw q was in
            subst (λ x. P x w) q (subst (P k) r (keep old here (h.at k old here)))
        | inr other ↦ h.at j w (ground (arith, get-update j k f m))
      ]
    ];
  }

  pub Everywhere-retain :
      (p : K → V → Bool) {m : Map K V} → Distinct m → Everywhere m → Everywhere (Map.retain p m)
  Everywhere-retain p {m} d h = record {
    at = λ j w found. elim (Option-cases (Map.get j m)) [
      | inl absent ↦ absurd (ground (arith, get-retain j p m d))
      | inr (old, was) ↦ h.at j w (ground (arith, get-retain j p m d))
    ];
  }

  pub Everywhere-remove : (k : K) {m : Map K V} → Everywhere m → Everywhere (Map.remove k m)
  Everywhere-remove k {m} h = record {
    at = λ j w found. h.at j w (ground (arith, get-remove j k m, Bool-cases (k == j)));
  }
