-- ===== src/Base/Lists.antt =====
-- Lists measured by native numbers, and filters by Boolean tests.
use Prim.Native.Nat.{ℕ, suc, ◌+◌, ◌≤◌}
use mathlib.Core.Path.{◌≡◌, refl, subst}
use mathlib.Core.Bool.{Bool, true, false, ◌||◌}
use mathlib.Core.Option.{Option, none, some}
use mathlib.Core.List.{List, [], ◌∷◌, ◌++◌, map}
use mathlib.Core.Logic.{inl, inr}
use native.Mathlib.Omega.{arith}
use bridge_framework.Base.Tests.{if◌then◌else◌, Bool-cases}

module _ {ℓ} {A : Type ℓ} where
  abbrev pub length : List A → ℕ
  length [] = 0
  length (x ∷ xs) = suc (length xs)

  abbrev pub is_empty : List A → Bool
  is_empty [] = true
  is_empty (x ∷ xs) = false

  pub length-append : (xs ys : List A) → length (xs ++ ys) ≡ length xs + length ys
  length-append [] ys = omega arith
  length-append (x ∷ xs) ys = omega (arith, length-append xs ys)

  -- `push` of `Vec`.
  abbrev pub push : List A → A → List A
  push xs x = xs ++ x ∷ []

  abbrev pub filterb : (A → Bool) → List A → List A
  filterb p [] = []
  filterb p (x ∷ xs) = if p x then x ∷ filterb p xs else filterb p xs

  abbrev pub countb : (A → Bool) → List A → ℕ
  countb p [] = 0
  countb p (x ∷ xs) = if p x then suc (countb p xs) else countb p xs

  abbrev pub anyb : (A → Bool) → List A → Bool
  anyb p [] = false
  anyb p (x ∷ xs) = p x || anyb p xs

  -- `find` of an iterator: the first item that passes.
  abbrev pub find_first : (A → Bool) → List A → Option A
  find_first p [] = none
  find_first p (x ∷ xs) = if p x then some x else find_first p xs

  pub length-filterb : (p : A → Bool) (xs : List A) → length (filterb p xs) ≡ countb p xs
  length-filterb p [] = refl
  length-filterb p (x ∷ xs) = ground (arith, length-filterb p xs)

  pub countb-le-length : (p : A → Bool) (xs : List A) → countb p xs ≤ length xs
  countb-le-length p [] = omega arith
  countb-le-length p (x ∷ xs) = ground (arith, countb-le-length p xs)

  -- Every item of a list has a property, by recursion, so that tactics read it.
  abbrev pub All {κ} : (A → Type κ) → List A → Type κ
  All P [] = Unit
  All P (x ∷ xs) = P x × All P xs

  -- A write to the first item that passes, through `iter_mut().find(…)`.
  abbrev pub set_first : (A → Bool) → (A → A) → List A → List A
  set_first p f [] = []
  set_first p f (x ∷ xs) = if p x then f x ∷ xs else x ∷ set_first p f xs

  -- A change of one item raises the count of a test by one at most, and not at all where the changed
  -- item fails the test.
  pub countb-set_first :
      (q p : A → Bool) (f : A → A) (xs : List A) → countb q (set_first p f xs) ≤ countb q xs + 1
  countb-set_first q p f [] = omega arith
  countb-set_first q p f (x ∷ xs) = ground (arith, countb-set_first q p f xs)

  pub countb-set_first_fails :
      (q p : A → Bool) (f : A → A) (xs : List A)
      → ((x : A) → find_first p xs ≡ some x → q (f x) ≡ false)
      → countb q (set_first p f xs) ≤ countb q xs
  countb-set_first_fails q p f [] h = omega arith
  countb-set_first_fails q p f (x ∷ xs) h = elim (Bool-cases (p x)) [
    | inl here ↦ ground (arith, h x)
    | inr later ↦ ground (arith, countb-set_first_fails q p f xs (λ y e. h y (rw later e)))
  ]

  pub countb-map_le :
      (q : A → Bool) (f : A → A) (xs : List A)
      → ((x : A) → q (f x) ≡ true → q x ≡ true)
      → countb q (map f xs) ≤ countb q xs
  countb-map_le q f [] h = omega arith
  countb-map_le q f (x ∷ xs) h = ground (arith, h x, countb-map_le q f xs h)

  pub countb-map_none :
      (q : A → Bool) (f : A → A) (xs : List A)
      → All (λ x. q (f x) ≡ false) xs
      → countb q (map f xs) ≡ 0
  countb-map_none q f [] h = refl
  countb-map_none q f (x ∷ xs) h = ground (arith, countb-map_none q f xs h.1)

  pub countb-push :
      (q : A → Bool) (xs : List A) (x : A)
      → countb q (push xs x) ≡ countb q xs + (if q x then 1 else 0)
  countb-push q [] x = ground arith
  countb-push q (y ∷ xs) x = ground (arith, countb-push q xs x)

  pub All-push {κ} : (P : A → Type κ) (xs : List A) (x : A) → All P xs → P x → All P (push xs x)
  All-push P [] x h p = (p, tt)
  All-push P (y ∷ xs) x h p = (h.0, All-push P xs x h.1 p)

  pub All-map {κ} :
      (P : A → Type κ) (f : A → A) (xs : List A)
      → ((x : A) → P x → P (f x))
      → All P xs
      → All P (map f xs)
  All-map P f [] k h = tt
  All-map P f (x ∷ xs) k h = (k x h.0, All-map P f xs k h.1)

  pub All-imp {κ μ} :
      (P : A → Type κ) (Q : A → Type μ) (xs : List A) → ((x : A) → P x → Q x) → All P xs → All Q xs
  All-imp P Q [] k h = tt
  All-imp P Q (x ∷ xs) k h = (k x h.0, All-imp P Q xs k h.1)

  pub All-set_first {κ} :
      (P : A → Type κ) (p : A → Bool) (f : A → A) (xs : List A)
      → ((x : A) → find_first p xs ≡ some x → P x → P (f x))
      → All P xs
      → All P (set_first p f xs)
  All-set_first P p f [] k h = tt
  All-set_first P p f (x ∷ xs) k h = elim (Bool-cases (p x)) [
    | inl here ↦ rw here (k x (rw here refl) h.0, h.1)
    | inr later ↦ rw later (h.0, All-set_first P p f xs (λ y e. k y (rw later e)) h.1)
  ]

  pub All-find_first {κ} :
      (P : A → Type κ) (p : A → Bool) (xs : List A) (x : A)
      → find_first p xs ≡ some x
      → All P xs
      → P x × (p x ≡ true)
  All-find_first P p [] x e h = absurd (ground arith)
  All-find_first P p (y ∷ xs) x e h = elim (Bool-cases (p y)) [
    | inl here ↦
        let same : y ≡ x = ground arith in (subst P same h.0, subst (λ z. p z ≡ true) same here)
    | inr later ↦ All-find_first P p xs x (rw later at e) h.1
  ]

  pub All-of {κ} : (P : A → Type κ) → ((x : A) → P x) → (xs : List A) → All P xs
  All-of P h [] = tt
  All-of P h (x ∷ xs) = (h x, All-of P h xs)

  pub find_first-passes :
      (p : A → Bool) (xs : List A) (x : A) → find_first p xs ≡ some x → p x ≡ true
  find_first-passes p xs x e =
      (All-find_first (λ _. Unit {0}) p xs x e (All-of (λ _. Unit {0}) (λ _. tt) xs)).1

  pub All-filterb {κ} :
      (P : A → Type κ) (p : A → Bool) (xs : List A) → All P xs → All P (filterb p xs)
  All-filterb P p [] h = tt
  All-filterb P p (x ∷ xs) h = elim (Bool-cases (p x)) [
    | inl kept ↦ rw kept (h.0, All-filterb P p xs h.1)
    | inr dropped ↦ rw dropped (All-filterb P p xs h.1)
  ]
