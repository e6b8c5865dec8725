-- ===== src/Base/Decimal.antt =====
-- The decimal numeral of a number, as `format!` prints it.
use Prim.Native.Char.{Char, code}
use Prim.Native.String.{String}
use Prim.Native.Nat.{ℕ, zero, suc, ◌+◌, ◌*◌, ◌-◌, ◌/◌, ◌%◌, ◌<◌, ◌≤◌}
use mathlib.Core.Path.{◌≡◌, refl, sym, ap, ◌∙◌}
use mathlib.Core.Bool.{Bool, true, false}
use mathlib.Core.Logic.{◌≢◌, inl, inr}
use native.Mathlib.Omega.{arith}
use bridge_framework.Base.Tests.{ltb, if◌then◌else◌, Bool-cases}

digit : ℕ → Char
digit zero = "0"
digit (suc zero) = "1"
digit (suc (suc zero)) = "2"
digit (suc (suc (suc zero))) = "3"
digit (suc (suc (suc (suc zero)))) = "4"
digit (suc (suc (suc (suc (suc zero))))) = "5"
digit (suc (suc (suc (suc (suc (suc zero)))))) = "6"
digit (suc (suc (suc (suc (suc (suc (suc zero))))))) = "7"
digit (suc (suc (suc (suc (suc (suc (suc (suc zero)))))))) = "8"
digit _ = "9"

-- The digits of `n` in front of a text, least significant first, on fuel.
digits_onto : ℕ → ℕ → String → String
digits_onto zero n s = s
digits_onto (suc f) n s =
    let rest = digits_onto f (n / 10) (String.◌∷◌ (digit (n % 10)) s) in
    if ltb n 10 then String.◌∷◌ (digit n) s else rest

unfoldable pub decimal : ℕ → String
unfolding digits_onto digit
decimal n = digits_onto (suc n) n String.[]

-- The number that a text of digits continues.
unfoldable pub value : ℕ → String → ℕ
value v String.[] = v
value v (String.◌∷◌ c s) = value (v * 10 + (code c - 48)) s

code-digit : (d : ℕ) → d < 10 → code (digit d) - 48 ≡ d
unfolding digit
code-digit zero h = refl
code-digit (suc zero) h = refl
code-digit (suc (suc zero)) h = refl
code-digit (suc (suc (suc zero))) h = refl
code-digit (suc (suc (suc (suc zero)))) h = refl
code-digit (suc (suc (suc (suc (suc zero))))) h = refl
code-digit (suc (suc (suc (suc (suc (suc zero)))))) h = refl
code-digit (suc (suc (suc (suc (suc (suc (suc zero))))))) h = refl
code-digit (suc (suc (suc (suc (suc (suc (suc (suc zero)))))))) h = refl
code-digit (suc (suc (suc (suc (suc (suc (suc (suc (suc zero))))))))) h = refl
code-digit (suc (suc (suc (suc (suc (suc (suc (suc (suc (suc d)))))))))) h = absurd (omega arith)

value-digits_onto : (f n : ℕ) (s : String) → n < f → value 0 (digits_onto f n s) ≡ value n s
unfolding digits_onto
value-digits_onto zero n s h = absurd (omega arith)
value-digits_onto (suc f) n s h = elim (Bool-cases (ltb n 10)) [
  | inl small ↦
      rw small (unfold value in ap (λ d. value d s) (omega (arith, code-digit n (ground arith))))
  | inr big ↦ rw big (
      value-digits_onto f (n / 10) _ (ground arith)
      ∙ unfold value in ap (λ d. value d s) (omega (arith, code-digit (n % 10) (omega arith))))
]

pub value-decimal : (n : ℕ) → value 0 (decimal n) ≡ n
unfolding decimal value
value-decimal n = value-digits_onto (suc n) n String.[] (omega arith)

-- Every character is a digit.
abbrev pub AllDigits : String → Type 0
AllDigits String.[] = Unit
AllDigits (String.◌∷◌ c s) = (b'0' ≤ code c) × (code c ≤ b'9') × AllDigits s

digit-le : (d : ℕ) → (b'0' ≤ code (digit d)) × (code (digit d) ≤ b'9')
unfolding digit
digit-le zero = (omega arith, omega arith)
digit-le (suc zero) = (omega arith, omega arith)
digit-le (suc (suc zero)) = (omega arith, omega arith)
digit-le (suc (suc (suc zero))) = (omega arith, omega arith)
digit-le (suc (suc (suc (suc zero)))) = (omega arith, omega arith)
digit-le (suc (suc (suc (suc (suc zero))))) = (omega arith, omega arith)
digit-le (suc (suc (suc (suc (suc (suc zero)))))) = (omega arith, omega arith)
digit-le (suc (suc (suc (suc (suc (suc (suc zero))))))) = (omega arith, omega arith)
digit-le (suc (suc (suc (suc (suc (suc (suc (suc zero)))))))) = (omega arith, omega arith)
digit-le (suc (suc (suc (suc (suc (suc (suc (suc (suc d))))))))) = (omega arith, omega arith)

digits_onto-AllDigits : (f n : ℕ) (s : String) → AllDigits s → AllDigits (digits_onto f n s)
unfolding digits_onto
digits_onto-AllDigits zero n s h = h
digits_onto-AllDigits (suc f) n s h = elim (Bool-cases (ltb n 10)) [
  | inl small ↦ rw small ((digit-le n).0, (digit-le n).1, h)
  | inr big ↦
      rw big (digits_onto-AllDigits f (n / 10) _ ((digit-le (n % 10)).0, (digit-le (n % 10)).1, h))
]

pub decimal-AllDigits : (n : ℕ) → AllDigits (decimal n)
unfolding decimal
decimal-AllDigits n = digits_onto-AllDigits (suc n) n String.[] tt

is_nonempty : String → Bool
is_nonempty String.[] = false
is_nonempty (String.◌∷◌ c s) = true

digits_onto-nonempty :
    (f n : ℕ) (s : String) → is_nonempty s ≡ true → is_nonempty (digits_onto f n s) ≡ true
unfolding digits_onto is_nonempty
digits_onto-nonempty zero n s h = h
digits_onto-nonempty (suc f) n s h = elim (Bool-cases (ltb n 10)) [
  | inl small ↦ rw small refl
  | inr big ↦ rw big (digits_onto-nonempty f (n / 10) _ refl)
]

pub decimal-nonempty : (n : ℕ) → decimal n ≢ String.[]
unfolding decimal digits_onto is_nonempty
decimal-nonempty n h =
    let some_digit : is_nonempty (decimal n) ≡ true = elim (Bool-cases (ltb n 10)) [
      | inl small ↦ rw small refl
      | inr big ↦ rw big (digits_onto-nonempty n (n / 10) _ refl)
    ] in
    let bad : false ≡ true = sym (ap is_nonempty h) ∙ some_digit in absurd (ground arith)

-- Enough digits are printed, so that a number can be read back from its numeral.
pub decimal-injective : (m n : ℕ) → decimal m ≡ decimal n → m ≡ n
unfolding decimal value
decimal-injective m n h =
    sym (value-digits_onto (suc m) m String.[] (omega arith))
    ∙ ap (value 0) h
    ∙ value-digits_onto (suc n) n String.[] (omega arith)
