-- ===== src/Auth/Sound.antt =====
-- What the comparison of signatures accepts.
pub mod Accepts
pub mod Signatures
pub mod Tokens
use Prim.Native.Nat.{bit_or, bit_xor, digits, differ, bit_xor-bitwise}
use mathlib.Core.Path.{subst}
use bridge_framework.Base.{
  ℕ, zero, suc, ◌+◌, ◌*◌, ◌/◌, ◌%◌, ◌<◌, ◌≤◌, ◌≡◌, ◌↔◌, refl, sym, ap, ◌∙◌, Bool, true, false, List,
  [], ◌∷◌, length, arith, ◌==◌, nat_eq, ==_iff, all_below, all_below-passes, not, ◌||◌, ◌&&◌,
}
use bridge_framework.Digest.{take_bytes}
use bridge_framework.Digest.Width.{IsBytes}
use bridge_framework.Auth.Jwt.{difference, is_signature}

abbrev xor_digits : ℕ → ℕ → ℕ → ℕ
xor_digits n a b = digits (λ b. b) differ n a b

-- More digits than a number has change nothing.
xor_digits-enough : (n m a b : ℕ) → a ≤ n → a ≤ m → xor_digits n a b ≡ xor_digits m a b
xor_digits-enough zero zero a b h k = refl
xor_digits-enough zero (suc m) zero b h k = refl
xor_digits-enough zero (suc m) (suc a) b h k = absurd (omega arith)
xor_digits-enough (suc n) zero zero b h k = refl
xor_digits-enough (suc n) zero (suc a) b h k = absurd (omega arith)
xor_digits-enough (suc n) (suc m) zero b h k = refl
xor_digits-enough (suc n) (suc m) (suc a) b h k =
    ap (λ x. x * 2 + differ (suc a % 2) (b % 2))
      (xor_digits-enough n m (suc a / 2) (b / 2) (omega arith) (omega arith))

bit_xor-digits : (a b : ℕ) → bit_xor a b ≡ xor_digits a a b
bit_xor-digits a b = bit_xor-bitwise a b

-- The exclusive or, digit by digit.
bit_xor-digit : (a b : ℕ) → bit_xor a b ≡ bit_xor (a / 2) (b / 2) * 2 + differ (a % 2) (b % 2)
bit_xor-digit zero b =
    let whole : bit_xor 0 b ≡ b = bit_xor-digits 0 b in
    let half : bit_xor 0 (b / 2) ≡ b / 2 = bit_xor-digits 0 (b / 2) in
    rw (whole, half) (omega arith)
bit_xor-digit (suc a) b =
    bit_xor-digits (suc a) b
    ∙ ap (λ x. x * 2 + differ (suc a % 2) (b % 2))
        (xor_digits-enough a (suc a / 2) (suc a / 2) (b / 2) (omega arith) (omega arith)
          ∙ sym (bit_xor-digits (suc a / 2) (b / 2)))

differ-zero : (a : ℕ) → differ a 0 ≡ a
differ-zero zero = refl
differ-zero (suc a) = refl

differ-one : (a : ℕ) → a < 2 → differ a 1 + a ≡ 1
differ-one zero h = refl
differ-one (suc zero) h = refl
differ-one (suc (suc a)) h = absurd (omega arith)

-- The last eight digits of the exclusive or with 32 are all 0 exactly for 32 and its like.
bit_xor-thirty_two : (n : ℕ) → (bit_xor n 32 % 256 ≡ 0) ↔ (n % 256 ≡ 32)
bit_xor-thirty_two n =
    let d0 = bit_xor-digit n 32 in
    let d1 = bit_xor-digit (n / 2) 16 in
    let d2 = bit_xor-digit (n / 2 / 2) 8 in
    let d3 = bit_xor-digit (n / 2 / 2 / 2) 4 in
    let d4 = bit_xor-digit (n / 2 / 2 / 2 / 2) 2 in
    let d5 = bit_xor-digit (n / 2 / 2 / 2 / 2 / 2) 1 in
    let d6 = bit_xor-digit (n / 2 / 2 / 2 / 2 / 2 / 2) 0 in
    let d7 = bit_xor-digit (n / 2 / 2 / 2 / 2 / 2 / 2 / 2) 0 in
    let z0 = differ-zero (n % 2) in
    let z1 = differ-zero (n / 2 % 2) in
    let z2 = differ-zero (n / 2 / 2 % 2) in
    let z3 = differ-zero (n / 2 / 2 / 2 % 2) in
    let z4 = differ-zero (n / 2 / 2 / 2 / 2 % 2) in
    let z5 = differ-one (n / 2 / 2 / 2 / 2 / 2 % 2) (omega arith) in
    let z6 = differ-zero (n / 2 / 2 / 2 / 2 / 2 / 2 % 2) in
    let z7 = differ-zero (n / 2 / 2 / 2 / 2 / 2 / 2 / 2 % 2) in (λ h. omega arith, λ h. omega arith)
