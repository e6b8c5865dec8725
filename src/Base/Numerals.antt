-- ===== src/Base/Numerals.antt =====
-- Numerals as the standard library parses and prints them, and the signed integers.
use Prim.Native.Char.{code}
use Prim.Native.String.{String}
use Prim.Native.Nat.{ℕ, suc, ◌+◌, ◌-◌, ◌*◌, ◌^◌, ◌<◌}
use mathlib.Core.Path.{◌≡◌, refl, ◌∙◌}
use mathlib.Core.Logic.{◌≢◌}
use mathlib.Core.Bool.{Bool, true, false, not, ◌&&◌}
use mathlib.Core.Option.{Option, none, some}
use native.Mathlib.Omega.{arith}
use bridge_framework.Base.Tests.{leb, ltb, nat_eqb, if◌then◌else◌, keep_if, map_some}
use bridge_framework.Base.Text.{is_empty_text}
use bridge_framework.Base.Decimal.{
  decimal, value, value-decimal, AllDigits, decimal-AllDigits, decimal-nonempty,
}

abbrev pub is_digit : ℕ → Bool
is_digit c = leb b'0' c && leb c b'9'

unfoldable pub parse_digits : ℕ → String → Option ℕ
parse_digits v String.[] = some v
parse_digits v (String.◌∷◌ c s) =
    let rest = parse_digits (v * 10 + (code c - 48)) s in if is_digit (code c) then rest else none

-- Does a text begin with this character, and go on?
abbrev pub is_signed : ℕ → String → Bool
is_signed sign String.[] = false
is_signed sign (String.◌∷◌ c s) = nat_eqb (code c) sign && not (is_empty_text s)

abbrev pub unsigned : String → String
unsigned String.[] = String.[]
unsigned (String.◌∷◌ c s) = s

-- `parse` of an unsigned type below `bound`: digits, with a `+` before them at most, and no overflow.
unfoldable pub parse_unsigned : ℕ → String → Option ℕ
unfolding parse_digits
parse_unsigned bound s =
    if is_empty_text s
    then none
    else keep_if (λ v. ltb v bound) (parse_digits 0 (if is_signed b'+' s then unsigned s else s))

-- `negsuc n` is -(n + 1).
pub data ℤ : Type 0 where
  pos : ℕ → ℤ
  negsuc : ℕ → ℤ

abbrev pub pos_part : ℤ → ℕ
pos_part (pos n) = n
pos_part (negsuc n) = 0

abbrev pub neg_part : ℤ → ℕ
neg_part (pos n) = 0
neg_part (negsuc n) = suc n

-- The integer a - b.
abbrev pub sub_ℕ : ℕ → ℕ → ℤ
sub_ℕ a b = if leb b a then pos (a - b) else negsuc (b - a - 1)

infixl 65 ◌+ℤ◌
unfoldable pub ◌+ℤ◌ : ℤ → ℤ → ℤ
a +ℤ b = sub_ℕ (pos_part a + pos_part b) (neg_part a + neg_part b)

abbrev pub negate : ℤ → ℤ
negate a = sub_ℕ (neg_part a) (pos_part a)

-- The range of `i64`.
abbrev pub fits_i64 : ℤ → Bool
fits_i64 a = ltb (pos_part a) (2 ^ 63) && leb (neg_part a) (2 ^ 63)

-- A sum or a negation of two numbers in range, wrapped into the range.
abbrev pub wrap_i64 : ℤ → ℤ
wrap_i64 a =
    if leb (2 ^ 63) (pos_part a)
    then negsuc (2 ^ 64 - pos_part a - 1)
    else if ltb (2 ^ 63) (neg_part a)
    then pos (2 ^ 64 - neg_part a)
    else a

abbrev pub negated : ℕ → ℤ
negated v = sub_ℕ 0 v

-- `parse` of `i64`.
unfoldable pub parse_i64 : String → Option ℤ
unfolding parse_digits
parse_i64 s =
    if is_empty_text s
    then none
    else if is_signed b'-' s
    then keep_if fits_i64 (map_some negated (parse_digits 0 (unsigned s)))
    else keep_if fits_i64
        (map_some pos (parse_digits 0 (if is_signed b'+' s then unsigned s else s)))

-- `to_string` of `i64`.
unfoldable pub integer_text : ℤ → String
unfolding decimal
integer_text (pos n) = decimal n
integer_text (negsuc n) = String.◌∷◌ "-" (decimal (suc n))

pub parse_digits-value : (v : ℕ) (s : String) → AllDigits s → parse_digits v s ≡ some (value v s)
unfolding parse_digits value
parse_digits-value v String.[] d = refl
parse_digits-value v (String.◌∷◌ c s) d =
    ground (arith, parse_digits-value (v * 10 + (code c - 48)) s d.2)

parse_unsigned-digits :
    (bound : ℕ) (s : String)
    → s ≢ String.[]
    → AllDigits s
    → parse_unsigned bound s ≡ keep_if (λ v. ltb v bound) (some (value 0 s))
unfolding parse_unsigned
parse_unsigned-digits bound String.[] ne d = absurd (ne refl)
parse_unsigned-digits bound (String.◌∷◌ c s) ne d =
    let unsigned_here : nat_eqb (code c) b'+' ≡ false = ground arith in
    rw (unsigned_here, parse_unsigned, parse_digits-value 0 (String.◌∷◌ c s) d) refl

-- A number below the bound is read back from its numeral.
pub parse_unsigned-decimal : (bound n : ℕ) → n < bound → parse_unsigned bound (decimal n) ≡ some n
parse_unsigned-decimal bound n h =
    parse_unsigned-digits bound (decimal n) (decimal-nonempty n) (decimal-AllDigits n)
    ∙ ground (arith, value-decimal n)

parse_i64-digits :
    (s : String)
    → s ≢ String.[]
    → AllDigits s
    → parse_i64 s ≡ keep_if fits_i64 (some (pos (value 0 s)))
unfolding parse_i64
parse_i64-digits String.[] ne d = absurd (ne refl)
parse_i64-digits (String.◌∷◌ c s) ne d =
    let minus : nat_eqb (code c) b'-' ≡ false = ground arith in
    let plus : nat_eqb (code c) b'+' ≡ false = ground arith in
    rw (minus, plus, parse_i64, parse_digits-value 0 (String.◌∷◌ c s) d) refl

parse_i64-minus :
    (s : String)
    → s ≢ String.[]
    → AllDigits s
    → parse_i64 (String.◌∷◌ "-" s) ≡ keep_if fits_i64 (some (negated (value 0 s)))
unfolding parse_i64
parse_i64-minus String.[] ne d = absurd (ne refl)
parse_i64-minus (String.◌∷◌ c s) ne d = rw (parse_i64, parse_digits-value 0 (String.◌∷◌ c s) d) refl

negated-suc : (n : ℕ) → negated (suc n) ≡ negsuc n
negated-suc n = ground arith

-- An integer in range is read back from its numeral.
pub parse_i64-integer_text : (a : ℤ) → fits_i64 a ≡ true → parse_i64 (integer_text a) ≡ some a
unfolding integer_text
parse_i64-integer_text (pos n) h =
    parse_i64-digits (decimal n) (decimal-nonempty n) (decimal-AllDigits n)
    ∙ ground (arith, value-decimal n)
parse_i64-integer_text (negsuc n) h =
    parse_i64-minus (decimal (suc n)) (decimal-nonempty (suc n)) (decimal-AllDigits (suc n))
    ∙ rw (value-decimal (suc n), negated-suc n, h) refl
