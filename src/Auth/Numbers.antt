-- ===== src/Auth/Numbers.antt =====
-- The scanner reads back a number of the JSON that claims are printed as, and it is parsed.
use Prim.Native.Char.{code}
use mathlib.Core.List.{append_assoc}
use bridge_framework.Base.{
  and_false, ℕ, ◌+◌, ◌-◌, ◌*◌, ◌<◌, ◌≤◌, ◌≡◌, ◌≢◌, refl, ap, ◌∙◌, false, ◌&&◌, some, [], ◌∷◌, ◌++◌,
  chars, decimal, decimal-AllDigits, decimal-nonempty, AllDigits, value, value-decimal,
  parse_number, digits_of, keep_if, is_empty, ltb, All, arith, ◌==◌, nat_eq, Chars, is_whitespace,
  trim_both, trim_front, trim_back, String,
}
use bridge_framework.Auth.Claims.{escape_json_string, number_part}
use bridge_framework.Auth.Scan.{skip_separators, skip_white, read_bare, read_value, read_pair}
use bridge_framework.Auth.Fields.{IsPlain, read_quoted-escape}

abbrev pub IsDigits : Chars → Type 0
IsDigits = All (λ c. (b'0' ≤ c) × (c ≤ b'9'))

chars-IsDigits : (s : String) → AllDigits s → IsDigits (chars s)
chars-IsDigits String.[] h = tt
chars-IsDigits (String.◌∷◌ c s) h = ((h.0, h.1), chars-IsDigits s h.2)

digit-solid : (c : ℕ) → b'0' ≤ c → c ≤ b'9' → is_whitespace c ≡ false
digit-solid c low high = ground arith

trim_back-IsDigits : (s : Chars) → IsDigits s → trim_back s ≡ s
unfolding trim_back
trim_back-IsDigits [] h = refl
trim_back-IsDigits (c ∷ s) h =
    let kept : (is_empty s && is_whitespace c) ≡ false =
      and_false (is_empty s) (digit-solid c h.0.0 h.0.1) in
    rw (trim_back, trim_back-IsDigits s h.1, kept) refl

pub trim_both-IsDigits : (s : Chars) → IsDigits s → trim_both s ≡ s
unfolding trim_front trim_back
trim_both-IsDigits [] h = refl
trim_both-IsDigits (c ∷ s) h =
    rw (trim_front, digit-solid c h.0.0 h.0.1) (trim_back-IsDigits (c ∷ s) h)

-- What may follow a bare value.
pub data IsClosed : Chars → Type 0 where
  at_end : IsClosed []
  at_comma : (s : Chars) → IsClosed (b',' ∷ s)

read_bare-IsDigits : (s t : Chars) → IsDigits s → IsClosed t → read_bare (s ++ t) ≡ (s, t)
unfolding read_bare
read_bare-IsDigits [] [] h at_end = refl
read_bare-IsDigits [] _ h (at_comma u) = refl
read_bare-IsDigits (c ∷ s) t h closed =
    let no_comma : (c == b',') ≡ false = ground arith in
    rw (read_bare, no_comma, read_bare-IsDigits s t h.1 closed) refl

read_value-IsDigits :
    (s t : Chars) → s ≢ [] → IsDigits s → IsClosed t → read_value (skip_white (s ++ t)) ≡ (s, t)
unfolding read_value skip_white
read_value-IsDigits [] t ne h closed = absurd (ne refl)
read_value-IsDigits (c ∷ s) t ne h closed =
    let no_quote : (c == b'"') ≡ false = ground arith in
    rw
      (
        skip_white,
        digit-solid c h.0.0 h.0.1,
        read_value,
        no_quote,
        read_bare-IsDigits (c ∷ s) t h closed,
        trim_both-IsDigits (c ∷ s) h,
      )
      refl

chars-nonempty : (s : String) → s ≢ String.[] → chars s ≢ []
chars-nonempty String.[] ne h = ne refl
chars-nonempty (String.◌∷◌ c s) ne h = absurd (ground arith)

number_part-append :
    (name t : Chars) (n : ℕ)
    → number_part name n ++ t ≡ b'"' ∷ name ++ (b'"' ∷ b':' ∷ (chars (decimal n) ++ t))
unfolding number_part
number_part-append name t n =
    rw
      (
        append_assoc name (b'"' ∷ []) (b':' ∷ chars (decimal n)),
        append_assoc name (b'"' ∷ b':' ∷ chars (decimal n)) t,
      )
      refl

-- A part with a number: the key, the numeral, and what follows.
pub read_pair-number_part :
    (k t : Chars) (n : ℕ)
    → IsPlain k
    → IsClosed t
    → read_pair (number_part (escape_json_string k) n ++ t) ≡ some ((k, chars (decimal n)), t)
unfolding read_pair skip_separators
read_pair-number_part k t n hk closed =
    ap read_pair (number_part-append (escape_json_string k) t n)
    ∙ rw
        (
          read_pair,
          read_quoted-escape k (b':' ∷ (chars (decimal n) ++ t)) hk b'"' refl,
          read_value-IsDigits (chars (decimal n)) t
              (chars-nonempty (decimal n) (decimal-nonempty n))
              (chars-IsDigits (decimal n) (decimal-AllDigits n)) closed,
        )
        refl

pub decimal-IsDigits : (n : ℕ) → IsDigits (chars (decimal n))
decimal-IsDigits n = chars-IsDigits (decimal n) (decimal-AllDigits n)

digits_of-chars : (v : ℕ) (s : String) → AllDigits s → digits_of v (chars s) ≡ some (value v s)
unfolding value
digits_of-chars v String.[] h = refl
digits_of-chars v (String.◌∷◌ c s) h =
    ground (arith, digits_of-chars (v * 10 + (code c - 48)) s h.2)

parse_number-chars :
    (bound : ℕ) (s : String)
    → s ≢ String.[]
    → AllDigits s
    → parse_number bound (chars s) ≡ keep_if (λ v. ltb v bound) (some (value 0 s))
unfolding parse_number
parse_number-chars bound String.[] ne h = absurd (ne refl)
parse_number-chars bound (String.◌∷◌ c s) ne h =
    let unsigned : (code c == b'+') ≡ false = ground arith in
    rw (parse_number, unsigned, digits_of-chars 0 (String.◌∷◌ c s) h) refl

-- A number is parsed from its numeral.
pub parse_number-decimal :
    (bound n : ℕ) → n < bound → parse_number bound (chars (decimal n)) ≡ some n
parse_number-decimal bound n h =
    parse_number-chars bound (decimal n) (decimal-nonempty n) (decimal-AllDigits n)
    ∙ ground (arith, value-decimal n)
