-- ===== src/Auth/Ascii.antt =====
-- The JSON of claims of plain texts is ASCII.
use bridge_framework.Base.{
  ℕ, ◌/◌, ◌%◌, ◌<◌, List, [], ◌∷◌, ◌++◌, map, chars, decimal, ltb, All, arith, Bool-cases, inl, inr,
  nat_eq, Chars,
}
use bridge_framework.Auth.Claims.{
  escape_char, hex_digit, escape_json_string, text_part, number_part, join_parts, quoted,
}
use bridge_framework.Auth.Fields.{IsPlain}
use bridge_framework.Auth.Numbers.{IsDigits, decimal-IsDigits}
use bridge_framework.Auth.Objects.{Field, text, number, field_part, AllFields, IsField}

abbrev pub IsAscii : Chars → Type 0
IsAscii = All (λ c. c < 0x80)

pub append-IsAscii : (s t : Chars) → IsAscii s → IsAscii t → IsAscii (s ++ t)
append-IsAscii [] t h k = k
append-IsAscii (c ∷ s) t h k = (h.0, append-IsAscii s t h.1 k)

hex_digit-lt : (n : ℕ) → n < 16 → hex_digit n < 0x80
hex_digit-lt n h = ground arith

escape_char-IsAscii : (c : ℕ) → c < 0x80 → IsAscii (escape_char c)
escape_char-IsAscii c h = elim (Bool-cases (ltb c 0x20)) [
  | inl control ↦
      let high = hex_digit-lt (c / 16) (omega arith) in
      let low = hex_digit-lt (c % 16) (omega arith) in ground arith
  | inr printed ↦ ground arith
]

pub escape-IsAscii : (s : Chars) → IsAscii s → IsAscii (escape_json_string s)
unfolding escape_json_string
escape-IsAscii [] h = tt
escape-IsAscii (c ∷ s) h =
    append-IsAscii (escape_char c) (escape_json_string s) (escape_char-IsAscii c h.0)
      (escape-IsAscii s h.1)

pub IsPlain-IsAscii : (s : Chars) → IsPlain s → IsAscii s
IsPlain-IsAscii [] h = tt
IsPlain-IsAscii (c ∷ s) h = (ground arith, IsPlain-IsAscii s h.1)

quoted-IsAscii : (s : Chars) → IsAscii s → IsAscii (quoted s)
quoted-IsAscii s h = (omega arith, append-IsAscii s (b'"' ∷ []) h (omega arith, tt))

pub text_part-IsAscii :
    (name value : Chars) → IsAscii name → IsAscii value → IsAscii (text_part name value)
unfolding text_part
text_part-IsAscii name value h k =
    append-IsAscii (quoted name) (b':' ∷ quoted (escape_json_string value)) (quoted-IsAscii name h)
      (omega arith, quoted-IsAscii (escape_json_string value) (escape-IsAscii value k))

IsDigits-IsAscii : (s : Chars) → IsDigits s → IsAscii s
IsDigits-IsAscii [] h = tt
IsDigits-IsAscii (c ∷ s) h = (ground arith, IsDigits-IsAscii s h.1)

pub number_part-IsAscii : (name : Chars) (n : ℕ) → IsAscii name → IsAscii (number_part name n)
unfolding number_part
number_part-IsAscii name n h =
    append-IsAscii (quoted name) (b':' ∷ chars (decimal n)) (quoted-IsAscii name h)
      (omega arith, IsDigits-IsAscii (chars (decimal n)) (decimal-IsDigits n))

field_part-IsAscii : (f : Field) → IsField f → IsAscii (field_part f)
field_part-IsAscii (text k v) h =
    text_part-IsAscii (escape_json_string k) v (escape-IsAscii k (IsPlain-IsAscii k h.0))
      (IsPlain-IsAscii v h.1)
field_part-IsAscii (number k n) h =
    number_part-IsAscii (escape_json_string k) n (escape-IsAscii k (IsPlain-IsAscii k h))

join_parts-IsAscii : (fs : List Field) → AllFields fs → IsAscii (join_parts (map field_part fs))
join_parts-IsAscii [] h = tt
join_parts-IsAscii (f ∷ []) h = field_part-IsAscii f h.0
join_parts-IsAscii (f ∷ g ∷ fs) h =
    append-IsAscii (field_part f) (b',' ∷ join_parts (map field_part (g ∷ fs)))
      (field_part-IsAscii f h.0) (omega arith, join_parts-IsAscii (g ∷ fs) h.1)

pub braces-IsAscii :
    (fs : List Field) → AllFields fs → IsAscii (b'{' ∷ join_parts (map field_part fs) ++ b'}' ∷ [])
braces-IsAscii fs h =
    (omega arith, append-IsAscii _ (b'}' ∷ []) (join_parts-IsAscii fs h) (omega arith, tt))
