-- ===== src/Auth/Commas.antt =====
-- A comma in the subject of a token cuts its claims short.
use mathlib.Core.List.{append_assoc}
use bridge_framework.Base.{
  ◌%◌, ◌^◌, ℕ, zero, suc, ◌+◌, ◌/◌, decimal, ◌≡◌, ◌⊎◌, inl, inr, refl, sym, ap, ◌∙◌, false, ◌||◌,
  some, none, List, [], map, ◌∷◌, ◌++◌, chars, length, ltb, arith, Bool-cases, ok, ◌>>=◌, ◌==◌,
  nat_eq, Chars, is_whitespace,
}
use bridge_framework.Auth.Claims.{
  escape_char, hex_digit, escape_json_string, text_part, number_part, join_parts, new_claims,
  no_claims, with_ttl, to_json,
}
use bridge_framework.Auth.Scan.{
  skip_separators, skip_white, read_quoted, read_value, read_pair, scan, add_claims, from_json,
}
use bridge_framework.Auth.Jwt.{unexpired, jwt_sign, jwt_verify}
use bridge_framework.Auth.Ascii.{
  IsAscii, append-IsAscii, IsPlain-IsAscii, text_part-IsAscii, number_part-IsAscii,
}
use bridge_framework.Auth.Ends.{scan-enough}
use bridge_framework.Auth.Fields.{IsPlain, read_quoted-escape, text_part-append}
use bridge_framework.Auth.Objects.{
  Field, text, number, field_part, trim_end_of-join_parts, scan_flat_object-braces,
}
use bridge_framework.Auth.Signed.{jwt_verify-signed}

-- A character is printed as it is, or behind a backslash.
escape_char-first :
    (c : ℕ)
    → ((escape_char c ≡ c ∷ []) × ((c == b'"') ≡ false))
      ⊎ ((s : Chars) × (escape_char c ≡ b'\\' ∷ s))
escape_char-first c = elim (Bool-cases (c == b'"')) [
  | inl quote ↦ inr (b'"' ∷ [], rw quote refl)
  | inr no_quote ↦ elim (Bool-cases (c == b'\\')) [
    | inl slash ↦ inr (b'\\' ∷ [], rw (no_quote, slash) refl)
    | inr no_slash ↦ elim (Bool-cases (ltb c 0x20)) [
      | inl control ↦ elim (Bool-cases (c == 10)) [
        | inl line ↦ inr (b'n' ∷ [], rw (no_quote, no_slash, line) refl)
        | inr no_line ↦ elim (Bool-cases (c == 13)) [
          | inl turn ↦ inr (b'r' ∷ [], rw (no_quote, no_slash, no_line, turn) refl)
          | inr no_turn ↦ elim (Bool-cases (c == 9)) [
            | inl tab ↦ inr (b't' ∷ [], rw (no_quote, no_slash, no_line, no_turn, tab) refl)
            | inr no_tab ↦ inr (
              b'u' ∷ b'0' ∷ b'0' ∷ hex_digit (c / 16) ∷ hex_digit (c % 16) ∷ [],
              rw (no_quote, no_slash, no_line, no_turn, no_tab, control) refl,
            )
          ]
        ]
      ]
      | inr printed ↦
          let line : (c == 10) ≡ false = ground arith in
          let turn : (c == 13) ≡ false = ground arith in
          let tab : (c == 9) ≡ false = ground arith in
          inl (rw (no_quote, no_slash, line, turn, tab, printed) refl, no_quote)
    ]
  ]
]

-- Behind the comma no further claim is found, whatever stands there, up to the next claim.
read_pair-rest : (b w : Chars) → read_pair (escape_json_string b ++ b'"' ∷ b',' ∷ b'"' ∷ w) ≡ none
unfolding read_pair escape_json_string skip_separators read_quoted skip_white
read_pair-rest [] w = refl
read_pair-rest (c ∷ b) w =
    let rest : Chars = escape_json_string b ++ b'"' ∷ b',' ∷ b'"' ∷ w in
    ap read_pair (append_assoc (escape_char c) (escape_json_string b) (b'"' ∷ b',' ∷ b'"' ∷ w))
    ∙ elim (escape_char-first c) [
      | inl (itself, no_quote) ↦
          ap (λ s. read_pair (s ++ rest)) itself
          ∙ elim (Bool-cases (is_whitespace c || c == b',')) [
            | inl skipped ↦ rw (read_pair, skip_separators, skipped) (read_pair-rest b w)
            | inr kept ↦ rw (read_pair, skip_separators, kept, no_quote) refl
          ]
      | inr (s, slash) ↦ ap (λ s. read_pair (s ++ rest)) slash
    ]

escape-append :
    (s t : Chars) → escape_json_string (s ++ t) ≡ escape_json_string s ++ escape_json_string t
unfolding escape_json_string
escape-append [] t = refl
escape-append (c ∷ s) t =
    ap (λ u. escape_char c ++ u) (escape-append s t)
    ∙ sym (append_assoc (escape_char c) (escape_json_string s) (escape_json_string t))

read_pair-comma :
    (a b t : Chars)
    → IsPlain a
    → read_pair (text_part (chars "sub") (a ++ b',' ∷ b) ++ t)
      ≡ some ((chars "sub", a), escape_json_string b ++ b'"' ∷ t)
unfolding read_pair skip_separators skip_white read_value read_quoted escape_json_string
read_pair-comma a b t h =
    ap read_pair (text_part-append (chars "sub") (a ++ b',' ∷ b) t)
    ∙ ap (λ s. read_pair (b'"' ∷ chars "sub" ++ (b'"' ∷ b':' ∷ b'"' ∷ s)))
        (ap (λ e. e ++ b'"' ∷ t) (escape-append a (b',' ∷ b))
          ∙ append_assoc (escape_json_string a) (b',' ∷ escape_json_string b) (b'"' ∷ t))
    ∙ rw (read_pair, read_quoted-escape a (escape_json_string b ++ b'"' ∷ t) h b',' refl) refl

abbrev timed : Chars → ℕ → ℕ → List Field
timed sub iat exp =
    text (chars "sub") sub ∷ number (chars "iat") iat ∷ number (chars "exp") exp ∷ []

scan-short :
    (n : ℕ) (s t : Chars) (pair : Chars × Chars)
    → read_pair s ≡ some (pair, t)
    → read_pair t ≡ none
    → scan (suc n) s ≡ pair ∷ []
unfolding scan
scan-short zero s t pair e last = rw (scan, e) refl
scan-short (suc n) s t pair e last = rw (scan, e, scan, last) refl

from_json-comma :
    (a b : Chars) (iat again ttl : ℕ)
    → IsPlain a
    → from_json (to_json (with_ttl iat again ttl (new_claims (a ++ b',' ∷ b)))) ≡ ok (new_claims a)
unfolding from_json to_json add_claims number_part
from_json-comma a b iat again ttl h =
    let fs = timed (a ++ b',' ∷ b) iat ((again + ttl) % 2 ^ 64) in
    let s = join_parts (map field_part fs) in
    let w : Chars =
      ((chars "iat" ++ b'"' ∷ []) ++ b':' ∷ chars (decimal iat))
      ++ b',' ∷ number_part (chars "exp") ((again + ttl) % 2 ^ 64) in
    let t : Chars = b',' ∷ b'"' ∷ w in
    let found : scan (length s + 1) s ≡ (chars "sub", a) ∷ [] =
      scan-enough (length s + 1) (suc (length s)) s (omega arith) (omega arith)
      ∙ scan-short (length s) s (escape_json_string b ++ b'"' ∷ t) (chars "sub", a)
          (read_pair-comma a b t h) (read_pair-rest b w) in
    ap (λ ps. add_claims ps no_claims)
      (scan_flat_object-braces s (trim_end_of-join_parts fs) ∙ found)

to_json-IsAscii :
    (sub : Chars) (iat again ttl : ℕ)
    → IsAscii sub
    → IsAscii (to_json (with_ttl iat again ttl (new_claims sub)))
unfolding to_json
to_json-IsAscii sub iat again ttl h =
    let issued = number_part-IsAscii (chars "iat") iat in
    let expires = number_part-IsAscii (chars "exp") ((again + ttl) % 2 ^ 64) in
    let name = text_part-IsAscii (chars "sub") sub in
    (
      omega arith,
      append-IsAscii (join_parts (map field_part (timed sub iat ((again + ttl) % 2 ^ 64))))
          (b'}' ∷ [])
          (append-IsAscii (text_part (chars "sub") sub) _ (name (ground arith) h) (
            omega arith,
            append-IsAscii (number_part (chars "iat") iat) _ (issued (ground arith))
                (omega arith, expires (ground arith)),
          ))
          (omega arith, tt),
    )

-- A token whose subject is a plain text, a comma and any text of ASCII is verified, at any time,
-- as one for the subject before the comma that never expires, whatever its time to live was.
pub jwt_verify-comma :
    (a b : Chars) (iat again ttl now : ℕ) (secret : List ℕ)
    → IsPlain a
    → IsAscii b
    → let token = jwt_sign (with_ttl iat again ttl (new_claims (a ++ b',' ∷ b))) secret in
      jwt_verify token secret now ≡ ok (new_claims a)
jwt_verify-comma a b iat again ttl now secret h k =
    let sub = append-IsAscii a (b',' ∷ b) (IsPlain-IsAscii a h) (omega arith, k) in
    let c = with_ttl iat again ttl (new_claims (a ++ b',' ∷ b)) in
    jwt_verify-signed c secret now (to_json-IsAscii (a ++ b',' ∷ b) iat again ttl sub)
    ∙ ap (λ r. r >>= unexpired now) (from_json-comma a b iat again ttl h)
