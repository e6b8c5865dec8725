-- ===== src/Auth/Fields.antt =====
-- The scanner reads back one part of the JSON that claims are printed as.
use mathlib.Core.List.{append_assoc}
use bridge_framework.Base.{
  ℕ, ◌≡◌, refl, sym, ap, ◌∙◌, Bool, true, false, not, ◌&&◌, ◌||◌, some, [], ◌∷◌, ◌++◌, ltb, leb,
  All, arith, Bool-cases, inl, inr, ◌==◌, nat_eq, ==_iff, Chars,
}
use bridge_framework.Auth.Claims.{escape_char, escape_json_string, text_part, quoted}
use bridge_framework.Auth.Scan.{
  skip_separators, skip_white, read_quoted, read_value, read_pair, with_char, unescape,
}

-- A character that the scanner reads back: of ASCII, no comma, and no control character but the tab
-- and the ends of lines.
abbrev pub is_plain : ℕ → Bool
is_plain c = ltb c 0x80 && not (c == b',') && (leb 0x20 c || c == 9 || c == 10 || c == 13)

abbrev pub IsPlain : Chars → Type 0
IsPlain = All (λ c. is_plain c ≡ true)

-- A character behind a backslash.
read_slash :
    (c d : ℕ) (t : Chars)
    → unescape d ≡ c
    → read_quoted false (b'\\' ∷ d ∷ t) ≡ with_char c (read_quoted false t)
unfolding read_quoted
read_slash c d t e = ap (λ x. with_char x (read_quoted false t)) e

read_itself :
    (c : ℕ) (t : Chars)
    → (c == b',') ≡ false
    → (c == b'"') ≡ false
    → (c == b'\\') ≡ false
    → read_quoted false (c ∷ t) ≡ with_char c (read_quoted false t)
unfolding read_quoted
read_itself c t comma quote slash = rw (read_quoted, comma, quote, slash) refl

read_quoted-escape_char :
    (c : ℕ) (t : Chars)
    → is_plain c ≡ true
    → read_quoted false (escape_char c ++ t) ≡ with_char c (read_quoted false t)
read_quoted-escape_char c t h = elim (Bool-cases (c == b'"')) [
  | inl quote ↦ rw quote (read_slash c b'"' t (sym ((==_iff c b'"').0 quote)))
  | inr no_quote ↦ elim (Bool-cases (c == b'\\')) [
    | inl slash ↦ rw (no_quote, slash) (read_slash c b'\\' t (sym ((==_iff c b'\\').0 slash)))
    | inr no_slash ↦ elim (Bool-cases (c == 10)) [
      | inl line ↦ rw (no_quote, no_slash, line) (read_slash c b'n' t (sym ((==_iff c 10).0 line)))
      | inr no_line ↦ elim (Bool-cases (c == 13)) [
        | inl turn ↦
            rw (no_quote, no_slash, no_line, turn)
              (read_slash c b'r' t (sym ((==_iff c 13).0 turn)))
        | inr no_turn ↦ elim (Bool-cases (c == 9)) [
          | inl tab ↦
              rw (no_quote, no_slash, no_line, no_turn, tab)
                (read_slash c b't' t (sym ((==_iff c 9).0 tab)))
          | inr no_tab ↦
              let printed : ltb c 0x20 ≡ false = ground arith in
              let no_comma : (c == b',') ≡ false = ground arith in
              rw (no_quote, no_slash, no_line, no_turn, no_tab, printed)
                (read_itself c t no_comma no_quote no_slash)
        ]
      ]
    ]
  ]
]

pub read_quoted-escape :
    (v t : Chars)
    → IsPlain v
    → (stop : ℕ) → (stop == b',' || stop == b'"') ≡ true
    → read_quoted false (escape_json_string v ++ stop ∷ t) ≡ (v, t)
unfolding escape_json_string read_quoted
read_quoted-escape [] t h stop e = rw (read_quoted, e) refl
read_quoted-escape (c ∷ v) t h stop e =
    ap (read_quoted false) (append_assoc (escape_char c) (escape_json_string v) (stop ∷ t))
    ∙ read_quoted-escape_char c (escape_json_string v ++ stop ∷ t) h.0
    ∙ ap (with_char c) (read_quoted-escape v t h.1 stop e)

pub text_part-append :
    (name value t : Chars)
    → text_part name value ++ t
      ≡ b'"' ∷ name ++ (b'"' ∷ b':' ∷ b'"' ∷ (escape_json_string value ++ (b'"' ∷ t)))
unfolding text_part
text_part-append name value t =
    rw
      (
        append_assoc name (b'"' ∷ []) (b':' ∷ quoted (escape_json_string value)),
        append_assoc name (b'"' ∷ b':' ∷ quoted (escape_json_string value)) t,
        append_assoc (escape_json_string value) (b'"' ∷ []) t,
      )
      refl

-- A part with a text: the key and the value, unescaped, and what follows.
pub read_pair-text_part :
    (k v t : Chars)
    → IsPlain k
    → IsPlain v
    → read_pair (text_part (escape_json_string k) v ++ t) ≡ some ((k, v), t)
unfolding read_pair skip_separators skip_white read_value
read_pair-text_part k v t hk hv =
    ap read_pair (text_part-append (escape_json_string k) v t)
    ∙ rw
        (
          read_pair,
          read_quoted-escape k (b':' ∷ b'"' ∷ (escape_json_string v ++ (b'"' ∷ t))) hk b'"' refl,
          read_quoted-escape v t hv b'"' refl,
        )
        refl
