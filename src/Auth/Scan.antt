-- ===== src/Auth/Scan.antt =====
-- The scanner of claims of daemon/src/auth.rs, which reads the characters in turn.
use bridge_framework.Base.{
  ℕ, zero, suc, ◌+◌, ◌^◌, Bool, true, false, ◌||◌, Option, some, none, List, [], ◌∷◌, chars, length,
  if◌then◌else◌, Result, ok, err, ◌>>=◌, ◌==◌, nat_eq, list_eq, Chars, is_whitespace, trim_both,
  split_words, parse_number,
}
use bridge_framework.Auth.Base64.{AuthError, message, trim_end_of}
use bridge_framework.Auth.Claims.{JwtClaims, no_claims, tree_insert}

unfoldable pub skip_separators : Chars → Chars
skip_separators [] = []
skip_separators (c ∷ s) =
    let rest = skip_separators s in if is_whitespace c || c == b',' then rest else c ∷ s

unfoldable pub skip_white : Chars → Chars
skip_white [] = []
skip_white (c ∷ s) = let rest = skip_white s in if is_whitespace c then rest else c ∷ s

abbrev pub unescape : ℕ → ℕ
unescape c = if c == b'n' then 10 else if c == b't' then 9 else if c == b'r' then 13 else c

abbrev pub with_char : ℕ → Chars × Chars → Chars × Chars
with_char c r = (c ∷ r.0, r.1)

-- The loop that reads a key or a quoted value, and what is left. The flag is set behind a backslash.
unfoldable pub read_quoted : Bool → Chars → Chars × Chars
read_quoted escaped [] = ([], [])
read_quoted true (c ∷ s) = with_char (unescape c) (read_quoted false s)
read_quoted false (c ∷ s) =
    let rest = read_quoted (c == b'\\') s in
    if c == b',' || c == b'"' then ([], s) else if c == b'\\' then rest else with_char c rest

-- The loop that reads a bare value up to a comma.
unfoldable pub read_bare : Chars → Chars × Chars
read_bare [] = ([], [])
read_bare (c ∷ s) = let rest = read_bare s in if c == b',' then ([], c ∷ s) else with_char c rest

unfoldable pub read_value : Chars → Chars × Chars
unfolding read_quoted read_bare
read_value [] = ([], [])
read_value (c ∷ s) =
    let bare = read_bare (c ∷ s) in
    if c == b'"' then read_quoted false s else (trim_both bare.0, bare.1)

-- What follows a character that has to come first.
abbrev pub after : ℕ → Chars → Option Chars
after d [] = none
after d (c ∷ s) = if c == d then some s else none

abbrev pub with_value : Chars → Option Chars → Option ((Chars × Chars) × Chars)
with_value key none = none
with_value key (some s) = let value = read_value (skip_white s) in some ((key, value.0), value.1)

abbrev pub with_key : Option Chars → Option ((Chars × Chars) × Chars)
with_key none = none
with_key (some s) =
    let key = read_quoted false s in with_value key.0 (after b':' (skip_white key.1))

-- One round of the loop: a key with its value, and what is left, or the end.
unfoldable pub read_pair : Chars → Option ((Chars × Chars) × Chars)
unfolding skip_separators skip_white read_quoted read_value
read_pair s = with_key (after b'"' (skip_separators s))

abbrev pub then_pairs :
    Option ((Chars × Chars) × Chars) → (Chars → List (Chars × Chars)) → List (Chars × Chars)
then_pairs none more = []
then_pairs (some (pair, s)) more = pair ∷ more s

-- The loop, on fuel.
unfoldable pub scan : ℕ → Chars → List (Chars × Chars)
unfolding read_pair
scan zero s = []
scan (suc n) s = then_pairs (read_pair s) (scan n)

unfoldable pub scan_flat_object : Chars → List (Chars × Chars)
unfolding scan trim_end_of
scan_flat_object json = elim (after b'{' (trim_both json)) [
  | none ↦ []
  | some body ↦ let inner = trim_end_of b'}' body in scan (length inner + 1) inner
]

abbrev pub parse_claim : AuthError → (ℕ → JwtClaims) → Option ℕ → Result AuthError JwtClaims
parse_claim e set none = err e
parse_claim e set (some n) = ok (set n)

unfoldable pub add_claim : Chars × Chars → JwtClaims → Result AuthError JwtClaims
unfolding parse_number tree_insert split_words
add_claim (key, raw) c =
    if key == chars "sub"
    then ok (record c { sub = some raw })
    else if key == chars "iss"
    then ok (record c { iss = some raw })
    else if key == chars "iat"
    then parse_claim (message "bad iat claim") (λ n. record c { iat = some n })
        (parse_number (2 ^ 64) raw)
    else if key == chars "exp"
    then parse_claim (message "bad exp claim") (λ n. record c { exp = some n })
        (parse_number (2 ^ 64) raw)
    else if key == chars "scope" || key == chars "scopes"
    then ok (record c { scopes = split_words raw })
    else ok (record c { custom = tree_insert key raw c.custom })

unfoldable pub add_claims : List (Chars × Chars) → JwtClaims → Result AuthError JwtClaims
unfolding add_claim
add_claims [] c = ok c
add_claims (pair ∷ pairs) c = add_claim pair c >>= add_claims pairs

unfoldable pub from_json : Chars → Result AuthError JwtClaims
unfolding scan_flat_object add_claims
from_json json = add_claims (scan_flat_object json) no_claims
