-- ===== src/Auth/Claims.antt =====
-- `JwtClaims` of daemon/src/auth.rs and the JSON that it prints.
use bridge_framework.Base.{
  ◌%◌, ◌^◌, ℕ, ◌+◌, ◌-◌, ◌/◌, Option, some, none, List, [], ◌∷◌, ◌++◌, chars, decimal, ltb,
  if◌then◌else◌, ◌==◌, nat_eq, Chars, join_words,
}
use bridge_framework.Base.Map.{Map}

pub record JwtClaims : Type 0 where
  pub sub : Option Chars
  pub iss : Option Chars
  pub exp : Option ℕ  -- u64
  pub iat : Option ℕ  -- u64
  pub scopes : List Chars
  pub custom : Map Chars Chars  -- sorted by key

-- `default`
abbrev pub no_claims : JwtClaims
no_claims = record { sub = none; iss = none; exp = none; iat = none; scopes = []; custom = [] }

abbrev pub new_claims : Chars → JwtClaims
new_claims sub = record no_claims { sub = some sub }

abbrev pub with_issuer : Chars → JwtClaims → JwtClaims
with_issuer iss c = record c { iss = some iss }

-- The clock is read twice. The sum of 64 bits wraps, as in a release build; a build that checks for
-- overflow panics.
abbrev pub with_ttl : ℕ → ℕ → ℕ → JwtClaims → JwtClaims
with_ttl now again ttl c = record c { iat = some now; exp = some ((again + ttl) % 2 ^ 64) }

-- The order of texts, and the insertion of a `BTreeMap`.
pub data Order : Type 0 where
  less same greater : Order

abbrev pub compare_chars : Chars → Chars → Order
compare_chars [] [] = same
compare_chars [] (d ∷ t) = less
compare_chars (c ∷ s) [] = greater
compare_chars (c ∷ s) (d ∷ t) =
    let rest = compare_chars s t in if ltb c d then less else if ltb d c then greater else rest

abbrev pub place :
    Order → Chars → Chars → Chars × Chars → Map Chars Chars → Map Chars Chars → Map Chars Chars
place less k v e m rest = (k, v) ∷ e ∷ m
place same k v e m rest = (k, v) ∷ m
place greater k v e m rest = e ∷ rest

unfoldable pub tree_insert : Chars → Chars → Map Chars Chars → Map Chars Chars
tree_insert k v [] = (k, v) ∷ []
tree_insert k v (e ∷ m) = place (compare_chars k e.0) k v e m (tree_insert k v m)

unfoldable pub with_claim : Chars → Chars → JwtClaims → JwtClaims
unfolding tree_insert
with_claim key value c = record c { custom = tree_insert key value c.custom }

abbrev pub hex_digit : ℕ → ℕ
hex_digit n = if ltb n 10 then b'0' + n else b'a' + (n - 10)

abbrev pub escape_char : ℕ → Chars
escape_char c =
    if c == b'"'
    then b'\\' ∷ b'"' ∷ []
    else if c == b'\\'
    then b'\\' ∷ b'\\' ∷ []
    else if c == 10
    then b'\\' ∷ b'n' ∷ []
    else if c == 13
    then b'\\' ∷ b'r' ∷ []
    else if c == 9
    then b'\\' ∷ b't' ∷ []
    else if ltb c 0x20
    then b'\\' ∷ b'u' ∷ b'0' ∷ b'0' ∷ hex_digit (c / 16) ∷ hex_digit (c % 16) ∷ []
    else c ∷ []

unfoldable pub escape_json_string : Chars → Chars
escape_json_string [] = []
escape_json_string (c ∷ s) = escape_char c ++ escape_json_string s

abbrev pub quoted : Chars → Chars
quoted s = b'"' ∷ s ++ b'"' ∷ []

unfoldable pub text_part : Chars → Chars → Chars
unfolding escape_json_string
text_part name value = quoted name ++ b':' ∷ quoted (escape_json_string value)

unfoldable pub number_part : Chars → ℕ → Chars
unfolding decimal
number_part name value = quoted name ++ b':' ∷ chars (decimal value)

abbrev pub text_parts : Chars → Option Chars → List Chars
text_parts name none = []
text_parts name (some value) = text_part name value ∷ []

abbrev pub number_parts : Chars → Option ℕ → List Chars
number_parts name none = []
number_parts name (some value) = number_part name value ∷ []

abbrev pub scope_parts : List Chars → List Chars
scope_parts [] = []
scope_parts (w ∷ ws) = text_part (chars "scope") (join_words (w ∷ ws)) ∷ []

abbrev pub custom_parts : Map Chars Chars → List Chars
custom_parts [] = []
custom_parts ((k, v) ∷ m) = text_part (escape_json_string k) v ∷ custom_parts m

-- `join(",")`
abbrev pub join_parts : List Chars → Chars
join_parts [] = []
join_parts (p ∷ []) = p
join_parts (p ∷ q ∷ ps) = p ++ b',' ∷ join_parts (q ∷ ps)

abbrev pub parts : JwtClaims → List Chars
parts c =
    text_parts (chars "sub") c.sub
    ++ (text_parts (chars "iss") c.iss
        ++ (number_parts (chars "iat") c.iat
            ++ (number_parts (chars "exp") c.exp
                ++ (scope_parts c.scopes ++ custom_parts c.custom))))

unfoldable pub to_json : JwtClaims → Chars
unfolding text_part number_part escape_json_string
to_json c = b'{' ∷ join_parts (parts c) ++ b'}' ∷ []
