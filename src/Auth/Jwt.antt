-- ===== src/Auth/Jwt.antt =====
-- The tokens of daemon/src/auth.rs: `jwt_sign` and `jwt_verify`, with the time as an argument.
use Prim.Native.Nat.{bit_or, bit_xor}
use bridge_framework.Base.{
  ℕ, ◌-◌, ◌+◌, ◌*◌, ◌%◌, Bool, true, false, ◌&&◌, ◌||◌, String, Option, some, none, List, [], ◌∷◌,
  ◌++◌, chars, length, ltb, leb, is_some, map_some, is_empty, if◌then◌else◌, Result, ok, err, ◌>>=◌,
  guard, ◌==◌, nat_eq, Chars, as_bytes, trim_both,
}
use bridge_framework.Digest.{hmac_sha256}
use bridge_framework.Auth.Base64.{AuthError, message, base64url_encode, base64url_decode}
use bridge_framework.Auth.Claims.{JwtClaims, to_json}
use bridge_framework.Auth.Scan.{from_json}

-- What the bytes read so far ask for: how many more, the range of the next, and the value.
pub record Pending : Type 0 where
  pub more : ℕ
  pub low : ℕ
  pub high : ℕ
  pub value : ℕ

abbrev pub lead : ℕ → Option Pending
lead b =
    if leb 0xc2 b && leb b 0xdf
    then some (record { more = 1; low = 0x80; high = 0xbf; value = b - 0xc0 })
    else if b == 0xe0
    then some (record { more = 2; low = 0xa0; high = 0xbf; value = 0 })
    else if leb 0xe1 b && leb b 0xef
    then some
        (record { more = 2; low = 0x80; high = if b == 0xed then 0x9f else 0xbf; value = b - 0xe0 })
    else if b == 0xf0
    then some (record { more = 3; low = 0x90; high = 0xbf; value = 0 })
    else if leb 0xf1 b && leb b 0xf4
    then some
        (record { more = 3; low = 0x80; high = if b == 0xf4 then 0x8f else 0xbf; value = b - 0xf0 })
    else none

abbrev pub add_byte : ℕ → Pending → Option Pending
add_byte b p =
    if p.more == 1
    then none
    else some (record { more = p.more - 1; low = 0x80; high = 0xbf; value = p.value * 64 + b % 64 })

-- `String::from_utf8`
unfoldable pub utf8_from : Option Pending → List ℕ → Option Chars
utf8_from none [] = some []
utf8_from (some p) [] = none
utf8_from none (b ∷ s) =
    let rest = utf8_from (lead b) s in
    if ltb b 0x80 then map_some (λ t. b ∷ t) rest else if is_some (lead b) then rest else none
utf8_from (some p) (b ∷ s) =
    let rest = utf8_from (add_byte b p) s in
    if leb p.low b && leb b p.high
    then (if p.more == 1 then map_some (λ t. (p.value * 64 + b % 64) ∷ t) rest else rest)
    else none

abbrev ok_or : String → Option Chars → Result AuthError Chars
ok_or e none = err (message e)
ok_or e (some s) = ok s

unfoldable pub from_utf8 : String → List ℕ → Result AuthError Chars
unfolding utf8_from
from_utf8 e s = ok_or e (utf8_from none s)

abbrev pub add_first : ℕ → List Chars → List Chars
add_first c [] = []
add_first c (s ∷ parts) = (c ∷ s) ∷ parts

-- `split` at a character.
unfoldable pub split_of : ℕ → Chars → List Chars
split_of d [] = [] ∷ []
split_of d (c ∷ s) = let parts = split_of d s in if c == d then [] ∷ parts else add_first c parts

abbrev pub begins_with : Chars → Chars → Bool
begins_with [] s = true
begins_with (d ∷ t) [] = false
begins_with (d ∷ t) (c ∷ s) = c == d && begins_with t s

-- `contains` of a text.
abbrev pub contains_text : Chars → Chars → Bool
contains_text t [] = begins_with t []
contains_text t (c ∷ s) = begins_with t (c ∷ s) || contains_text t s

abbrev pub is_hs256 : Chars → Bool
is_hs256 header =
    contains_text (chars "\"alg\":\"HS256\"") header
    || contains_text (chars "\"alg\": \"HS256\"") header

-- The loop over both signatures, as far as the shorter one goes.
unfoldable pub difference : List ℕ → List ℕ → ℕ → ℕ
difference (a ∷ s) (b ∷ t) d = difference s t (bit_or d (bit_xor a b))
difference _ _ d = d

-- The test that accepts a signature.
unfoldable pub is_signature : List ℕ → List ℕ → Bool
unfolding difference
is_signature got expected =
    difference got expected (bit_xor (length got) (length expected) % 256) == 0

abbrev pub is_due : ℕ → Option ℕ → Bool
is_due now none = false
is_due now (some exp) = leb exp now

-- The last test of `jwt_verify`.
abbrev pub unexpired : ℕ → JwtClaims → Result AuthError JwtClaims
unexpired now c = if is_due now c.exp then err (message "token expired") else ok c

abbrev pub signing_input : Chars → Chars → Chars
signing_input header payload = header ++ b'.' ∷ payload

abbrev pub header_json : Chars
header_json = chars "{\"alg\":\"HS256\",\"typ\":\"JWT\"}"

unfoldable pub jwt_sign : JwtClaims → List ℕ → Chars
unfolding base64url_encode as_bytes to_json hmac_sha256
jwt_sign claims secret =
    let input =
      signing_input (base64url_encode (as_bytes header_json))
        (base64url_encode (as_bytes (to_json claims))) in
    input ++ b'.' ∷ base64url_encode (hmac_sha256 secret (as_bytes input))

unfoldable pub check_header : Chars → Result AuthError (Unit {0})
unfolding base64url_decode from_utf8
check_header header =
    base64url_decode header
    >>= from_utf8 "invalid header encoding"
    >>= (λ text. guard (is_hs256 text) (message "unsupported JWT algorithm (only HS256 accepted)"))

unfoldable pub check_signature : Chars → Chars → Chars → List ℕ → Result AuthError (Unit {0})
unfolding base64url_decode hmac_sha256 is_signature as_bytes
check_signature header payload signature secret = base64url_decode signature >>= (λ got.
    guard (is_signature got (hmac_sha256 secret (as_bytes (signing_input header payload))))
      (message "signature mismatch"))

unfoldable pub read_claims : Chars → Result AuthError JwtClaims
unfolding base64url_decode from_utf8 from_json
read_claims payload =
    base64url_decode payload >>= from_utf8 "invalid UTF-8 in JWT payload" >>= from_json

abbrev pub malformed : AuthError
malformed = message "malformed JWT: expected header.payload.signature"

unfoldable pub verify_parts : List Chars → List ℕ → ℕ → Result AuthError JwtClaims
unfolding check_header check_signature read_claims
verify_parts (header ∷ payload ∷ signature ∷ []) secret now =
    if is_empty header || is_empty payload || is_empty signature
    then err malformed
    else check_header header
      >>= (λ _. check_signature header payload signature secret)
      >>= (λ _. read_claims payload)
      >>= unexpired now
verify_parts _ secret now = err malformed

unfoldable pub jwt_verify : Chars → List ℕ → ℕ → Result AuthError JwtClaims
unfolding split_of verify_parts
jwt_verify token secret now = verify_parts (split_of b'.' (trim_both token)) secret now
