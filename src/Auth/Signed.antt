-- ===== src/Auth/Signed.antt =====
-- What `jwt_verify` makes of a token that `jwt_sign` made with the same secret.
use mathlib.Core.List.{append_assoc, append-nil}
use mathlib.Core.Path.{subst}
use bridge_framework.Base.{
  ℕ, ◌≡◌, refl, sym, ap, ◌∙◌, false, ◌||◌, List, [], ◌∷◌, ◌++◌, is_empty, Result, ok, ◌>>=◌, Chars,
  as_bytes, trim_both,
}
use bridge_framework.Digest.{hmac_sha256, words_bytes}
use bridge_framework.Auth.Base64.{AuthError, base64url_encode}
use bridge_framework.Auth.Claims.{JwtClaims, to_json}
use bridge_framework.Auth.Decodes.{AllSymbols, base64url_encode-AllSymbols}
use bridge_framework.Auth.Scan.{from_json}
use bridge_framework.Auth.Jwt.{
  split_of, check_header, check_signature, read_claims, unexpired, signing_input, header_json,
  verify_parts, jwt_sign, jwt_verify,
}
use bridge_framework.Auth.Ascii.{IsAscii, braces-IsAscii}
use bridge_framework.Auth.Reads.{IsClaims, fields}
use bridge_framework.Auth.Prints.{fields-AllFields, to_json-fields, from_json-to_json}
use bridge_framework.Auth.Verifies.{
  decoded-ascii, split_of-AllSymbols, split_of-dot, IsDotted, AllSymbols-IsDotted,
  trim_both-IsDotted, check_header-signed, check_signature-signed, is_empty-encode_some,
}

split_of-token :
    (h p s : Chars)
    → AllSymbols h
    → AllSymbols p
    → AllSymbols s
    → split_of b'.' (trim_both (signing_input h p ++ b'.' ∷ s)) ≡ h ∷ p ∷ s ∷ []
split_of-token h p s hh hp hs =
    let flat : signing_input h p ++ b'.' ∷ s ≡ h ++ b'.' ∷ (p ++ b'.' ∷ s) =
      append_assoc h (b'.' ∷ p) (b'.' ∷ s) in
    let tail : IsDotted s = subst IsDotted (append-nil s) (AllSymbols-IsDotted s [] hs tt) in
    let solid : IsDotted (h ++ b'.' ∷ (p ++ b'.' ∷ s)) =
      AllSymbols-IsDotted h (b'.' ∷ (p ++ b'.' ∷ s)) hh
        (refl, AllSymbols-IsDotted p (b'.' ∷ s) hp (refl, tail)) in
    ap (λ t. split_of b'.' (trim_both t)) flat
    ∙ ap (split_of b'.') (trim_both-IsDotted (h ++ b'.' ∷ (p ++ b'.' ∷ s)) solid)
    ∙ split_of-dot h (p ++ b'.' ∷ s) hh
    ∙ ap (λ ps. h ∷ ps) (split_of-dot p s hp ∙ ap (λ ps. p ∷ ps) (split_of-AllSymbols s hs))

is_empty-json : (c : JwtClaims) → is_empty (as_bytes (to_json c)) ≡ false
unfolding to_json as_bytes
is_empty-json c = refl

is_empty-header : is_empty (base64url_encode (as_bytes header_json)) ≡ false
unfolding base64url_encode as_bytes
is_empty-header = refl

-- The checks of a token in its three parts, one after the other.
verify_parts-checked :
    (h p s : Chars) (secret : List ℕ) (now : ℕ) (r : Result AuthError JwtClaims)
    → (is_empty h || is_empty p || is_empty s) ≡ false
    → check_header h ≡ ok tt
    → check_signature h p s secret ≡ ok tt
    → read_claims p ≡ r
    → verify_parts (h ∷ p ∷ s ∷ []) secret now ≡ (r >>= unexpired now)
unfolding verify_parts
verify_parts-checked h p s secret now r filled header signature read =
    rw (verify_parts, filled, header, signature, read) refl

is_empty-parts :
    (h p s : Chars)
    → is_empty h ≡ false
    → is_empty p ≡ false
    → is_empty s ≡ false
    → (is_empty h || is_empty p || is_empty s) ≡ false
is_empty-parts h p s hh hp hs = rw (hh, hp, hs) refl

is_empty-hmac : (secret message : List ℕ) → is_empty (hmac_sha256 secret message) ≡ false
unfolding hmac_sha256 words_bytes
is_empty-hmac secret message = refl

read_claims-json :
    (c : JwtClaims)
    → IsAscii (to_json c)
    → read_claims (base64url_encode (as_bytes (to_json c))) ≡ from_json (to_json c)
unfolding read_claims
read_claims-json c ascii =
    ap (λ r. r >>= from_json) (decoded-ascii "invalid UTF-8 in JWT payload" (to_json c) ascii)

-- A signed token leads to the claims that its JSON is read as, and to the test of their expiry.
pub jwt_verify-signed :
    (c : JwtClaims) (secret : List ℕ) (now : ℕ)
    → IsAscii (to_json c)
    → jwt_verify (jwt_sign c secret) secret now ≡ (from_json (to_json c) >>= unexpired now)
unfolding jwt_verify jwt_sign
jwt_verify-signed c secret now ascii =
    let h = base64url_encode (as_bytes header_json) in
    let p = base64url_encode (as_bytes (to_json c)) in
    let digest = hmac_sha256 secret (as_bytes (signing_input h p)) in
    let s = base64url_encode digest in
    ap (λ ps. verify_parts ps secret now)
      (split_of-token h p s (base64url_encode-AllSymbols (as_bytes header_json))
        (base64url_encode-AllSymbols (as_bytes (to_json c))) (base64url_encode-AllSymbols digest))
    ∙ verify_parts-checked h p s secret now (from_json (to_json c))
        (is_empty-parts h p s is_empty-header
          (is_empty-encode_some (as_bytes (to_json c)) (is_empty-json c))
          (is_empty-encode_some digest (is_empty-hmac secret (as_bytes (signing_input h p)))))
        check_header-signed (check_signature-signed h p secret) (read_claims-json c ascii)

-- A token that was signed for claims of plain texts, with numbers of 64 bits, scopes of one word
-- each and custom names in order that are not registered, is verified with the same secret: the
-- claims come back as they were, or the token has expired, as their expiry says.
pub jwt_verify-sign :
    (c : JwtClaims) (secret : List ℕ) (now : ℕ)
    → IsClaims c
    → jwt_verify (jwt_sign c secret) secret now ≡ unexpired now c
jwt_verify-sign c secret now h =
    let ascii : IsAscii (to_json c) =
      subst IsAscii (sym (to_json-fields c)) (braces-IsAscii (fields c) (fields-AllFields c h)) in
    jwt_verify-signed c secret now ascii ∙ ap (λ r. r >>= unexpired now) (from_json-to_json c h)
