-- ===== src/Auth/Tests.antt =====
-- Runs of the tokens and the session registry on small inputs.
use bridge_framework.Base.{
  ℕ, ◌%◌, ◌≡◌, ◌↔◌, refl, true, some, List, [], ◌∷◌, chars, ok, err, ◌>>=◌, length, arith,
  trim_both, trim_front, trim_back,
}
use bridge_framework.Base.Map
use bridge_framework.Digest.{take_bytes, zeros}
use bridge_framework.Digest.Width.{IsBytes}
use bridge_framework.Auth.Base64.{message, base64url_encode, base64url_decode}
use bridge_framework.Auth.Claims.{JwtClaims, new_claims, with_ttl, with_claim, to_json}
use bridge_framework.Auth.Scan.{scan, from_json}
use bridge_framework.Auth.Jwt.{jwt_sign, jwt_verify, unexpired, is_signature, split_of}
use bridge_framework.Auth.Registry.{
  new, new_data, with_expiry, set_bearer, revoke_bearer, validate_bearer, validate_header,
  to_auth_data, issue_jwt, authenticate,
}
use bridge_framework.Auth.Decodes
use bridge_framework.Auth.Ends
use bridge_framework.Auth.Signed
use bridge_framework.Auth.Commas
use bridge_framework.Auth.Sessions
use bridge_framework.Auth.Reads.{IsClaims}
use bridge_framework.Auth.Sound.Signatures
use bridge_framework.Auth.Sound.Tokens
use bridge_framework.Auth.Sound.Tokens.{Accepted}

program : Unit {0}
unfolding base64url_encode base64url_decode to_json from_json jwt_sign jwt_verify with_claim
    set_bearer validate_bearer validate_header issue_jwt authenticate scan trim_front trim_back
    Map.get Map.insert
program = tt

abbrev claims : JwtClaims
claims = record {
  sub = some (chars "u\"1");
  iss = some (chars "bridge");
  exp = some 200;
  iat = some 100;
  scopes = chars "read" ∷ chars "write" ∷ [];
  custom = (chars "email", chars "a@b") ∷ (chars "team", chars "x y") ∷ [];
}

abbrev secret : List ℕ
secret = chars "key"

claims-IsClaims : IsClaims claims
claims-IsClaims = record {
  sub = ground arith;
  iss = ground arith;
  iat = omega arith;
  exp = omega arith;
  scopes = ground arith;
  custom = ground arith;
  ascending = ground arith;
}

runs :
    (base64url_encode (chars "light w") ≡ chars "bGlnaHQgdw")
    × (base64url_decode (chars "bGlnaHQgdw==") ≡ ok (chars "light w"))
    × (base64url_decode (chars "a") ≡ err (message "truncated base64url segment"))
    × (from_json (chars "{ \"sub\" : \"a\", \"exp\": 7 }")
        ≡ ok (record (new_claims (chars "a")) { exp = some 7 }))
    × (to_json (new_claims (chars "a")) ≡ chars "{\"sub\":\"a\"}")
unfolding program
runs = (refl, refl, refl, refl, refl)

signed_runs :
    (jwt_verify (jwt_sign claims secret) secret 150 ≡ ok claims)
    × (jwt_verify (jwt_sign claims secret) (chars "other") 150 ≡ err (message "signature mismatch"))
    × (jwt_verify (jwt_sign claims secret) secret 200 ≡ err (message "token expired"))
unfolding program
signed_runs = (refl, refl, refl)

jwt_verify-sign_example : jwt_verify (jwt_sign claims secret) secret 150 ≡ unexpired 150 claims
jwt_verify-sign_example = Signed.jwt_verify-sign claims secret 150 claims-IsClaims

jwt_verify-ok_example :
    Accepted (split_of b'.' (trim_both (jwt_sign claims secret))) secret 150 claims
jwt_verify-ok_example =
    Tokens.jwt_verify-ok (jwt_sign claims secret) secret 150 claims signed_runs.0

jwt_verify-comma_example :
    jwt_verify (jwt_sign (with_ttl 100 101 60 (new_claims (chars "a,b"))) secret) secret 5000
    ≡ ok (new_claims (chars "a"))
jwt_verify-comma_example =
    Commas.jwt_verify-comma (chars "a") (chars "b") 100 101 60 5000 secret (refl, tt)
      (omega arith, tt)

base64url_decode-encode_example :
    base64url_decode (base64url_encode (255 ∷ 0 ∷ [])) ≡ ok (255 ∷ 0 ∷ [])
base64url_decode-encode_example =
    Decodes.base64url_decode-encode (255 ∷ 0 ∷ []) (omega arith, (omega arith, tt))

scan-enough_example : scan 9 (chars "\"a\":1") ≡ scan 50 (chars "\"a\":1")
scan-enough_example = Ends.scan-enough 9 50 (chars "\"a\":1") (omega arith) (omega arith)

abbrev digest : List ℕ
digest = 7 ∷ zeros 31

digest-IsBytes : IsBytes digest
digest-IsBytes = ground arith

is_signature_iff_example :
    (is_signature digest digest ≡ true)
    ↔ ((length digest % 256 ≡ 32) × (take_bytes 32 digest ≡ digest))
is_signature_iff_example =
    Signatures.is_signature_iff digest digest digest-IsBytes digest-IsBytes refl

authenticate-revoke_bearer_example :
    let token = (issue_jwt 100 101 claims secret new).1 in
    let after = revoke_bearer token (issue_jwt 100 101 claims secret new).0 in
    (validate_bearer 150 token after ≡ err (message "invalid or expired token"))
    × (authenticate 150 151 token secret after
        ≡ (unexpired 150 claims >>= (λ d. ok (to_auth_data 151 d))))
authenticate-revoke_bearer_example =
    Sessions.authenticate-revoke_bearer claims secret new 100 101 150 151 claims-IsClaims

headers_run :
    (validate_header 120 121
        (chars " Bearer abc")
        (set_bearer 100 (chars "abc") (with_expiry 100 60 (new_data 100 (chars "u1"))) new)
      ≡ ok (with_expiry 100 60 (new_data 100 (chars "u1"))))
    × (validate_header 120 121 (chars "Basic abc") new
        ≡ err (message "unsupported authentication scheme"))
unfolding program
headers_run = (refl, refl)
