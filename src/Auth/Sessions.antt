-- ===== src/Auth/Sessions.antt =====
-- Sessions, headers and issued tokens.
use mathlib.Core.List.{append_assoc, append-nil}
use bridge_framework.Base.{
  ℕ, suc, ◌≡◌, refl, sym, ap, ◌∙◌, false, List, [], ◌∷◌, ◌++◌, chars, if◌then◌else◌, arith, ok, err,
  ◌>>=◌, ◌==◌, nat_eq, list_eq, ==_self, Chars, IsWord, trim_front, trim_back, as_bytes,
}
use bridge_framework.Base.Map
use bridge_framework.Base.Map.{get-insert_self, get-remove}
use bridge_framework.Digest.{hmac_sha256}
use bridge_framework.Auth.Base64.{message, base64url_encode}
use bridge_framework.Auth.Claims.{JwtClaims, to_json}
use bridge_framework.Auth.Decodes.{AllSymbols, base64url_encode-AllSymbols}
use bridge_framework.Auth.Jwt.{unexpired, signing_input, header_json, jwt_sign}
use bridge_framework.Auth.Reads.{IsClaims}
use bridge_framework.Auth.Signed.{jwt_verify-sign}
use bridge_framework.Auth.Verifies.{trim_back-IsDotted, trim_both-IsDotted}
use bridge_framework.Auth.Registry.{
  AuthData, AuthRegistry, is_expired, set_bearer, revoke_bearer, validate_bearer, validate_header,
  entry_of, bearer, to_auth_data, issue_jwt, authenticate, dots,
}

-- A token without white space that was registered passes in an `Authorization` header as a bearer
-- token, in any registry, exactly until it expires.
pub validate_header-set_bearer :
    (token : Chars) (d : AuthData) (r : AuthRegistry) (set_at now again : ℕ)
    → IsWord token
    → validate_header now again (chars "Bearer " ++ token) (set_bearer set_at token d r)
      ≡ (if is_expired now d then err (message "token has expired") else ok d)
unfolding validate_header validate_bearer set_bearer trim_front trim_back
validate_header-set_bearer token d r set_at now again word =
    rw
      (
        validate_header,
        trim_back-IsDotted token word.1,
        word.0,
        trim_both-IsDotted token word.1,
        validate_bearer,
        get-insert_self token (entry_of bearer token d set_at) r.tokens,
      )
      refl

dots-AllSymbols : (s t : Chars) → AllSymbols s → dots (s ++ t) ≡ dots t
dots-AllSymbols [] t h = refl
dots-AllSymbols (c ∷ s) t h =
    let no_dot : (c == b'.') ≡ false = ground arith in rw no_dot (dots-AllSymbols s t h.1)

dots-token :
    (h p s : Chars)
    → AllSymbols h
    → AllSymbols p
    → AllSymbols s
    → dots (signing_input h p ++ b'.' ∷ s) ≡ 2
dots-token h p s hh hp hs =
    ap dots (append_assoc h (b'.' ∷ p) (b'.' ∷ s))
    ∙ dots-AllSymbols h (b'.' ∷ (p ++ b'.' ∷ s)) hh
    ∙ ap suc (dots-AllSymbols p (b'.' ∷ s) hp)
    ∙ ap (λ n. suc (suc n)) (ap dots (sym (append-nil s)) ∙ dots-AllSymbols s [] hs)

dots-jwt_sign : (c : JwtClaims) (secret : List ℕ) → dots (jwt_sign c secret) ≡ 2
unfolding jwt_sign
dots-jwt_sign c secret =
    dots-token (base64url_encode (as_bytes header_json)) (base64url_encode (as_bytes (to_json c))) _
      (base64url_encode-AllSymbols (as_bytes header_json))
      (base64url_encode-AllSymbols (as_bytes (to_json c)))
      (base64url_encode-AllSymbols (
        hmac_sha256 secret (
          as_bytes (
            signing_input (base64url_encode (as_bytes header_json))
              (base64url_encode (as_bytes (to_json c)))))))

-- A token issued for claims of plain texts and then revoked is refused as a session, but with the
-- secret it is still authenticated until it expires, with the data of its claims.
pub authenticate-revoke_bearer :
    (c : JwtClaims) (secret : List ℕ) (r : AuthRegistry) (issued registered now again : ℕ)
    → IsClaims c
    → let token = (issue_jwt issued registered c secret r).1 in
      let after = revoke_bearer token (issue_jwt issued registered c secret r).0 in
      (validate_bearer now token after ≡ err (message "invalid or expired token"))
      × (authenticate now again token secret after
          ≡ (unexpired now c >>= (λ d. ok (to_auth_data again d))))
unfolding issue_jwt revoke_bearer validate_bearer authenticate set_bearer
authenticate-revoke_bearer c secret r issued registered now again h =
    let token = jwt_sign c secret in
    let tokens =
      Map.insert token (entry_of bearer token (to_auth_data issued c) registered) r.tokens in
    (
      rw (validate_bearer, get-remove token token tokens, ==_self token) refl,
      rw (authenticate, dots-jwt_sign c secret)
          (ap (λ x. x >>= (λ d. ok (to_auth_data again d))) (jwt_verify-sign c secret now h)),
    )
