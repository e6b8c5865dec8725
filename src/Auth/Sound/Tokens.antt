-- ===== src/Auth/Sound/Tokens.antt =====
-- The tokens that `jwt_verify` accepts.
use mathlib.Core.Path.{subst}
use bridge_framework.Base.{
  ℕ, ◌%◌, ◌≡◌, refl, ap, ◌∙◌, Bool, true, false, List, [], ◌∷◌, length, arith, is_empty, ◌||◌,
  Result, ok, err, ◌>>=◌, guard, Chars, as_bytes, trim_both, if◌then◌else◌,
}
use bridge_framework.Digest.{take_bytes, hmac_sha256}
use bridge_framework.Digest.Width.{IsBytes, hmac_sha256-IsBytes}
use bridge_framework.Auth.Base64.{
  AuthError, three_bytes, chunk_value, decode_chunks, trim_end_of, base64url_decode,
}
use bridge_framework.Auth.Claims.{JwtClaims}
use bridge_framework.Auth.Jwt.{
  is_signature, check_header, check_signature, read_claims, unexpired, is_due, split_of,
  signing_input, malformed, verify_parts, jwt_verify,
}
use bridge_framework.Auth.Sound.Signatures.{is_signature_iff}

module _ {ℓ κ μ} {E : Type ℓ} {A : Type κ} {B : Type μ} where
  -- What a chain of results that ended well went through.
  pub through :
      (r : Result E A) (f : A → Result E B) (b : B)
      → (r >>= f) ≡ ok b
      → (a : A) × (r ≡ ok a) × (f a ≡ ok b)
  through (ok a) f b h = (a, refl, h)
  through (err e) f b h = absurd (ground arith)

guard-ok {ℓ} : {E : Type ℓ} (b : Bool) (e : E) (u : Unit {0}) → guard b e ≡ ok u → b ≡ true
guard-ok true e u h = refl
guard-ok false e u h = absurd (ground arith)

unfoldable pub result_or {ℓ κ} : {E : Type ℓ} {A : Type κ} → A → Result E A → A
result_or a (ok b) = b
result_or a (err e) = a

checked-ok :
    (b : Bool) (e : AuthError) (c d : JwtClaims)
    → (if b then err e else ok c) ≡ ok d
    → (c ≡ d) × (b ≡ false)
unfolding result_or
checked-ok true e c d h = absurd (ground arith)
checked-ok false e c d h = (ap (result_or c) h, refl)

-- What is decoded are bytes.
decode_chunks-IsBytes : (s out : List ℕ) → decode_chunks s ≡ ok out → IsBytes out
unfolding decode_chunks result_or
decode_chunks-IsBytes [] out h = subst IsBytes (ap (result_or []) h) tt
decode_chunks-IsBytes (a ∷ []) out h =
    let (n, _, bad) = through (chunk_value 0 (a ∷ [])) _ out h in absurd (ground arith)
decode_chunks-IsBytes (a ∷ b ∷ []) out h =
    let r = through (chunk_value 0 (a ∷ b ∷ [])) _ out h in
    subst IsBytes (ap (result_or []) r.2) (omega arith, tt)
decode_chunks-IsBytes (a ∷ b ∷ c ∷ []) out h =
    let r = through (chunk_value 0 (a ∷ b ∷ c ∷ [])) _ out h in
    subst IsBytes (ap (result_or []) r.2) (omega arith, (omega arith, tt))
decode_chunks-IsBytes (a ∷ b ∷ c ∷ d ∷ s) out h =
    let r = through (chunk_value 0 (a ∷ b ∷ c ∷ d ∷ [])) _ out h in
    let q = through (decode_chunks s) (λ t. ok (three_bytes r.0 t)) out r.2 in
    subst IsBytes (ap (result_or []) q.2)
      (omega arith, (omega arith, (omega arith, decode_chunks-IsBytes s q.0 q.1)))

-- A token that passes: its three parts, and the bytes of its signature.
pub record Accepted (parts : List Chars) (secret : List ℕ) (now : ℕ) (c : JwtClaims) : Type 0 where
  pub header : Chars
  pub payload : Chars
  pub signature : Chars
  pub got : List ℕ
  pub three : parts ≡ header ∷ payload ∷ signature ∷ []
  pub algorithm : check_header header ≡ ok tt
  pub decoded : base64url_decode signature ≡ ok got
  pub width : length got % 256 ≡ 32
  pub signed : take_bytes 32 got ≡ hmac_sha256 secret (as_bytes (signing_input header payload))
  pub claims : read_claims payload ≡ ok c
  pub lives : is_due now c.exp ≡ false

signed-ok :
    (h p s : Chars) (secret : List ℕ)
    → check_signature h p s secret ≡ ok tt
    → (got : List ℕ) × (base64url_decode s ≡ ok got)
      × (length got % 256 ≡ 32)
      × (take_bytes 32 got ≡ hmac_sha256 secret (as_bytes (signing_input h p)))
unfolding check_signature base64url_decode
signed-ok h p s secret e =
    let expected = hmac_sha256 secret (as_bytes (signing_input h p)) in
    let r = through (base64url_decode s) _ tt e in
    let passed = guard-ok (is_signature r.0 expected) _ tt r.2 in
    let digest = hmac_sha256-IsBytes secret (as_bytes (signing_input h p)) in
    let bytes = decode_chunks-IsBytes (as_bytes (trim_end_of b'=' s)) r.0 r.1 in
    let facts = (is_signature_iff r.0 expected bytes digest.1 digest.0).0 passed in
    (r.0, r.1, facts.0, facts.1)

not_blank :
    (b : Bool) (e : AuthError) (r : Result AuthError JwtClaims) (c : JwtClaims)
    → (if b then err e else r) ≡ ok c
    → r ≡ ok c
not_blank true e r c h = absurd (ground arith)
not_blank false e r c h = h

verify_parts-ok :
    (ps : List Chars) (secret : List ℕ) (now : ℕ) (c : JwtClaims)
    → verify_parts ps secret now ≡ ok c
    → Accepted ps secret now c
unfolding verify_parts
verify_parts-ok [] secret now c h = absurd (ground arith)
verify_parts-ok (a ∷ []) secret now c h = absurd (ground arith)
verify_parts-ok (a ∷ b ∷ []) secret now c h = absurd (ground arith)
verify_parts-ok (a ∷ b ∷ d ∷ e ∷ ps) secret now c h = absurd (ground arith)
verify_parts-ok (a ∷ b ∷ d ∷ []) secret now c h =
    let passed = not_blank (is_empty a || is_empty b || is_empty d) malformed _ c h in
    let last = through _ (unexpired now) c passed in
    let read = through _ (λ _. read_claims b) last.0 last.1 in
    let checked = through (check_header a) (λ _. check_signature a b d secret) read.0 read.1 in
    let signature = signed-ok a b d secret checked.2 in
    let lives = checked-ok (is_due now last.0.exp) _ last.0 c last.2 in
    record {
      header = a;
      payload = b;
      signature = d;
      got = signature.0;
      three = refl;
      algorithm = checked.1;
      decoded = signature.1;
      width = signature.2;
      signed = signature.3;
      claims = read.2 ∙ ap ok lives.0;
      lives = subst (λ x. is_due now x.exp ≡ false) lives.0 lives.1;
    }

-- A token is accepted only if it has three parts, its header names HS256, the first 32 bytes of
-- its signature are the keyed digest of the header and the payload, the length of the signature
-- has the low byte of 32, its payload reads as the claims that are returned, and those have not
-- expired.
pub jwt_verify-ok :
    (token : Chars) (secret : List ℕ) (now : ℕ) (c : JwtClaims)
    → jwt_verify token secret now ≡ ok c
    → Accepted (split_of b'.' (trim_both token)) secret now c
unfolding jwt_verify
jwt_verify-ok token secret now c h =
    verify_parts-ok (split_of b'.' (trim_both token)) secret now c h
