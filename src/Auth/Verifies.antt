-- ===== src/Auth/Verifies.antt =====
-- A token is verified with the secret that signed it.
use Prim.Native.Nat.{bit_or, bit_xor}
use bridge_framework.Base.{
  and_false, ℕ, ◌≡◌, String, none, refl, ap, ◌∙◌, Bool, true, false, ◌&&◌, some, List, [], ◌∷◌,
  ◌++◌, length, is_empty, ltb, All, arith, ok, ◌>>=◌, ◌==◌, nat_eq, ==_iff, Chars, as_bytes,
  as_bytes-ascii, trim_both, trim_front, trim_back, is_whitespace, all_below, all_below-passes,
}
use bridge_framework.Digest.{hmac_sha256}
use bridge_framework.Digest.Width.{IsBytes, hmac_sha256-IsBytes}
use bridge_framework.Auth.Base64.{base64url_encode, base64url_decode}
use bridge_framework.Auth.Ascii.{IsAscii}
use bridge_framework.Auth.Decodes.{is_symbol, AllSymbols, base64url_decode-encode}
use bridge_framework.Auth.Jwt.{
  lead, utf8_from, from_utf8, split_of, difference, is_signature, check_header, check_signature,
  signing_input, header_json,
}

utf8_from-ascii : (s : Chars) → IsAscii s → utf8_from none s ≡ some s
unfolding utf8_from
utf8_from-ascii [] h = refl
utf8_from-ascii (c ∷ s) h =
    let small : ltb c 0x80 ≡ true = ground arith in
    let single : lead c ≡ none = ground arith in
    rw (utf8_from, small, single, utf8_from-ascii s h.1) refl

pub IsAscii-IsBytes : (s : Chars) → IsAscii s → IsBytes s
IsAscii-IsBytes [] h = tt
IsAscii-IsBytes (c ∷ s) h = (omega arith, IsAscii-IsBytes s h.1)

-- A text of ASCII comes through its bytes and base64url.
pub decoded-ascii :
    (e : String) (s : Chars)
    → IsAscii s
    → (base64url_decode (base64url_encode (as_bytes s)) >>= from_utf8 e) ≡ ok s
unfolding from_utf8
decoded-ascii e s h =
    ap (λ b. base64url_decode (base64url_encode b) >>= from_utf8 e) (as_bytes-ascii s h)
    ∙ ap (λ r. r >>= from_utf8 e) (base64url_decode-encode s (IsAscii-IsBytes s h))
    ∙ rw (from_utf8, utf8_from-ascii s h) refl

-- A signature is compared with itself.
same_byte : ℕ → Bool
same_byte a = bit_or 0 (bit_xor a a) == 0

same_bytes : all_below 256 same_byte ≡ true
unfolding all_below same_byte
same_bytes = refl

pub difference_self : (s : List ℕ) → IsBytes s → difference s s 0 ≡ 0
unfolding difference same_byte
difference_self [] h = refl
difference_self (a ∷ s) h =
    let here : bit_or 0 (bit_xor a a) ≡ 0 =
      (==_iff (bit_or 0 (bit_xor a a)) 0).0 (all_below-passes 256 same_byte a same_bytes h.0) in
    rw (difference, here) (difference_self s h.1)

is_signature_self : (s : List ℕ) → length s ≡ 32 → IsBytes s → is_signature s s ≡ true
unfolding is_signature
is_signature_self s e h = rw (is_signature, e, difference_self s h) refl

-- The parts of a token.
pub split_of-AllSymbols : (s : Chars) → AllSymbols s → split_of b'.' s ≡ s ∷ []
unfolding split_of
split_of-AllSymbols [] h = refl
split_of-AllSymbols (c ∷ s) h =
    let no_dot : (c == b'.') ≡ false = ground arith in
    rw (split_of, no_dot, split_of-AllSymbols s h.1) refl

pub split_of-dot :
    (s t : Chars) → AllSymbols s → split_of b'.' (s ++ b'.' ∷ t) ≡ s ∷ split_of b'.' t
unfolding split_of
split_of-dot [] t h = refl
split_of-dot (c ∷ s) t h =
    let no_dot : (c == b'.') ≡ false = ground arith in
    rw (split_of, no_dot, split_of-dot s t h.1) refl

abbrev pub IsDotted : Chars → Type 0
IsDotted = All (λ c. is_whitespace c ≡ false)

pub symbol-solid : (c : ℕ) → is_symbol c ≡ true → is_whitespace c ≡ false
symbol-solid c h = ground arith

pub AllSymbols-IsDotted : (s t : Chars) → AllSymbols s → IsDotted t → IsDotted (s ++ t)
AllSymbols-IsDotted [] t h k = k
AllSymbols-IsDotted (c ∷ s) t h k = (symbol-solid c h.0, AllSymbols-IsDotted s t h.1 k)

pub trim_back-IsDotted : (s : Chars) → IsDotted s → trim_back s ≡ s
unfolding trim_back
trim_back-IsDotted [] h = refl
trim_back-IsDotted (c ∷ s) h =
    let kept : (is_empty s && is_whitespace c) ≡ false = and_false (is_empty s) h.0 in
    rw (trim_back, trim_back-IsDotted s h.1, kept) refl

pub trim_both-IsDotted : (s : Chars) → IsDotted s → trim_both s ≡ s
unfolding trim_front trim_back
trim_both-IsDotted [] h = refl
trim_both-IsDotted (c ∷ s) h = rw (trim_front, h.0) (trim_back-IsDotted (c ∷ s) h)

-- The three checks of a token that was just signed.
pub check_header-signed : check_header (base64url_encode (as_bytes header_json)) ≡ ok tt
unfolding check_header from_utf8 as_bytes base64url_encode
check_header-signed = refl

pub check_signature-signed :
    (header payload : Chars) (secret : List ℕ)
    → check_signature header payload
        (base64url_encode (hmac_sha256 secret (as_bytes (signing_input header payload))))
        secret
      ≡ ok tt
unfolding check_signature
check_signature-signed header payload secret =
    let expected = hmac_sha256 secret (as_bytes (signing_input header payload)) in
    let width = hmac_sha256-IsBytes secret (as_bytes (signing_input header payload)) in
    rw
      (
        check_signature,
        base64url_decode-encode expected width.1,
        is_signature_self expected width.0 width.1,
      )
      refl

is_empty-encode : (c : ℕ) (s : Chars) → is_empty (base64url_encode (c ∷ s)) ≡ false
unfolding base64url_encode
is_empty-encode c [] = refl
is_empty-encode c (d ∷ []) = refl
is_empty-encode c (d ∷ e ∷ s) = refl

pub is_empty-encode_some : (s : List ℕ) → is_empty s ≡ false → is_empty (base64url_encode s) ≡ false
is_empty-encode_some [] h = absurd (ground arith)
is_empty-encode_some (c ∷ s) h = is_empty-encode c s
