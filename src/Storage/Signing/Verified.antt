-- ===== src/Storage/Signing/Verified.antt =====
-- A signed URL is accepted until it expires.
use bridge_framework.Base.{
  ℕ, ◌*◌, ◌/◌, ◌%◌, ◌<◌, ◌≡◌, refl, ap, ◌∙◌, Bool, true, false, not, ◌||◌, List, [], ◌∷◌, chars,
  length, leb, is_some, arith, Bool-cases, inl, inr, ◌>>=◌, guard, ◌==◌, nat_eq, list_eq, Chars,
  as_bytes, as_bytes-ascii, to_uppercase,
}
use bridge_framework.Digest.{hmac_sha256, hex_all, hex_digit}
use bridge_framework.Digest.Width.{IsBytes, hmac_sha256-IsBytes}
use bridge_framework.Auth.Ascii.{IsAscii}
use bridge_framework.Auth.Verifies.{difference_self, IsAscii-IsBytes}
use bridge_framework.Storage.{StorageRegistry, StorageError, expired, get_bucket}
use bridge_framework.Storage.Signing.{signed_text, sign, sign_url, is_mac, verify_signed_url}

hex_digit-ascii : (n : ℕ) → n < 16 → hex_digit n < 0x80
hex_digit-ascii n h = ground arith

hex_all-IsAscii : (s : List ℕ) → IsBytes s → IsAscii (hex_all s)
hex_all-IsAscii [] h = tt
hex_all-IsAscii (b ∷ s) h = (
  hex_digit-ascii (b / 16) (omega arith),
  (hex_digit-ascii (b % 16) (omega arith), hex_all-IsAscii s h.1),
)

length-hex_all : (s : List ℕ) → length (hex_all s) ≡ length s * 2
length-hex_all [] = refl
length-hex_all (b ∷ s) = omega (arith, length-hex_all s)

is_mac_self : (s : Chars) → IsAscii s → length s ≡ 64 → is_mac (as_bytes s) (as_bytes s) ≡ true
unfolding is_mac
is_mac_self s h width =
    rw (as_bytes-ascii s h, is_mac, width, difference_self s (IsAscii-IsBytes s h)) refl

sign-mac :
    (method bucket key : Chars) (exp : ℕ) (secret : List ℕ)
    → let sig = as_bytes (sign method bucket key exp secret) in is_mac sig sig ≡ true
unfolding sign
sign-mac method bucket key exp secret =
    let message = as_bytes (signed_text method bucket key exp) in
    let digest = hmac_sha256-IsBytes secret message in
    is_mac_self (hex_all (hmac_sha256 secret message))
      (hex_all-IsAscii (hmac_sha256 secret message) digest.1)
      (length-hex_all (hmac_sha256 secret message) ∙ ap (λ n. n * 2) digest.0)

last_checked :
    (a late b : Bool) (e f g : StorageError)
    → a ≡ true
    → b ≡ true
    → (guard a e >>= (λ _. guard (not late) f) >>= (λ _. guard b g)) ≡ guard (not late) f
last_checked a true b e f g ha hb = rw ha refl
last_checked a false b e f g ha hb = rw (ha, hb) refl

verify_signed_url-sign :
    (later exp : ℕ) (method bucket key : Chars) (secret : List ℕ) (r : StorageRegistry)
    → is_some (get_bucket bucket r) ≡ true
    → verify_signed_url later method bucket key exp (sign method bucket key exp secret) secret r
      ≡ guard (not (leb exp later)) expired
unfolding verify_signed_url
verify_signed_url-sign later exp method bucket key secret r present =
    last_checked (is_some (get_bucket bucket r)) (leb exp later) _ _ _ _ present
      (sign-mac method bucket key exp secret)

-- A URL that was signed is accepted with the same secret and the method in capitals until it expires.
pub verify_signed_url-sign_url :
    (now later ttl : ℕ) (method bucket key : Chars) (secret : List ℕ) (r : StorageRegistry)
    → (sign_url now method bucket key ttl secret r
        >>= (λ u. verify_signed_url later (to_uppercase method) bucket key u.0 u.1 secret r))
      ≡ (sign_url now method bucket key ttl secret r >>= (λ u. guard (not (leb u.0 later)) expired))
unfolding sign_url
verify_signed_url-sign_url now later ttl method bucket key secret r =
    elim (Bool-cases (is_some (get_bucket bucket r))) [
      | inr absent ↦ rw (sign_url, absent) refl
      | inl present ↦
          elim (Bool-cases
            (to_uppercase method == chars "GET" || to_uppercase method == chars "PUT")) [
              | inr refused ↦ rw (sign_url, present, refused) refl
              | inl signed ↦
                  rw (sign_url, present, signed)
                    (verify_signed_url-sign later _ (to_uppercase method) bucket key secret r
                      present)
            ]
    ]
