-- ===== src/Storage/Signing.antt =====
-- The signed URLs of daemon/src/storage.rs.
pub mod Verified
pub mod Bound
use Prim.Native.Nat.{bit_or, bit_xor}
use bridge_framework.Base.{
  ◌%◌, ◌^◌, ℕ, ◌+◌, ◌||◌, Bool, not, List, [], ◌∷◌, ◌++◌, chars, decimal, length, leb, ltb, is_some,
  if◌then◌else◌, Result, ok, err, ◌>>=◌, guard, ◌==◌, nat_eq, list_eq, Chars, as_bytes,
  to_uppercase,
}
use bridge_framework.Digest.{hmac_sha256, hex_all}
use bridge_framework.Auth.Jwt.{difference}
use bridge_framework.Storage.{
  StorageRegistry, StorageError, bucket_not_found, unsupported_method, expired, invalid_signature,
  get_bucket,
}

-- The text that is signed.
abbrev pub signed_text : Chars → Chars → Chars → ℕ → Chars
signed_text method bucket key exp =
    method ++ (b'|' ∷ bucket ++ (b'|' ∷ key ++ (b'|' ∷ chars (decimal exp))))

unfoldable pub sign : Chars → Chars → Chars → ℕ → List ℕ → Chars
unfolding hmac_sha256 as_bytes
sign method bucket key exp secret =
    hex_all (hmac_sha256 secret (as_bytes (signed_text method bucket key exp)))

abbrev at_least_one : ℕ → ℕ
at_least_one ttl = if ltb ttl 1 then 1 else ttl

-- The sum of 64 bits wraps, as in a release build; a build that checks for overflow panics.
unfoldable pub sign_url :
    ℕ → Chars → Chars → Chars → ℕ → List ℕ → StorageRegistry → Result StorageError (ℕ × Chars)
unfolding sign
sign_url now method bucket key ttl secret r =
    let upper = to_uppercase method in
    let exp = (now + at_least_one ttl) % 2 ^ 64 in
    guard (is_some (get_bucket bucket r)) bucket_not_found
    >>= (λ _. guard (upper == chars "GET" || upper == chars "PUT") unsupported_method)
    >>= (λ _. ok (exp, sign upper bucket key exp secret))

-- The fold over both texts, and their lengths.
unfoldable pub is_mac : List ℕ → List ℕ → Bool
unfolding difference
is_mac expected sig =
    bit_or (difference expected sig 0) (bit_xor (length expected) (length sig) % 256) == 0

unfoldable pub verify_signed_url :
    ℕ
    → Chars
    → Chars
    → Chars
    → ℕ
    → Chars
    → List ℕ
    → StorageRegistry
    → Result StorageError (Unit {0})
unfolding sign is_mac
verify_signed_url now method bucket key exp sig secret r =
    guard (is_some (get_bucket bucket r)) bucket_not_found
    >>= (λ _. guard (not (leb exp now)) expired)
    >>= (λ _.
        guard (is_mac (as_bytes (sign method bucket key exp secret)) (as_bytes sig))
          invalid_signature)
