-- ===== src/Auth/Base64.antt =====
-- The unpadded base64url of daemon/src/auth.rs.
use bridge_framework.Base.{
  ℕ, ◌+◌, ◌-◌, ◌*◌, ◌/◌, ◌%◌, ◌^◌, String, List, [], ◌∷◌, chars, nth, leb, if◌then◌else◌, Result,
  ok, err, ◌>>=◌, ◌==◌, nat_eq, ◌&&◌, is_empty, Chars, as_bytes,
}

-- The messages of the errors of the module that are not a fixed text are cases of their own.
pub data AuthError : Type 0 where
  invalid_character : ℕ → AuthError
  message : String → AuthError

abbrev pub alphabet : List ℕ
alphabet = chars "ABCDEFGHIJKLMNOPQRSTUVWXYZabcdefghijklmnopqrstuvwxyz0123456789-_"

abbrev pub symbol : ℕ → ℕ
symbol i = nth (i % 64) alphabet

-- The chunks of three bytes, and the last one.
unfoldable pub base64url_encode : List ℕ → Chars
base64url_encode [] = []
base64url_encode (p ∷ []) = let n = p * 2 ^ 16 in symbol (n / 2 ^ 18) ∷ symbol (n / 2 ^ 12) ∷ []
base64url_encode (p ∷ q ∷ []) =
    let n = p * 2 ^ 16 + q * 2 ^ 8 in
    symbol (n / 2 ^ 18) ∷ symbol (n / 2 ^ 12) ∷ symbol (n / 2 ^ 6) ∷ []
base64url_encode (p ∷ q ∷ r ∷ s) =
    let n = p * 2 ^ 16 + q * 2 ^ 8 + r in
    symbol (n / 2 ^ 18) ∷ symbol (n / 2 ^ 12) ∷ symbol (n / 2 ^ 6) ∷ symbol n ∷ base64url_encode s

unfoldable pub val : ℕ → Result AuthError ℕ
val c =
    if leb b'A' c && leb c b'Z'
    then ok (c - b'A')
    else if leb b'a' c && leb c b'z'
    then ok (c - b'a' + 26)
    else if leb b'0' c && leb c b'9'
    then ok (c - b'0' + 52)
    else if c == b'-'
    then ok 62
    else if c == b'_'
    then ok 63
    else err (invalid_character c)

-- The loop `n = (n << 6) | val(c)?` over a chunk.
unfoldable pub chunk_value : ℕ → List ℕ → Result AuthError ℕ
unfolding val
chunk_value n [] = ok n
chunk_value n (c ∷ cs) = val c >>= (λ v. chunk_value (n * 64 + v) cs)

-- `n as u8`
abbrev pub low_byte : ℕ → ℕ
low_byte n = n % 256

abbrev pub three_bytes : ℕ → List ℕ → List ℕ
three_bytes n s = low_byte (n / 2 ^ 16) ∷ low_byte (n / 2 ^ 8) ∷ low_byte n ∷ s

-- The loop over chunks of four.
unfoldable pub decode_chunks : List ℕ → Result AuthError (List ℕ)
unfolding chunk_value
decode_chunks [] = ok []
decode_chunks (a ∷ []) =
    chunk_value 0 (a ∷ []) >>= (λ n. err (message "truncated base64url segment"))
decode_chunks (a ∷ b ∷ []) =
    chunk_value 0 (a ∷ b ∷ []) >>= (λ n. ok (low_byte (n * 2 ^ 12 / 2 ^ 16) ∷ []))
decode_chunks (a ∷ b ∷ c ∷ []) =
    chunk_value 0 (a ∷ b ∷ c ∷ [])
    >>= (λ n. ok (low_byte (n * 2 ^ 6 / 2 ^ 16) ∷ low_byte (n * 2 ^ 6 / 2 ^ 8) ∷ []))
decode_chunks (a ∷ b ∷ c ∷ d ∷ s) =
    chunk_value 0 (a ∷ b ∷ c ∷ d ∷ [])
    >>= (λ n. decode_chunks s >>= (λ out. ok (three_bytes n out)))

-- `trim_end_matches` of a character.
unfoldable pub trim_end_of : ℕ → Chars → Chars
trim_end_of d [] = []
trim_end_of d (c ∷ s) =
    let rest = trim_end_of d s in if is_empty rest && c == d then [] else c ∷ rest

unfoldable pub base64url_decode : Chars → Result AuthError (List ℕ)
unfolding trim_end_of as_bytes decode_chunks
base64url_decode s = decode_chunks (as_bytes (trim_end_of b'=' s))
