-- ===== src/Digest/Width.antt =====
-- A digest is 32 bytes, whatever the message.
use bridge_framework.Base.{ℕ, ◌<◌, ◌≡◌, refl, List, [], ◌∷◌, ◌++◌, length, All, arith}
use bridge_framework.Digest.{Words, words_bytes, sha256_bytes, hmac_sha256}

abbrev pub IsBytes : List ℕ → Type 0
IsBytes = All (λ b. b < 256)

pub append-IsBytes : (xs ys : List ℕ) → IsBytes xs → IsBytes ys → IsBytes (xs ++ ys)
append-IsBytes [] ys h k = k
append-IsBytes (x ∷ xs) ys h k = (h.0, append-IsBytes xs ys h.1 k)

words_bytes-IsBytes : (x : Words) → (length (words_bytes x) ≡ 32) × IsBytes (words_bytes x)
unfolding words_bytes
words_bytes-IsBytes x = (refl, ground arith)

-- A keyed digest is 32 bytes, whatever the key and the message.
pub hmac_sha256-IsBytes :
    (secret message : List ℕ)
    → (length (hmac_sha256 secret message) ≡ 32) × IsBytes (hmac_sha256 secret message)
unfolding hmac_sha256 sha256_bytes
hmac_sha256-IsBytes secret message = words_bytes-IsBytes _
