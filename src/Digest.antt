-- ===== src/Digest.antt =====
-- SHA-256 and HMAC of daemon/src/staticfiles.rs, over bytes. Words are 32 bits wide.
pub mod Padding
pub mod Width
mod Tests
use Prim.Native.Nat.{bit_and, bit_xor}
use bridge_framework.Base.{
  ℕ, zero, suc, ◌+◌, ◌-◌, ◌*◌, ◌/◌, ◌%◌, ◌^◌, List, [], ◌∷◌, ◌++◌, map, reverse, length, ltb, nth,
  if◌then◌else◌, ◌==◌, nat_eq,
}

abbrev pub round_constants : List ℕ
round_constants =
    0x428a2f98 ∷ 0x71374491 ∷ 0xb5c0fbcf ∷ 0xe9b5dba5 ∷ 0x3956c25b ∷ 0x59f111f1 ∷ 0x923f82a4
    ∷ 0xab1c5ed5 ∷ 0xd807aa98 ∷ 0x12835b01 ∷ 0x243185be ∷ 0x550c7dc3 ∷ 0x72be5d74 ∷ 0x80deb1fe
    ∷ 0x9bdc06a7 ∷ 0xc19bf174 ∷ 0xe49b69c1 ∷ 0xefbe4786 ∷ 0x0fc19dc6 ∷ 0x240ca1cc ∷ 0x2de92c6f
    ∷ 0x4a7484aa ∷ 0x5cb0a9dc ∷ 0x76f988da ∷ 0x983e5152 ∷ 0xa831c66d ∷ 0xb00327c8 ∷ 0xbf597fc7
    ∷ 0xc6e00bf3 ∷ 0xd5a79147 ∷ 0x06ca6351 ∷ 0x14292967 ∷ 0x27b70a85 ∷ 0x2e1b2138 ∷ 0x4d2c6dfc
    ∷ 0x53380d13 ∷ 0x650a7354 ∷ 0x766a0abb ∷ 0x81c2c92e ∷ 0x92722c85 ∷ 0xa2bfe8a1 ∷ 0xa81a664b
    ∷ 0xc24b8b70 ∷ 0xc76c51a3 ∷ 0xd192e819 ∷ 0xd6990624 ∷ 0xf40e3585 ∷ 0x106aa070 ∷ 0x19a4c116
    ∷ 0x1e376c08 ∷ 0x2748774c ∷ 0x34b0bcb5 ∷ 0x391c0cb3 ∷ 0x4ed8aa4a ∷ 0x5b9cca4f ∷ 0x682e6ff3
    ∷ 0x748f82ee ∷ 0x78a5636f ∷ 0x84c87814 ∷ 0x8cc70208 ∷ 0x90befffa ∷ 0xa4506ceb ∷ 0xbef9a3f7
    ∷ 0xc67178f2 ∷ []

-- The eight words of the state.
pub record Words : Type 0 where
  pub a : ℕ
  pub b : ℕ
  pub c : ℕ
  pub d : ℕ
  pub e : ℕ
  pub f : ℕ
  pub g : ℕ
  pub h : ℕ

abbrev pub initial : Words
initial = record {
  a = 0x6a09e667;
  b = 0xbb67ae85;
  c = 0x3c6ef372;
  d = 0xa54ff53a;
  e = 0x510e527f;
  f = 0x9b05688c;
  g = 0x1f83d9ab;
  h = 0x5be0cd19;
}

abbrev pub wrapping_add : ℕ → ℕ → ℕ
wrapping_add x y = (x + y) % 2 ^ 32

abbrev pub rotate_right : ℕ → ℕ → ℕ
rotate_right x n = x / 2 ^ n + x % 2 ^ n * 2 ^ (32 - n)

-- `^`, of three words.
abbrev pub xor_words : ℕ → ℕ → ℕ → ℕ
xor_words x y z = bit_xor (bit_xor x y) z

-- `to_be_bytes` of `u32` and of `u64`.
abbrev pub be_bytes_32 : ℕ → List ℕ
be_bytes_32 x = (x / 2 ^ 24 % 256) ∷ (x / 2 ^ 16 % 256) ∷ (x / 256 % 256) ∷ (x % 256) ∷ []

abbrev pub be_bytes_64 : ℕ → List ℕ
be_bytes_64 x = be_bytes_32 (x / 2 ^ 32) ++ be_bytes_32 x

-- The loop that fills up to eight bytes before the end of a block, on fuel.
unfoldable pub fill : ℕ → List ℕ → List ℕ
fill zero msg = msg
fill (suc n) msg = let more = fill n (msg ++ 0 ∷ []) in if length msg % 64 == 56 then msg else more

unfoldable pub padded : List ℕ → List ℕ
unfolding fill
padded bytes = fill 64 (bytes ++ 0x80 ∷ []) ++ be_bytes_64 (length bytes * 8 % 2 ^ 64)

-- `from_be_bytes` on each four bytes.
abbrev pub be_words : List ℕ → List ℕ
be_words (p ∷ q ∷ r ∷ s ∷ rest) = (p * 2 ^ 24 + q * 2 ^ 16 + r * 256 + s) ∷ be_words rest
be_words _ = []

-- The schedule, its last word first, with as many words more.
unfoldable pub extend : ℕ → List ℕ → List ℕ
extend zero w = w
extend (suc n) w =
    let w15 = nth 14 w in
    let w2 = nth 1 w in
    let s0 = xor_words (rotate_right w15 7) (rotate_right w15 18) (w15 / 2 ^ 3) in
    let s1 = xor_words (rotate_right w2 17) (rotate_right w2 19) (w2 / 2 ^ 10) in
    extend n (wrapping_add (wrapping_add (wrapping_add (nth 15 w) s0) (nth 6 w)) s1 ∷ w)

-- One round, with its constant and its word of the schedule.
unfoldable pub turn : ℕ → ℕ → Words → Words
turn k w x =
    let s1 = xor_words (rotate_right x.e 6) (rotate_right x.e 11) (rotate_right x.e 25) in
    let ch = bit_xor (bit_and x.e x.f) (bit_and (2 ^ 32 - 1 - x.e) x.g) in
    let t1 = wrapping_add (wrapping_add (wrapping_add (wrapping_add x.h s1) ch) k) w in
    let s0 = xor_words (rotate_right x.a 2) (rotate_right x.a 13) (rotate_right x.a 22) in
    let maj = xor_words (bit_and x.a x.b) (bit_and x.a x.c) (bit_and x.b x.c) in
    let t2 = wrapping_add s0 maj in
    record {
      a = wrapping_add t1 t2;
      b = x.a;
      c = x.b;
      d = x.c;
      e = wrapping_add x.d t1;
      f = x.e;
      g = x.f;
      h = x.g;
    }

unfoldable pub turns : List ℕ → List ℕ → Words → Words
unfolding turn
turns (k ∷ ks) (w ∷ ws) x = turns ks ws (turn k w x)
turns _ _ x = x

abbrev pub add_words : Words → Words → Words
add_words x y = record {
  a = wrapping_add x.a y.a;
  b = wrapping_add x.b y.b;
  c = wrapping_add x.c y.c;
  d = wrapping_add x.d y.d;
  e = wrapping_add x.e y.e;
  f = wrapping_add x.f y.f;
  g = wrapping_add x.g y.g;
  h = wrapping_add x.h y.h;
}

unfoldable pub compress : List ℕ → Words → Words
unfolding extend turns
compress block x =
    add_words x (turns round_constants (reverse (extend 48 (reverse (be_words block)))) x)

abbrev pub take_bytes : ℕ → List ℕ → List ℕ
take_bytes zero s = []
take_bytes (suc n) [] = []
take_bytes (suc n) (b ∷ s) = b ∷ take_bytes n s

abbrev pub drop_bytes : ℕ → List ℕ → List ℕ
drop_bytes zero s = s
drop_bytes (suc n) [] = []
drop_bytes (suc n) (b ∷ s) = drop_bytes n s

-- The loop over the whole blocks, on fuel for one block each 64 bytes.
unfoldable pub compress_all : ℕ → List ℕ → Words → Words
unfolding compress
compress_all zero msg x = x
compress_all (suc n) msg x =
    let rest = compress_all n (drop_bytes 64 msg) (compress (take_bytes 64 msg) x) in
    if ltb (length msg) 64 then x else rest

unfoldable pub words_bytes : Words → List ℕ
words_bytes x =
    be_bytes_32 x.a
    ++ be_bytes_32 x.b
    ++ be_bytes_32 x.c
    ++ be_bytes_32 x.d
    ++ be_bytes_32 x.e
    ++ be_bytes_32 x.f
    ++ be_bytes_32 x.g
    ++ be_bytes_32 x.h

unfoldable pub sha256_bytes : List ℕ → List ℕ
unfolding padded compress_all words_bytes
sha256_bytes bytes =
    let msg = padded bytes in words_bytes (compress_all (length msg / 64 + 1) msg initial)

abbrev pub hex_digit : ℕ → ℕ
hex_digit n = if ltb n 10 then b'0' + n else b'a' + (n - 10)

abbrev pub hex_all : List ℕ → List ℕ
hex_all [] = []
hex_all (b ∷ bs) = hex_digit (b / 16) ∷ hex_digit (b % 16) ∷ hex_all bs

unfoldable pub sha256_hex : List ℕ → List ℕ
unfolding sha256_bytes
sha256_hex bytes = hex_all (sha256_bytes bytes)

abbrev pub zeros : ℕ → List ℕ
zeros zero = []
zeros (suc n) = 0 ∷ zeros n

-- The key, hashed where it is longer than a block, in a block of zeros.
unfoldable pub block_key : List ℕ → List ℕ
unfolding sha256_bytes
block_key secret =
    if ltb 64 (length secret)
    then sha256_bytes secret ++ zeros 32
    else secret ++ zeros (64 - length secret)

unfoldable pub hmac_sha256 : List ℕ → List ℕ → List ℕ
unfolding block_key sha256_bytes
hmac_sha256 secret message =
    let key = block_key secret in
    let inner = sha256_bytes (map (λ b. bit_xor b 0x36) key ++ message) in
    sha256_bytes (map (λ b. bit_xor b 0x5c) key ++ inner)

-- A strong ETag: the first 32 digits in quotes.
unfoldable pub compute_etag : List ℕ → List ℕ
unfolding sha256_hex
compute_etag bytes = b'"' ∷ take_bytes 32 (sha256_hex bytes) ++ b'"' ∷ []
