-- ===== src/WebSocket/Frames.antt =====
-- What is decoded from an encoded frame.
use mathlib.Core.List.{append_assoc}
use bridge_framework.Base.{
  ℕ, ◌+◌, ◌*◌, ◌/◌, ◌%◌, ◌^◌, ◌<◌, ◌≤◌, ◌≡◌, refl, sym, ap, ◌∙◌, Bool, true, false, some, List, [],
  ◌∷◌, ◌++◌, length, length-append, ltb, leb, ◌==◌, nat_eq, if◌then◌else◌, ok, err, arith,
  Bool-cases, inl, inr,
}
use bridge_framework.WebSocket.{
  Opcode, continuation, text, binary, close, ping, pong, from_u8, as_u8, be_bytes_16, be_bytes_64,
  length_bytes, encode_frame, decode_frame, decode_length, short_length, long_length, sized, body,
  masked_body, take, unmask, too_large,
}
use bridge_framework.WebSocket.Masks.{
  mask_byte, masked, IsBytes, mask_byte-around, mask_byte-lt, unmask-masked, length-masked,
}

from_u8-as_u8 : (o : Opcode) → from_u8 (128 + as_u8 o) ≡ some o
from_u8-as_u8 continuation = refl
from_u8-as_u8 text = refl
from_u8-as_u8 binary = refl
from_u8-as_u8 close = refl
from_u8-as_u8 ping = refl
from_u8-as_u8 pong = refl

-- The top bit of the first byte of a length says whether a mask follows.
abbrev pub marked : Bool → List ℕ → List ℕ
marked m [] = []
marked m (b ∷ bs) = (if m then b + 128 else b) ∷ bs

short-value : (n : ℕ) → n ≤ 65535 → n / 256 % 256 * 256 + n % 256 ≡ n
short-value n h = omega arith

long-value :
    (n : ℕ)
    → n < 2 ^ 64
    → n / 2 ^ 56 % 256 * 2 ^ 56
        + n / 2 ^ 48 % 256 * 2 ^ 48
        + n / 2 ^ 40 % 256 * 2 ^ 40
        + n / 2 ^ 32 % 256 * 2 ^ 32
        + n / 2 ^ 24 % 256 * 2 ^ 24
        + n / 2 ^ 16 % 256 * 2 ^ 16
        + n / 256 % 256 * 256
        + n % 256
      ≡ n
long-value n h = omega arith

-- A byte below 0x80 and its mark are told apart.
mark-top : (m : Bool) (b : ℕ) → b < 128 → leb 128 (if m then b + 128 else b) ≡ m
mark-top true b h = ground arith
mark-top false b h = ground arith

mark-rest : (m : Bool) (b : ℕ) → b < 128 → (if m then b + 128 else b) % 128 ≡ b
mark-rest true b h = omega arith
mark-rest false b h = omega arith

decode_frame-opcode :
    (o : Opcode) (b : ℕ) (rest : List ℕ)
    → decode_frame ((128 + as_u8 o) ∷ b ∷ rest) ≡ decode_length o b rest
unfolding decode_frame
decode_frame-opcode o b rest = rw (decode_frame, from_u8-as_u8 o) refl

decode_length-short :
    (o : Opcode) (m : Bool) (len : ℕ) (rest : List ℕ)
    → len < 126
    → decode_length o (if m then len + 128 else len) rest ≡ sized o m len 2 rest
decode_length-short o m len rest h =
    let not_126 : (len == 126) ≡ false = ground arith in
    let not_127 : (len == 127) ≡ false = ground arith in
    rw
      (decode_length, mark-top m len (omega arith), mark-rest m len (omega arith), not_126, not_127)
      refl

decode_length-126 :
    (o : Opcode) (m : Bool) (rest : List ℕ)
    → decode_length o (if m then 126 + 128 else 126) rest ≡ short_length o m rest
decode_length-126 o true rest = refl
decode_length-126 o false rest = refl

decode_length-127 :
    (o : Opcode) (m : Bool) (rest : List ℕ)
    → decode_length o (if m then 127 + 128 else 127) rest ≡ long_length o m rest
decode_length-127 o true rest = refl
decode_length-127 o false rest = refl

-- A header, marked or not, is decoded to its opcode and its length.
decode_frame-header :
    (o : Opcode) (m : Bool) (len : ℕ) (rest : List ℕ)
    → len < 2 ^ 64
    → decode_frame ((128 + as_u8 o) ∷ (marked m (length_bytes len) ++ rest))
      ≡ sized o m len (length (length_bytes len) + 1) rest
decode_frame-header o m len rest h = elim (Bool-cases (ltb len 126)) [
  | inl one ↦
      rw (length_bytes, one)
        (decode_frame-opcode o (if m then len + 128 else len) rest
          ∙ decode_length-short o m len rest (ground arith))
  | inr more ↦ elim (Bool-cases (leb len 65535)) [
    | inl three ↦
        rw (length_bytes, more, three)
          (decode_frame-opcode o (if m then 126 + 128 else 126) (be_bytes_16 len ++ rest)
            ∙ decode_length-126 o m (be_bytes_16 len ++ rest)
            ∙ ap (λ n. sized o m n 4 rest) (short-value len (ground arith)))
    | inr nine ↦
        rw (length_bytes, more, nine)
          (decode_frame-opcode o (if m then 127 + 128 else 127) (be_bytes_64 len ++ rest)
            ∙ decode_length-127 o m (be_bytes_64 len ++ rest)
            ∙ ap (λ n. sized o m n 10 rest) (long-value len h))
  ]
]

take-append : (xs ys : List ℕ) → take (length xs) (xs ++ ys) ≡ xs
take-append [] ys = refl
take-append (x ∷ xs) ys = ap (◌∷◌ x) (take-append xs ys)

sized-within :
    (o : Opcode) (m : Bool) (len off : ℕ) (rest : List ℕ)
    → len ≤ 2 ^ 20
    → sized o m len off rest
      ≡ (if m then masked_body o len off rest else body o (λ p. p) len off rest)
sized-within o m len off rest h =
    let allowed : ltb (2 ^ 20) len ≡ false = ground arith in rw (allowed) refl

body-append :
    (o : Opcode) (plain : List ℕ → List ℕ) (payload rest : List ℕ) (off : ℕ)
    → body o plain (length payload) off (payload ++ rest)
      ≡ ok (record { opcode = o; payload = plain payload }, off + length payload)
body-append o plain payload rest off =
    let enough : ltb (length (payload ++ rest)) (length payload) ≡ false =
      ground (arith, length-append payload rest) in
    rw (body, enough, take-append payload rest) refl

marked-false : (bs : List ℕ) → marked false bs ≡ bs
marked-false [] = refl
marked-false (b ∷ bs) = refl

length-marked : (m : Bool) (bs : List ℕ) → length (marked m bs) ≡ length bs
length-marked m [] = refl
length-marked m (b ∷ bs) = refl

-- An encoded frame as a header without a mark, the payload and what follows.
unmarked :
    (o : Opcode) (payload rest : List ℕ)
    → encode_frame o payload ++ rest
      ≡ (128 + as_u8 o) ∷ (marked false (length_bytes (length payload)) ++ (payload ++ rest))
unfolding encode_frame
unmarked o payload rest =
    let header = length_bytes (length payload) in
    ap (◌∷◌ (128 + as_u8 o)) (
      append_assoc header payload rest
      ∙ ap (λ bs. bs ++ (payload ++ rest)) (sym (marked-false header)))

-- A frame that was encoded is decoded to its opcode and its payload, whatever follows it, and exactly
-- its own bytes are used, for every payload of at most 2^20 bytes.
pub decode_frame-encode_frame :
    (o : Opcode) (payload rest : List ℕ)
    → length payload ≤ 2 ^ 20
    → decode_frame (encode_frame o payload ++ rest)
      ≡ ok (record { opcode = o; payload = payload }, length (encode_frame o payload))
unfolding encode_frame
decode_frame-encode_frame o payload rest h =
    let header = length_bytes (length payload) in
    ap decode_frame (unmarked o payload rest)
    ∙ decode_frame-header o false (length payload) (payload ++ rest) (omega arith)
    ∙ sized-within o false (length payload) (length header + 1) (payload ++ rest) h
    ∙ body-append o (λ p. p) payload rest (length header + 1)
    ∙ ap (λ k. ok (record { opcode = o; payload = payload }, k))
        (omega (arith, length-append header payload))

-- A frame whose payload is longer than 2^20 bytes is encoded but never decoded.
pub decode_frame-too_large :
    (o : Opcode) (payload rest : List ℕ)
    → 2 ^ 20 < length payload
    → length payload < 2 ^ 64
    → decode_frame (encode_frame o payload ++ rest) ≡ err too_large
unfolding encode_frame
decode_frame-too_large o payload rest h short =
    let header = length_bytes (length payload) in
    let refused : ltb (2 ^ 20) (length payload) ≡ true = ground arith in
    ap decode_frame (unmarked o payload rest)
    ∙ decode_frame-header o false (length payload) (payload ++ rest) short
    ∙ rw (sized, refused) refl

-- The frame that a client sends: its length marked, the mask behind it, and the payload masked.
abbrev pub client_frame : Opcode → ℕ → ℕ → ℕ → ℕ → List ℕ → List ℕ
client_frame o a b c d payload =
    (128 + as_u8 o)
    ∷ (marked true (length_bytes (length payload))
        ++ (a ∷ b ∷ c ∷ d ∷ masked (mask_byte a b c d) 0 payload))

-- A frame whose payload a client has combined with four bytes, byte `i` with byte `i % 4` of them, is
-- decoded to the payload before that, and exactly its own bytes are used, whatever follows. The
-- payload is of bytes, at most 2^20 of them.
pub decode_frame-client_frame :
    (o : Opcode) (a b c d : ℕ) (payload rest : List ℕ)
    → IsBytes (a ∷ b ∷ c ∷ d ∷ [])
    → IsBytes payload
    → length payload ≤ 2 ^ 20
    → decode_frame (client_frame o a b c d payload ++ rest)
      ≡ ok (record { opcode = o; payload = payload }, length (client_frame o a b c d payload))
decode_frame-client_frame o a b c d payload rest key h short =
    let header = length_bytes (length payload) in
    let hidden = masked (mask_byte a b c d) 0 payload in
    let total : length header + 1 + 4 + length hidden ≡ length (client_frame o a b c d payload) =
      omega (
        arith,
        length-append (marked true header) (a ∷ b ∷ c ∷ d ∷ hidden),
        length-marked true header,
      ) in
    ap (λ bs. decode_frame ((128 + as_u8 o) ∷ bs))
      (append_assoc (marked true header) (a ∷ b ∷ c ∷ d ∷ hidden) rest)
    ∙ decode_frame-header o true (length payload) (a ∷ b ∷ c ∷ d ∷ (hidden ++ rest)) (omega arith)
    ∙ sized-within o true (length payload) (length header + 1) (a ∷ b ∷ c ∷ d ∷ (hidden ++ rest))
        short
    ∙ ap (λ n. body o (unmask a b c d) n (length header + 1 + 4) (hidden ++ rest))
        (sym (length-masked (mask_byte a b c d) 0 payload))
    ∙ body-append o (unmask a b c d) hidden rest (length header + 1 + 4)
    ∙ ap (λ p. ok (record { opcode = o; payload = p }, length header + 1 + 4 + length hidden))
        (unmask-masked (mask_byte a b c d) 0 payload (mask_byte-around a b c d)
          (λ j. mask_byte-lt a b c d j key) h)
    ∙ ap (λ k. ok (record { opcode = o; payload = payload }, k)) total
