-- ===== src/WebSocket.antt =====
-- The WebSocket frames of daemon/src/websocket.rs, over bytes, and its hub of rooms in WebSocket/Hub.
pub mod Bits
pub mod Masks
pub mod Frames
pub mod Incremental
pub mod Hub
pub mod Rooms
mod Tests
use Prim.Native.Nat.{bit_xor}
use bridge_framework.Base.{
  ℕ, zero, suc, ◌+◌, ◌-◌, ◌*◌, ◌/◌, ◌%◌, ◌^◌, Bool, true, false, Option, none, some, List, [], ◌∷◌,
  ◌++◌, length, ltb, leb, ◌==◌, nat_eq, if◌then◌else◌, Result, ok, err, ◌>>=◌,
}

pub data Opcode : Type 0 where
  continuation text binary close ping pong : Opcode

-- `b & 0x0F` keeps the low four bits.
abbrev pub from_u8 : ℕ → Option Opcode
from_u8 b =
    let code = b % 16 in
    if code == 0
    then some continuation
    else if code == 1
    then some text
    else if code == 2
    then some binary
    else if code == 8
    then some close
    else if code == 9
    then some ping
    else if code == 10
    then some pong
    else none

abbrev pub as_u8 : Opcode → ℕ
as_u8 continuation = 0
as_u8 text = 1
as_u8 binary = 2
as_u8 close = 8
as_u8 ping = 9
as_u8 pong = 10

-- `to_be_bytes` of `u16` and of `u64`.
abbrev pub be_bytes_16 : ℕ → List ℕ
be_bytes_16 n = (n / 256 % 256) ∷ (n % 256) ∷ []

abbrev pub be_bytes_64 : ℕ → List ℕ
be_bytes_64 n =
    (n / 2 ^ 56 % 256)
    ∷ (n / 2 ^ 48 % 256)
    ∷ (n / 2 ^ 40 % 256)
    ∷ (n / 2 ^ 32 % 256)
    ∷ (n / 2 ^ 24 % 256)
    ∷ (n / 2 ^ 16 % 256)
    ∷ (n / 256 % 256)
    ∷ (n % 256)
    ∷ []

-- The bytes of a length: one, three or nine.
abbrev pub length_bytes : ℕ → List ℕ
length_bytes len =
    if ltb len 126
    then len ∷ []
    else if leb len 65535
    then 126 ∷ be_bytes_16 len
    else 127 ∷ be_bytes_64 len

-- `0x80 | opcode`: a code is below 0x80.
unfoldable pub encode_frame : Opcode → List ℕ → List ℕ
encode_frame opcode payload = (128 + as_u8 opcode) ∷ length_bytes (length payload) ++ payload

pub record Frame : Type 0 where
  pub opcode : Opcode
  pub payload : List ℕ

pub data DecodeError : Type 0 where
  need_more bad_opcode too_large : DecodeError

abbrev pub take : ℕ → List ℕ → List ℕ
take zero xs = []
take (suc n) [] = []
take (suc n) (x ∷ xs) = x ∷ take n xs

-- The loop that unmasks, with the four bytes of the mask in the order in which they come.
abbrev pub unmask : ℕ → ℕ → ℕ → ℕ → List ℕ → List ℕ
unmask a b c d [] = []
unmask a b c d (x ∷ xs) = bit_xor x a ∷ unmask b c d a xs

abbrev pub Decoded : Type 0
Decoded = Result DecodeError (Frame × ℕ)

-- The payload of a length behind `data_off` bytes.
abbrev pub body : Opcode → (List ℕ → List ℕ) → ℕ → ℕ → List ℕ → Decoded
body opcode plain len data_off bytes =
    if ltb (length bytes) len
    then err need_more
    else ok (record { opcode = opcode; payload = plain (take len bytes) }, data_off + len)

-- The mask, if there is one, and the payload behind `off` bytes.
abbrev pub masked_body : Opcode → ℕ → ℕ → List ℕ → Decoded
masked_body opcode len off (a ∷ b ∷ c ∷ d ∷ bytes) =
    body opcode (unmask a b c d) len (off + 4) bytes
masked_body opcode len off _ = err need_more

abbrev pub sized : Opcode → Bool → ℕ → ℕ → List ℕ → Decoded
sized opcode masked len off rest =
    if ltb (2 ^ 20) len
    then err too_large
    else if masked
    then masked_body opcode len off rest
    else body opcode (λ p. p) len off rest

abbrev pub short_length : Opcode → Bool → List ℕ → Decoded
short_length opcode masked (a ∷ b ∷ rest) = sized opcode masked (a * 256 + b) 4 rest
short_length opcode masked _ = err need_more

abbrev pub long_length : Opcode → Bool → List ℕ → Decoded
long_length opcode masked (a ∷ b ∷ c ∷ d ∷ e ∷ f ∷ g ∷ h ∷ rest) =
    sized opcode masked
      (a * 2 ^ 56 + b * 2 ^ 48 + c * 2 ^ 40 + d * 2 ^ 32 + e * 2 ^ 24 + f * 2 ^ 16 + g * 256 + h) 10
      rest
long_length opcode masked _ = err need_more

-- `b & 0x80 != 0` asks for the top bit, and `b & 0x7F` keeps the others.
abbrev pub decode_length : Opcode → ℕ → List ℕ → Decoded
decode_length opcode b rest =
    let masked = leb 128 b in
    let len7 = b % 128 in
    if len7 == 126
    then short_length opcode masked rest
    else if len7 == 127
    then long_length opcode masked rest
    else sized opcode masked len7 2 rest

unfoldable pub decode_frame : List ℕ → Decoded
decode_frame (a ∷ b ∷ rest) = elim (from_u8 a) [
  | none ↦ err bad_opcode
  | some opcode ↦ decode_length opcode b rest
]
decode_frame _ = err need_more
