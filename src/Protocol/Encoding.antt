-- ===== src/Protocol/Encoding.antt =====
-- What decoding makes of what was encoded.
use bridge_framework.Base.{
  ℕ, ◌/◌, ◌%◌, ◌<◌, ◌≤◌, ◌≡◌, refl, ap, true, false, some, List, [], ◌∷◌, ◌++◌, map, arith,
  Bool-cases, inl, inr, ◌==◌, nat_eq, ok,
}
use bridge_framework.Protocol.{
  percent_encode, percent_decode, encode_char, decode_byte, hex_digit, hex_value, is_unreserved,
  is_utf8_pair, prepend,
}

hex_value-digit : (d : ℕ) → d < 16 → hex_value (hex_digit d) ≡ some d
hex_value-digit d h = ground arith

hex_digit-bounds : (d : ℕ) → d < 16 → (b'0' ≤ hex_digit d) × (hex_digit d < 0x80)
hex_digit-bounds d h = ground arith

decode_byte-digits :
    (v : ℕ) → v < 256 → decode_byte (hex_digit (v / 16)) (hex_digit (v % 16)) ≡ ok v
decode_byte-digits v h =
    let high = hex_digit-bounds (v / 16) (omega arith) in
    let low = hex_digit-bounds (v % 16) (omega arith) in
    let pair : is_utf8_pair (hex_digit (v / 16)) (hex_digit (v % 16)) ≡ true = ground arith in
    let unsigned : (hex_digit (v / 16) == b'+') ≡ false = ground arith in
    rw
      (
        pair,
        unsigned,
        hex_value-digit (v / 16) (omega arith),
        hex_value-digit (v % 16) (omega arith),
      )
      (ap ok (omega arith))

decode-cons :
    (c : ℕ) (s : List ℕ)
    → (c == b'%') ≡ false
    → percent_decode (c ∷ s) ≡ prepend c (percent_decode s)
unfolding percent_decode
decode-cons c [] h = rw (h, percent_decode) refl
decode-cons c (a ∷ []) h = rw (h, percent_decode) refl
decode-cons c (a ∷ b ∷ s) h = rw (h, percent_decode) refl

decode-encode_char :
    (c : ℕ) (s : List ℕ)
    → percent_decode (encode_char c ++ s) ≡ prepend (c % 256) (percent_decode s)
unfolding percent_decode
decode-encode_char c s = elim (Bool-cases (is_unreserved c)) [
  | inl plain ↦
      let same : c % 256 ≡ c = ground arith in
      let other : (c == b'%') ≡ false = ground arith in rw (plain, same) (decode-cons c s other)
  | inr reserved ↦ rw (reserved, percent_decode, decode_byte-digits (c % 256) (omega arith)) refl
]

-- What was encoded is decoded, for every text, to the text whose characters have the low eight bits
-- of its code points.
pub decode-encode : (s : List ℕ) → percent_decode (percent_encode s) ≡ ok (map (λ c. c % 256) s)
unfolding percent_encode percent_decode
decode-encode [] = refl
decode-encode (c ∷ s) = rw (decode-encode_char c (percent_encode s), decode-encode s) refl
