-- ===== src/WebSocket/Incremental.antt =====
-- Decoding a stream: more bytes change no answer but the one that asks for more.
use mathlib.Core.Path.{subst}
use mathlib.Core.List.{append-nil}
use bridge_framework.Base.{
  ℕ, zero, suc, ◌+◌, ◌*◌, ◌^◌, ◌%◌, ◌<◌, ◌≤◌, ◌≡◌, refl, sym, ap, ◌∙◌, Bool, true, false, none,
  some, List, [], ◌∷◌, ◌++◌, length, length-append, ltb, leb, ◌==◌, nat_eq, if◌then◌else◌, ok, err,
  arith, Bool-cases, Option-cases, inl, inr,
}
use bridge_framework.WebSocket.{
  Opcode, Decoded, from_u8, encode_frame, decode_frame, decode_length, short_length, long_length,
  sized, body, masked_body, take, unmask, need_more, bad_opcode, too_large,
}
use bridge_framework.WebSocket.Frames.{decode_frame-encode_frame}

abbrev pub is_settled : Decoded → Bool
is_settled (err need_more) = false
is_settled _ = true

abbrev pub used : Decoded → ℕ
used (ok (f, n)) = n
used (err e) = 0

-- An answer that is settled stays, and what it used has come.
abbrev Stays : ℕ → List ℕ → List ℕ → (List ℕ → Decoded) → Type 0
Stays off xs ys f = (f (xs ++ ys) ≡ f xs) × (used (f xs) ≤ off + length xs)

if-Stays :
    (off : ℕ) (xs ys : List ℕ) (b : Bool) (f g : List ℕ → Decoded)
    → is_settled (if b then f xs else g xs) ≡ true
    → (is_settled (f xs) ≡ true → Stays off xs ys f)
    → (is_settled (g xs) ≡ true → Stays off xs ys g)
    → Stays off xs ys (λ zs. if b then f zs else g zs)
if-Stays off xs ys true f g h hf hg = hf h
if-Stays off xs ys false f g h hf hg = hg h

take-append_le : (n : ℕ) (xs ys : List ℕ) → n ≤ length xs → take n (xs ++ ys) ≡ take n xs
take-append_le zero xs ys h = refl
take-append_le (suc n) [] ys h = absurd (omega arith)
take-append_le (suc n) (x ∷ xs) ys h = ap (◌∷◌ x) (take-append_le n xs ys (omega arith))

body-Stays :
    (o : Opcode) (plain : List ℕ → List ℕ) (len off : ℕ) (xs ys : List ℕ)
    → is_settled (body o plain len off xs) ≡ true
    → Stays off xs ys (body o plain len off)
body-Stays o plain len off xs ys h = elim (Bool-cases (ltb (length xs) len)) [
  | inl short ↦ absurd (ground arith)
  | inr enough ↦
      let still : ltb (length (xs ++ ys)) len ≡ false = ground (arith, length-append xs ys) in
      (
        rw (body, still, enough, take-append_le len xs ys (ground arith)) refl,
        rw (used, body, enough) (ground arith),
      )
]

masked_body-Stays :
    (o : Opcode) (len off : ℕ) (xs ys : List ℕ)
    → is_settled (masked_body o len off xs) ≡ true
    → Stays off xs ys (masked_body o len off)
masked_body-Stays o len off [] ys h = absurd (ground arith)
masked_body-Stays o len off (a ∷ []) ys h = absurd (ground arith)
masked_body-Stays o len off (a ∷ b ∷ []) ys h = absurd (ground arith)
masked_body-Stays o len off (a ∷ b ∷ c ∷ []) ys h = absurd (ground arith)
masked_body-Stays o len off (a ∷ b ∷ c ∷ d ∷ xs) ys h =
    let there = body-Stays o (unmask a b c d) len (off + 4) xs ys h in
    (there.0, omega (arith, there.1))

sized-Stays :
    (o : Opcode) (m : Bool) (len off : ℕ) (xs ys : List ℕ)
    → is_settled (sized o m len off xs) ≡ true
    → Stays off xs ys (sized o m len off)
sized-Stays o m len off xs ys h =
    if-Stays off xs ys (ltb (2 ^ 20) len) (λ zs. err too_large)
      (λ zs. if m then masked_body o len off zs else body o (λ p. p) len off zs) h
      (λ e. (refl, omega arith))
      (λ e.
        if-Stays off xs ys m (masked_body o len off) (body o (λ p. p) len off) e
          (masked_body-Stays o len off xs ys) (body-Stays o (λ p. p) len off xs ys))

short_length-Stays :
    (o : Opcode) (m : Bool) (xs ys : List ℕ)
    → is_settled (short_length o m xs) ≡ true
    → Stays 2 xs ys (short_length o m)
short_length-Stays o m [] ys h = absurd (ground arith)
short_length-Stays o m (a ∷ []) ys h = absurd (ground arith)
short_length-Stays o m (a ∷ b ∷ xs) ys h =
    let there = sized-Stays o m (a * 256 + b) 4 xs ys h in (there.0, omega (arith, there.1))

long_length-Stays :
    (o : Opcode) (m : Bool) (xs ys : List ℕ)
    → is_settled (long_length o m xs) ≡ true
    → Stays 2 xs ys (long_length o m)
long_length-Stays o m [] ys h = absurd (ground arith)
long_length-Stays o m (a ∷ []) ys h = absurd (ground arith)
long_length-Stays o m (a ∷ b ∷ []) ys h = absurd (ground arith)
long_length-Stays o m (a ∷ b ∷ c ∷ []) ys h = absurd (ground arith)
long_length-Stays o m (a ∷ b ∷ c ∷ d ∷ []) ys h = absurd (ground arith)
long_length-Stays o m (a ∷ b ∷ c ∷ d ∷ e ∷ []) ys h = absurd (ground arith)
long_length-Stays o m (a ∷ b ∷ c ∷ d ∷ e ∷ f ∷ []) ys h = absurd (ground arith)
long_length-Stays o m (a ∷ b ∷ c ∷ d ∷ e ∷ f ∷ g ∷ []) ys h = absurd (ground arith)
long_length-Stays o m (a ∷ b ∷ c ∷ d ∷ e ∷ f ∷ g ∷ i ∷ xs) ys h =
    let there =
      sized-Stays o m
        (a * 2 ^ 56 + b * 2 ^ 48 + c * 2 ^ 40 + d * 2 ^ 32 + e * 2 ^ 24 + f * 2 ^ 16 + g * 256 + i)
        10 xs ys h in
    (there.0, omega (arith, there.1))

decode_length-Stays :
    (o : Opcode) (b : ℕ) (xs ys : List ℕ)
    → is_settled (decode_length o b xs) ≡ true
    → Stays 2 xs ys (decode_length o b)
decode_length-Stays o b xs ys h =
    let m = leb 128 b in
    if-Stays 2 xs ys (b % 128 == 126) (short_length o m)
      (λ zs. if b % 128 == 127 then long_length o m zs else sized o m (b % 128) 2 zs) h
      (short_length-Stays o m xs ys)
      (λ e.
        if-Stays 2 xs ys (b % 128 == 127) (long_length o m) (sized o m (b % 128) 2) e
          (long_length-Stays o m xs ys) (sized-Stays o m (b % 128) 2 xs ys))

decode_frame-good :
    (a b : ℕ) (rest : List ℕ) (o : Opcode)
    → from_u8 a ≡ some o
    → decode_frame (a ∷ b ∷ rest) ≡ decode_length o b rest
unfolding decode_frame
decode_frame-good a b rest o good = rw (decode_frame, good) refl

decode_frame-bad :
    (a b : ℕ) (rest : List ℕ) → from_u8 a ≡ none → decode_frame (a ∷ b ∷ rest) ≡ err bad_opcode
unfolding decode_frame
decode_frame-bad a b rest bad = rw (decode_frame, bad) refl

decode_frame-Stays :
    (a b : ℕ) (xs ys : List ℕ)
    → is_settled (decode_frame (a ∷ b ∷ xs)) ≡ true
    → Stays 2 xs ys (λ zs. decode_frame (a ∷ b ∷ zs))
decode_frame-Stays a b xs ys h = elim (Option-cases (from_u8 a)) [
  | inl bad ↦
      let refused = decode_frame-bad a b xs bad in
      (
        decode_frame-bad a b (xs ++ ys) bad ∙ sym refused,
        subst (λ r. used r ≤ 2 + length xs) (sym refused) (omega arith),
      )
  | inr (o, good) ↦
      let read = decode_frame-good a b xs o good in
      let there = decode_length-Stays o b xs ys (sym (ap is_settled read) ∙ h) in
      (
        decode_frame-good a b (xs ++ ys) o good ∙ there.0 ∙ sym read,
        subst (λ r. used r ≤ 2 + length xs) (sym read) there.1,
      )
]

-- Whatever bytes come after a frame, or after bytes that are refused, the answer is the same.
pub decode_frame-append :
    (xs ys : List ℕ)
    → is_settled (decode_frame xs) ≡ true
    → (decode_frame (xs ++ ys) ≡ decode_frame xs) × (used (decode_frame xs) ≤ length xs)
unfolding decode_frame
decode_frame-append [] ys h = absurd (ground arith)
decode_frame-append (a ∷ []) ys h = absurd (ground arith)
decode_frame-append (a ∷ b ∷ xs) ys h =
    let there = decode_frame-Stays a b xs ys h in (there.0, omega (arith, there.1))

unsettled : (r : Decoded) → is_settled r ≡ false → r ≡ err need_more
unsettled (ok f) h = absurd (ground arith)
unsettled (err need_more) h = refl
unsettled (err bad_opcode) h = absurd (ground arith)
unsettled (err too_large) h = absurd (ground arith)

-- As long as the last byte of an encoded frame has not come, the answer is that more bytes are
-- needed: no part of a frame is refused or taken for a frame. The payload has at most 2^20 bytes.
pub decode_frame-prefix :
    (o : Opcode) (payload xs ys : List ℕ)
    → length payload ≤ 2 ^ 20
    → encode_frame o payload ≡ xs ++ ys
    → length xs < length (encode_frame o payload)
    → decode_frame xs ≡ err need_more
decode_frame-prefix o payload xs ys h whole part =
    elim (Bool-cases (is_settled (decode_frame xs))) [
      | inl settled ↦
          let there = decode_frame-append xs ys settled in
          let read =
            sym there.0
            ∙ ap decode_frame (sym whole ∙ sym (append-nil (encode_frame o payload)))
            ∙ decode_frame-encode_frame o payload [] h in
          absurd (omega (arith, there.1, ap used read))
      | inr waits ↦ unsettled (decode_frame xs) waits
    ]
