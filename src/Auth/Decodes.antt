-- ===== src/Auth/Decodes.antt =====
-- What base64url encodes it decodes.
use bridge_framework.Base.{
  both, ℕ, ◌+◌, ◌*◌, ◌/◌, ◌%◌, ◌^◌, ◌<◌, ◌≡◌, refl, ap, ◌∙◌, true, false, List, [], ◌∷◌, ltb, All,
  All-imp, not, ◌&&◌, arith, Result, ok, err, ◌==◌, nat_eq, Chars, as_bytes, as_bytes-ascii, nth,
  all_below, all_below-passes, Bool, is_empty, ==_iff,
}
use bridge_framework.Digest.Width.{IsBytes}
use bridge_framework.Auth.Base64.{
  AuthError, alphabet, base64url_encode, base64url_decode, symbol, val, chunk_value, decode_chunks,
  trim_end_of, three_bytes,
}

-- A character of the alphabet is ASCII and no mark of the formats around it.
abbrev pub is_symbol : ℕ → Bool
is_symbol c = ltb c 0x80 && not (c == b'=') && not (c == b'.') && ltb b' ' c

abbrev is_ok_with : ℕ → Result AuthError ℕ → Bool
is_ok_with i (ok v) = v == i
is_ok_with i (err e) = false

is_ok_with-ok : (i : ℕ) (r : Result AuthError ℕ) → is_ok_with i r ≡ true → r ≡ ok i
is_ok_with-ok i (ok v) h = ap ok ((==_iff v i).0 h)
is_ok_with-ok i (err e) h = absurd (ground arith)

abbrev passes : ℕ → Bool
passes i = is_symbol (nth i alphabet) && is_ok_with i (val (nth i alphabet))

table : all_below 64 passes ≡ true
unfolding all_below val
table = refl

symbol-passes : (n : ℕ) → (is_symbol (symbol n) ≡ true) × (val (symbol n) ≡ ok (n % 64))
symbol-passes n =
    let i = n % 64 in
    let parts =
      both (is_symbol (nth i alphabet)) (is_ok_with i (val (nth i alphabet)))
        (all_below-passes 64 passes i table (omega arith)) in
    (parts.0, is_ok_with-ok i (val (nth i alphabet)) parts.1)

abbrev pub AllSymbols : Chars → Type 0
AllSymbols = All (λ c. is_symbol c ≡ true)

symbols-then : (i j : ℕ) (s : Chars) → AllSymbols s → AllSymbols (symbol i ∷ symbol j ∷ s)
symbols-then i j s h = ((symbol-passes i).0, ((symbol-passes j).0, h))

pub base64url_encode-AllSymbols : (s : List ℕ) → AllSymbols (base64url_encode s)
unfolding base64url_encode
base64url_encode-AllSymbols [] = tt
base64url_encode-AllSymbols (p ∷ []) =
    let n : ℕ = p * 2 ^ 16 in symbols-then (n / 2 ^ 18) (n / 2 ^ 12) [] tt
base64url_encode-AllSymbols (p ∷ q ∷ []) =
    let n : ℕ = p * 2 ^ 16 + q * 2 ^ 8 in
    symbols-then (n / 2 ^ 18) (n / 2 ^ 12) (symbol (n / 2 ^ 6) ∷ [])
      ((symbol-passes (n / 2 ^ 6)).0, tt)
base64url_encode-AllSymbols (p ∷ q ∷ r ∷ s) =
    let n : ℕ = p * 2 ^ 16 + q * 2 ^ 8 + r in
    symbols-then (n / 2 ^ 18) (n / 2 ^ 12) (symbol (n / 2 ^ 6) ∷ symbol n ∷ base64url_encode s)
      (symbols-then (n / 2 ^ 6) n (base64url_encode s) (base64url_encode-AllSymbols s))

trim_end_of-AllSymbols : (s : Chars) → AllSymbols s → trim_end_of b'=' s ≡ s
unfolding trim_end_of
trim_end_of-AllSymbols [] h = refl
trim_end_of-AllSymbols (c ∷ s) h =
    let kept : (is_empty s && c == b'=') ≡ false = ground arith in
    rw (trim_end_of, trim_end_of-AllSymbols s h.1, kept) refl

three_bytes-back :
    (p q r : ℕ) (s : List ℕ)
    → p < 256
    → q < 256
    → r < 256
    → let n : ℕ = p * 2 ^ 16 + q * 2 ^ 8 + r in
      let m : ℕ =
        (((0 + n / 2 ^ 18 % 64) * 64 + n / 2 ^ 12 % 64) * 64 + n / 2 ^ 6 % 64) * 64 + n % 64 in
      three_bytes m s ≡ p ∷ q ∷ r ∷ s
three_bytes-back p q r s hp hq hr =
    let n : ℕ = p * 2 ^ 16 + q * 2 ^ 8 + r in
    let m : ℕ =
      (((0 + n / 2 ^ 18 % 64) * 64 + n / 2 ^ 12 % 64) * 64 + n / 2 ^ 6 % 64) * 64 + n % 64 in
    let whole : m ≡ n = omega arith in
    let first : m / 2 ^ 16 % 256 ≡ p = rw whole (omega arith) in
    let second : m / 2 ^ 8 % 256 ≡ q = rw whole (omega arith) in
    let third : m % 256 ≡ r = rw whole (omega arith) in rw (first, second, third) refl

decode_chunks-encode : (s : List ℕ) → IsBytes s → decode_chunks (base64url_encode s) ≡ ok s
unfolding decode_chunks base64url_encode chunk_value
decode_chunks-encode [] h = refl
decode_chunks-encode (p ∷ []) h =
    rw ((symbol-passes (p * 2 ^ 16 / 2 ^ 18)).1, (symbol-passes (p * 2 ^ 16 / 2 ^ 12)).1)
      (ap (λ b. ok (b ∷ [])) (omega arith))
decode_chunks-encode (p ∷ q ∷ []) h =
    let n : ℕ = p * 2 ^ 16 + q * 2 ^ 8 in
    rw
      (
        (symbol-passes (n / 2 ^ 18)).1,
        (symbol-passes (n / 2 ^ 12)).1,
        (symbol-passes (n / 2 ^ 6)).1,
      )
      (ap (λ (b : ℕ × ℕ). ok (b.0 ∷ b.1 ∷ [])) (ground arith))
decode_chunks-encode (p ∷ q ∷ r ∷ s) h =
    let n : ℕ = p * 2 ^ 16 + q * 2 ^ 8 + r in
    rw
      (
        (symbol-passes (n / 2 ^ 18)).1,
        (symbol-passes (n / 2 ^ 12)).1,
        (symbol-passes (n / 2 ^ 6)).1,
        (symbol-passes n).1,
        decode_chunks-encode s h.1.1.1,
      )
      (ap ok (three_bytes-back p q r s h.0 h.1.0 h.1.1.0))

-- The bytes that were encoded are decoded again.
pub base64url_decode-encode :
    (s : List ℕ) → IsBytes s → base64url_decode (base64url_encode s) ≡ ok s
unfolding base64url_decode
base64url_decode-encode s h =
    let symbols = base64url_encode-AllSymbols s in
    ap (λ t. decode_chunks (as_bytes t)) (trim_end_of-AllSymbols (base64url_encode s) symbols)
    ∙ ap decode_chunks (
        as_bytes-ascii (base64url_encode s) (
          All-imp (λ c. is_symbol c ≡ true) (λ c. c < 0x80) (base64url_encode s)
            (λ c k. ground arith) symbols))
    ∙ decode_chunks-encode s h
