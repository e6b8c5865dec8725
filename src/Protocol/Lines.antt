-- ===== src/Protocol/Lines.antt =====
-- What a line means by its words, and what an encoded text is on a line.
use bridge_framework.Base.{
  ℕ, ◌<◌, ◌%◌, ◌/◌, ◌≡◌, refl, sym, ap, ◌∙◌, true, [], ◌∷◌, ◌++◌, map, is_empty, arith, Bool-cases,
  inl, inr, ok, All, nat_eq, Chars, IsSolid, trim_both, is_empty-nil, split_words, split_words-trim,
  split_words-cons, is_word, is_word-IsWord, space, join_words-split_words, as_bytes-ascii,
}
use bridge_framework.Protocol.{percent_encode, encode_char, hex_digit, is_unreserved}
use bridge_framework.Protocol.Encoding.{decode-encode}
use bridge_framework.Protocol.Command.{Command, decoded}
use bridge_framework.Protocol.Parser.{parse_words, parse_command}

-- A line means what its words mean, however it is spaced.
pub parse_command-split_words : (line : Chars) → parse_command line ≡ parse_words (split_words line)
unfolding parse_command parse_words split_words
parse_command-split_words line = elim (Bool-cases (is_empty (trim_both line))) [
  | inl blank ↦
      let no_words : split_words line ≡ [] =
        sym (split_words-trim line) ∙ ap split_words (is_empty-nil (trim_both line) blank) in
      rw (parse_command, blank, no_words) refl
  | inr some_left ↦ rw (parse_command, some_left) (ap parse_words (split_words-trim line))
]

-- Printable characters of ASCII, without the space.
abbrev pub IsGraphic : Chars → Type 0
IsGraphic = All (λ c. (32 < c) × (c < 0x7f))

IsGraphic-append : (s t : Chars) → IsGraphic s → IsGraphic t → IsGraphic (s ++ t)
IsGraphic-append [] t hs ht = ht
IsGraphic-append (c ∷ s) t hs ht = (hs.0, IsGraphic-append s t hs.1 ht)

hex_digit-graphic : (d : ℕ) → d < 16 → (32 < hex_digit d) × (hex_digit d < 0x7f)
hex_digit-graphic d h = (ground arith, ground arith)

encode_char-IsGraphic : (c : ℕ) → IsGraphic (encode_char c)
encode_char-IsGraphic c = elim (Bool-cases (is_unreserved c)) [
  | inl plain ↦
      let bounds : (32 < c) × (c < 0x7f) = (ground arith, ground arith) in
      rw (encode_char, plain) (bounds, tt)
  | inr reserved ↦
      rw (encode_char, reserved)
        (
          (ground arith, ground arith),
          (
            hex_digit-graphic (c % 256 / 16) (omega arith),
            (hex_digit-graphic (c % 256 % 16) (omega arith), tt),
          ),
        )
]

percent_encode-IsGraphic : (s : Chars) → IsGraphic (percent_encode s)
unfolding percent_encode
percent_encode-IsGraphic [] = tt
percent_encode-IsGraphic (c ∷ s) =
    IsGraphic-append (encode_char c) (percent_encode s) (encode_char-IsGraphic c)
      (percent_encode-IsGraphic s)

pub IsGraphic-IsSolid : (s : Chars) → IsGraphic s → IsSolid s
IsGraphic-IsSolid [] graphic = tt
IsGraphic-IsSolid (c ∷ s) graphic = (ground arith, IsGraphic-IsSolid s graphic.1)

IsGraphic-ascii : (s : Chars) → IsGraphic s → All (λ c. c < 0x80) s
IsGraphic-ascii [] graphic = tt
IsGraphic-ascii (c ∷ s) graphic = (omega arith, IsGraphic-ascii s graphic.1)

pub percent_encode-IsSolid : (s : Chars) → IsSolid (percent_encode s)
percent_encode-IsSolid s = IsGraphic-IsSolid (percent_encode s) (percent_encode-IsGraphic s)

pub percent_encode-ascii : (s : Chars) → All (λ c. c < 0x80) (percent_encode s)
percent_encode-ascii s = IsGraphic-ascii (percent_encode s) (percent_encode-IsGraphic s)

-- A text whose characters have codes of one byte.
abbrev pub IsLatin : Chars → Type 0
IsLatin = All (λ c. c < 256)

map-IsLatin : (s : Chars) → IsLatin s → map (λ c. c % 256) s ≡ s
map-IsLatin [] latin = refl
map-IsLatin (c ∷ s) latin =
    let same : c % 256 ≡ c = omega arith in rw (same, map-IsLatin s latin.1) refl

-- What is left of a line that ends with an encoded text.
pub decoded-encode :
    (f : Chars → Command) (s : Chars)
    → IsLatin s
    → decoded f (split_words (percent_encode s)) ≡ ok (f s)
decoded-encode f s latin =
    rw
      (
        join_words-split_words (percent_encode s) (percent_encode-IsSolid s),
        as_bytes-ascii (percent_encode s) (percent_encode-ascii s),
        decode-encode s,
        map-IsLatin s latin,
      )
      refl

-- A line that begins with two words.
pub two_words-line :
    (a b s : Chars)
    → is_word a ≡ true
    → is_word b ≡ true
    → parse_command (a ++ space ∷ (b ++ space ∷ s)) ≡ parse_words (a ∷ b ∷ split_words s)
two_words-line a b s ha hb =
    parse_command-split_words (a ++ space ∷ (b ++ space ∷ s))
    ∙ ap parse_words (
        split_words-cons a (b ++ space ∷ s) (is_word-IsWord a ha)
        ∙ ap (◌∷◌ a) (split_words-cons b s (is_word-IsWord b hb)))
