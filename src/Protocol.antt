-- ===== src/Protocol.antt =====
-- The words and the percent encoding of protocol/src/lib.rs. A text is the list of its code points,
-- and of its bytes where the source asks for them.
pub mod Words
pub mod Encoding
pub mod Command
pub mod Spaced
pub mod Hyphenated
pub mod Parser
pub mod Lines
pub mod Spellings
mod Tests
use bridge_framework.Base.{
  ℕ, ◌+◌, ◌-◌, ◌*◌, ◌/◌, ◌%◌, Bool, true, false, ◌&&◌, ◌||◌, String, Option, none, some, List, [],
  ◌∷◌, ◌++◌, if◌then◌else◌, ltb, leb, chars, map, lower, Chars, trim_both, trim_front, trim_back,
  ◌==◌, nat_eq, list_eq, Result, ok, err, ◌>>=◌,
}

pub data DaemonMode : Type 0 where
  lite full ultra off : DaemonMode

pub data AuthScheme : Type 0 where
  bearer api_key : AuthScheme

pub data ExportFormat : Type 0 where
  json csv text : ExportFormat

pub data LogLevel : Type 0 where
  debug info warn error : LogLevel

pub data MetricKind : Type 0 where
  counter gauge histogram : MetricKind

-- The first seven are a message each, without the word or the digits that it repeats. A missing
-- argument has its message, an invalid number of seconds and an unknown command the word that the
-- message repeats.
pub data Error : Type 0 where
  unknown_mode unknown_auth_scheme unknown_format : Error
  incomplete_encoding invalid_encoding invalid_hex : Error
  empty_command : Error
  missing_argument : String → Error
  invalid_seconds unknown_command : Chars → Error

unfoldable pub mode_as_str : DaemonMode → String
mode_as_str lite = "lite"
mode_as_str full = "full"
mode_as_str ultra = "ultra"
mode_as_str off = "off"

unfoldable pub parse_mode : Chars → Result Error DaemonMode
unfolding trim_back trim_front
parse_mode s =
    let word = map lower (trim_both s) in
    if word == chars "lite"
    then ok lite
    else if word == chars "full"
    then ok full
    else if word == chars "ultra"
    then ok ultra
    else if word == chars "off"
    then ok off
    else err unknown_mode

unfoldable pub level_as_str : LogLevel → String
level_as_str debug = "DEBUG"
level_as_str info = "INFO"
level_as_str warn = "WARN"
level_as_str error = "ERROR"

unfoldable pub kind_as_str : MetricKind → String
kind_as_str counter = "counter"
kind_as_str gauge = "gauge"
kind_as_str histogram = "histogram"

unfoldable pub scheme_as_str : AuthScheme → String
scheme_as_str bearer = "bearer"
scheme_as_str api_key = "api_key"

unfoldable pub parse_scheme : Chars → Result Error AuthScheme
unfolding trim_back trim_front
parse_scheme s =
    let word = map lower (trim_both s) in
    if word == chars "bearer"
    then ok bearer
    else if word == chars "api_key" || word == chars "apikey"
    then ok api_key
    else err unknown_auth_scheme

unfoldable pub format_as_str : ExportFormat → String
format_as_str json = "json"
format_as_str csv = "csv"
format_as_str text = "text"

unfoldable pub parse_format : Chars → Result Error ExportFormat
unfolding trim_back trim_front
parse_format s =
    let word = map lower (trim_both s) in
    if word == chars "json"
    then ok json
    else if word == chars "csv"
    then ok csv
    else if word == chars "text" || word == chars "txt"
    then ok text
    else err unknown_format

abbrev pub is_between : ℕ → ℕ → ℕ → Bool
is_between first last c = leb first c && leb c last

abbrev pub is_unreserved : ℕ → Bool
is_unreserved c =
    is_between b'A' b'Z' c
    || is_between b'a' b'z' c
    || is_between b'0' b'9' c
    || c == b'-'
    || c == b'_'
    || c == b'.'
    || c == b'~'

-- `{:02X}` of a byte.
abbrev pub hex_digit : ℕ → ℕ
hex_digit d = if ltb d 10 then b'0' + d else d - 10 + b'A'

-- One character; `as u8` keeps the low eight bits of its code point.
abbrev pub encode_char : ℕ → List ℕ
encode_char c =
    if is_unreserved c
    then c ∷ []
    else b'%' ∷ hex_digit (c % 256 / 16) ∷ hex_digit (c % 256 % 16) ∷ []

unfoldable pub percent_encode : List ℕ → List ℕ
percent_encode [] = []
percent_encode (c ∷ s) = encode_char c ++ percent_encode s

abbrev pub hex_value : ℕ → Option ℕ
hex_value c =
    if is_between b'0' b'9' c
    then some (c - b'0')
    else if is_between b'A' b'F' c
    then some (c - b'A' + 10)
    else if is_between b'a' b'f' c
    then some (c - b'a' + 10)
    else none

-- `u8::from_str_radix(…, 16)` of the standard library on a text of two bytes: two digits, or one
-- after a `+`.
abbrev pub hex_byte : ℕ → ℕ → Option ℕ
hex_byte a b = if a == b'+' then hex_value b else (elim (hex_value a) [
  | none ↦ none
  | some high ↦ elim (hex_value b) [ none ↦ none | some low ↦ some (high * 16 + low) ]
])

-- `from_utf8` on two bytes: two characters of ASCII, or one of two bytes.
abbrev pub is_utf8_pair : ℕ → ℕ → Bool
is_utf8_pair a b = (ltb a 0x80 && ltb b 0x80) || (is_between 0xc2 0xdf a && is_between 0x80 0xbf b)

abbrev pub decode_byte : ℕ → ℕ → Result Error ℕ
decode_byte a b =
    if is_utf8_pair a b
    then (elim (hex_byte a b) [ none ↦ err invalid_hex | some v ↦ ok v ])
    else err invalid_encoding

abbrev pub prepend : ℕ → Result Error (List ℕ) → Result Error (List ℕ)
prepend c r = r >>= (λ s. ok (c ∷ s))

-- The loop over the bytes of a text, which yields characters.
unfoldable pub percent_decode : List ℕ → Result Error (List ℕ)
percent_decode [] = ok []
percent_decode (c ∷ []) = if c == b'%' then err incomplete_encoding else ok (c ∷ [])
percent_decode (c ∷ a ∷ []) =
    let next = percent_decode (a ∷ []) in
    if c == b'%' then err incomplete_encoding else prepend c next
percent_decode (c ∷ a ∷ b ∷ s) =
    let after = percent_decode s in
    let next = percent_decode (a ∷ b ∷ s) in
    if c == b'%' then decode_byte a b >>= (λ v. prepend v after) else prepend c next
