-- ===== src/Base/Words.antt =====
-- Texts as lists of code points, and the words of a line.
use Prim.Native.Nat.{ℕ, ◌<◌, ◌+◌, ◌-◌, ◌*◌, ◌/◌, ◌%◌}
use mathlib.Core.Path.{subst, ◌≡◌, refl, sym, ap, ◌∙◌}
use mathlib.Core.Bool.{Bool, true, false, not, ◌&&◌}
use mathlib.Core.Logic.{inl, inr}
use mathlib.Core.List.{append-nil, List, [], ◌∷◌, ◌++◌}
use mathlib.Core.Option.{Option, none, some}
use native.Mathlib.Omega.{arith}
use bridge_framework.Base.Tests.{leb, ltb, nat_eqb, if◌then◌else◌, keep_if, Bool-cases}
use bridge_framework.Base.Lists.{is_empty, All}
use bridge_framework.Base.Text.{is_whitespace}

abbrev pub Chars : Type 0
Chars = List ℕ

abbrev pub space : ℕ
space = b' '

unfoldable pub trim_front : Chars → Chars
trim_front [] = []
trim_front (c ∷ s) = let rest = trim_front s in if is_whitespace c then rest else c ∷ s

unfoldable pub trim_back : Chars → Chars
trim_back [] = []
trim_back (c ∷ s) =
    let rest = trim_back s in if is_empty rest && is_whitespace c then [] else c ∷ rest

-- `trim`
abbrev pub trim_both : Chars → Chars
trim_both s = trim_back (trim_front s)

abbrev pub add_word : Chars → List Chars → List Chars
add_word [] ws = ws
add_word (c ∷ w) ws = (c ∷ w) ∷ ws

-- What stands before the first white space, and the words behind it.
unfoldable pub first_word : Chars → Chars × List Chars
first_word [] = ([], [])
first_word (c ∷ s) =
    let rest = first_word s in
    if is_whitespace c then ([], add_word rest.0 rest.1) else (c ∷ rest.0, rest.1)

-- `split_whitespace`
unfoldable pub split_words : Chars → List Chars
unfolding first_word
split_words s = let r = first_word s in add_word r.0 r.1

-- `join(" ")`
abbrev pub join_words : List Chars → Chars
join_words [] = []
join_words (w ∷ []) = w
join_words (w ∷ v ∷ ws) = w ++ space ∷ join_words (v ∷ ws)

-- `to_uppercase`, as far as it makes letters of ASCII: besides the small letters these are the
-- dotless i, the long and the sharp s, and the Latin ligatures.
abbrev pub upper_char : ℕ → Chars
upper_char c =
    if leb b'a' c && leb c b'z'
    then (c - 32) ∷ []
    else if nat_eqb c 0x131
    then b'I' ∷ []
    else if nat_eqb c 0x17f
    then b'S' ∷ []
    else if nat_eqb c 0xdf
    then b'S' ∷ b'S' ∷ []
    else if nat_eqb c 0xfb00
    then b'F' ∷ b'F' ∷ []
    else if nat_eqb c 0xfb01
    then b'F' ∷ b'I' ∷ []
    else if nat_eqb c 0xfb02
    then b'F' ∷ b'L' ∷ []
    else if nat_eqb c 0xfb03
    then b'F' ∷ b'F' ∷ b'I' ∷ []
    else if nat_eqb c 0xfb04
    then b'F' ∷ b'F' ∷ b'L' ∷ []
    else if leb 0xfb05 c && leb c 0xfb06
    then b'S' ∷ b'T' ∷ []
    else c ∷ []

abbrev pub to_uppercase : Chars → Chars
to_uppercase [] = []
to_uppercase (c ∷ s) = upper_char c ++ to_uppercase s

-- The bytes of a character and of a text, as `as_bytes` shows them.
abbrev pub utf8_char : ℕ → List ℕ
utf8_char c =
    if ltb c 0x80
    then c ∷ []
    else if ltb c 0x800
    then (0xc0 + c / 64) ∷ (0x80 + c % 64) ∷ []
    else if ltb c 0x10000
    then (0xe0 + c / 4096) ∷ (0x80 + c / 64 % 64) ∷ (0x80 + c % 64) ∷ []
    else (0xf0 + c / 262144) ∷ (0x80 + c / 4096 % 64) ∷ (0x80 + c / 64 % 64) ∷ (0x80 + c % 64) ∷ []

unfoldable pub as_bytes : Chars → List ℕ
as_bytes [] = []
as_bytes (c ∷ s) = utf8_char c ++ as_bytes s

abbrev pub digits_of : ℕ → Chars → Option ℕ
digits_of v [] = some v
digits_of v (c ∷ s) =
    let rest = digits_of (v * 10 + (c - 48)) s in if leb b'0' c && leb c b'9' then rest else none

-- `parse` of an unsigned type below `bound`.
unfoldable pub parse_number : ℕ → Chars → Option ℕ
parse_number bound [] = none
parse_number bound (c ∷ s) =
    keep_if (λ v. ltb v bound)
      (if nat_eqb c b'+' && not (is_empty s) then digits_of 0 s else digits_of 0 (c ∷ s))

-- A word: characters, none of them white space.
abbrev pub IsSolid : Chars → Type 0
IsSolid = All (λ c. is_whitespace c ≡ false)

abbrev pub IsWord : Chars → Type 0
IsWord w = (is_empty w ≡ false) × IsSolid w

-- The tests of these.
abbrev pub is_solid : Chars → Bool
is_solid [] = true
is_solid (c ∷ s) = not (is_whitespace c) && is_solid s

both-pass : (a b : Bool) → (not a && b) ≡ true → (a ≡ false) × (b ≡ true)
both-pass true b h = absurd (ground arith)
both-pass false b h = (refl, h)

is_solid-IsSolid : (s : Chars) → is_solid s ≡ true → IsSolid s
is_solid-IsSolid [] h = tt
is_solid-IsSolid (c ∷ s) h =
    let parts = both-pass (is_whitespace c) (is_solid s) h in (parts.0, is_solid-IsSolid s parts.1)

abbrev pub is_word : Chars → Bool
is_word w = not (is_empty w) && is_solid w

pub is_word-IsWord : (w : Chars) → is_word w ≡ true → IsWord w
is_word-IsWord w h =
    let parts = both-pass (is_empty w) (is_solid w) h in (parts.0, is_solid-IsSolid w parts.1)

first_word-append :
    (w s : Chars) → IsSolid w → first_word (w ++ s) ≡ (w ++ (first_word s).0, (first_word s).1)
unfolding first_word
first_word-append [] s solid = refl
first_word-append (c ∷ w) s solid = rw (first_word, solid.0, first_word-append w s solid.1) refl

add_word-IsWord : (w : Chars) (ws : List Chars) → IsWord w → add_word w ws ≡ w ∷ ws
add_word-IsWord [] ws word = absurd (ground arith)
add_word-IsWord (c ∷ w) ws word = refl

split_words-trim_front : (s : Chars) → split_words (trim_front s) ≡ split_words s
unfolding split_words trim_front first_word
split_words-trim_front [] = refl
split_words-trim_front (c ∷ s) = elim (Bool-cases (is_whitespace c)) [
  | inl white ↦ rw (trim_front, split_words, first_word, white) (split_words-trim_front s)
  | inr solid ↦
      let stays : trim_front (c ∷ s) ≡ c ∷ s = rw (trim_front, solid) refl in ap split_words stays
]

pub is_empty-nil : (s : Chars) → is_empty s ≡ true → s ≡ []
is_empty-nil [] h = refl
is_empty-nil (c ∷ s) h = absurd (ground arith)

first_word-trim_back : (s : Chars) → first_word (trim_back s) ≡ first_word s
unfolding first_word trim_back
first_word-trim_back [] = refl
first_word-trim_back (c ∷ s) = elim (Bool-cases (is_whitespace c)) [
  | inl white ↦ elim (Bool-cases (is_empty (trim_back s))) [
    | inl blank ↦
        let none_left : first_word s ≡ ([], []) =
          sym (first_word-trim_back s) ∙ ap first_word (is_empty-nil (trim_back s) blank) in
        rw (trim_back, blank, white, first_word, none_left) refl
    | inr some_left ↦ rw (trim_back, some_left, first_word, white, first_word-trim_back s) refl
  ]
  | inr solid ↦ elim (Bool-cases (is_empty (trim_back s))) [
    | inl blank ↦ rw (trim_back, blank, solid, first_word, solid, first_word-trim_back s) refl
    | inr some_left ↦ rw (trim_back, some_left, first_word, solid, first_word-trim_back s) refl
  ]
]

-- The words of a trimmed text.
pub split_words-trim : (s : Chars) → split_words (trim_both s) ≡ split_words s
unfolding split_words
split_words-trim s =
    ap (λ r. add_word r.0 r.1) (first_word-trim_back (trim_front s)) ∙ split_words-trim_front s

-- A word before a space.
pub split_words-cons : (w s : Chars) → IsWord w → split_words (w ++ space ∷ s) ≡ w ∷ split_words s
unfolding split_words first_word
split_words-cons w s word =
    rw (split_words, first_word-append w (space ∷ s) word.1, append-nil w)
      (add_word-IsWord w (split_words s) word)

-- A word at the end.
pub split_words-IsWord : (w : Chars) → IsWord w → split_words w ≡ w ∷ []
unfolding split_words first_word
split_words-IsWord w word =
    subst (λ s. split_words s ≡ w ∷ []) (append-nil w)
      (rw (split_words, first_word-append w [] word.1, append-nil w) (add_word-IsWord w [] word))

-- What has no white space is the whole of its words.
pub join_words-split_words : (s : Chars) → IsSolid s → join_words (split_words s) ≡ s
unfolding split_words first_word
join_words-split_words [] solid = refl
join_words-split_words (c ∷ s) solid = ap join_words (split_words-IsWord (c ∷ s) (refl, solid))

-- The bytes of a text of ASCII.
pub as_bytes-ascii : (s : Chars) → All (λ c. c < 0x80) s → as_bytes s ≡ s
unfolding as_bytes
as_bytes-ascii [] small = refl
as_bytes-ascii (c ∷ s) small =
    let one_byte : ltb c 0x80 ≡ true = ground arith in rw (one_byte, as_bytes-ascii s small.1) refl
