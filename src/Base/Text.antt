-- ===== src/Base/Text.antt =====
-- The text operations of the standard library that the program uses, over the characters of a text.
use Prim.Native.Char.{Char, code}
use Prim.Native.String.{String}
use mathlib.Core.Bool.{Bool, true, false, not, ◌||◌, ◌&&◌}
use mathlib.Core.List.{List, [], ◌∷◌, map}
use Prim.Native.Nat.{ℕ, ◌+◌}
use bridge_framework.Base.Lists.{filterb}
use bridge_framework.Base.Tests.{leb, nat_eqb, if◌then◌else◌}

-- `char::is_whitespace`: the characters with the property White_Space.
abbrev pub is_whitespace : ℕ → Bool
is_whitespace c =
    (leb 9 c && leb c 13)
    || nat_eqb c 32
    || nat_eqb c 0x85
    || nat_eqb c 0xa0
    || nat_eqb c 0x1680
    || (leb 0x2000 c && leb c 0x200a)
    || nat_eqb c 0x2028
    || nat_eqb c 0x2029
    || nat_eqb c 0x202f
    || nat_eqb c 0x205f
    || nat_eqb c 0x3000

unfoldable pub trim_start : String → String
trim_start String.[] = String.[]
trim_start (String.◌∷◌ c s) =
    let rest = trim_start s in if is_whitespace (code c) then rest else String.◌∷◌ c s

unfoldable pub reverse_onto : String → String → String
reverse_onto String.[] t = t
reverse_onto (String.◌∷◌ c s) t = reverse_onto s (String.◌∷◌ c t)

unfoldable pub trim_end : String → String
unfolding reverse_onto trim_start
trim_end s = reverse_onto (trim_start (reverse_onto s String.[])) String.[]

unfoldable pub trim : String → String
unfolding trim_end trim_start
trim s = trim_end (trim_start s)

abbrev pub is_empty_text : String → Bool
is_empty_text String.[] = true
is_empty_text (String.◌∷◌ c s) = false

abbrev cons_head : Char → List String → List String
cons_head c [] = []
cons_head c (s ∷ parts) = String.◌∷◌ c s ∷ parts

-- `split` at each character with the code.
unfoldable pub split : ℕ → String → List String
split sep String.[] = String.[] ∷ []
split sep (String.◌∷◌ c s) =
    let parts = split sep s in if nat_eqb (code c) sep then String.[] ∷ parts else cons_head c parts

split_where : (ℕ → Bool) → String → List String
split_where is_sep String.[] = String.[] ∷ []
split_where is_sep (String.◌∷◌ c s) =
    let parts = split_where is_sep s in
    if is_sep (code c) then String.[] ∷ parts else cons_head c parts

-- `split_whitespace`: the parts between runs of white space.
unfoldable pub split_whitespace : String → List String
unfolding split_where
split_whitespace s = filterb (λ part. not (is_empty_text part)) (split_where is_whitespace s)

-- `chars`: the code points of a text.
abbrev pub chars : String → List ℕ
chars String.[] = []
chars (String.◌∷◌ c s) = code c ∷ chars s

-- `to_lowercase`, as far as it makes letters of ASCII: of all characters only these and the Kelvin
-- sign have a lower case within ASCII.
abbrev pub lower : ℕ → ℕ
lower c = if leb b'A' c && leb c b'Z' then c + 32 else if nat_eqb c 0x212a then b'k' else c

abbrev pub to_lowercase : String → List ℕ
to_lowercase s = map lower (chars s)
