-- ===== src/Protocol/Parser.antt =====
-- `parse_command` of protocol/src/lib.rs: the commands of two words, then those of one.
use bridge_framework.Base.{
  List, [], ◌∷◌, ◌++◌, if◌then◌else◌, is_empty, nat_eq, list_eq, err, Chars, space, trim_both,
  trim_front, trim_back, split_words, to_uppercase,
}
use bridge_framework.Protocol.{empty_command}
use bridge_framework.Protocol.Command.{Parsed}
use bridge_framework.Protocol.Spaced.{two_words}
use bridge_framework.Protocol.Hyphenated.{one_word}

-- A line by its words.
unfoldable pub parse_words : List Chars → Parsed
unfolding two_words one_word
parse_words [] = err empty_command
parse_words (cmd ∷ []) = one_word (to_uppercase cmd) []
parse_words (cmd ∷ second ∷ rest) =
    let upper = to_uppercase cmd in
    two_words (upper ++ space ∷ to_uppercase second) rest (one_word upper (second ∷ rest))

unfoldable pub parse_command : Chars → Parsed
unfolding parse_words split_words trim_front trim_back
parse_command line =
    let trimmed = trim_both line in
    if is_empty trimmed then err empty_command else parse_words (split_words trimmed)
