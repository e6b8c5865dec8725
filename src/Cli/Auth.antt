-- ===== src/Cli/Auth.antt =====
-- What the daemon reads in the lines of auth-set.
use bridge_framework.Base.{
  ◌≡◌, refl, sym, ap, ◌∙◌, Bool, true, false, Option, some, List, [], ◌∷◌, ◌++◌, chars, nat_eq,
  list_eq, Result, ok, err, ◌>>=◌, ◌≢◌, arith, unwrap_or, as_bytes, string_eq, Chars, join_words,
  split_words,
}
use bridge_framework.Protocol.{Error, bearer, api_key, percent_decode}
use bridge_framework.Protocol.Command.{Parsed, decoded, auth_set}
use bridge_framework.Protocol.Parser.{parse_words, parse_command}
use bridge_framework.Protocol.Lines.{two_words-line}
use bridge_framework.Cli.{build_command}

-- What the daemon reads in a line of auth-set.
auth-line :
    (s : Chars) → parse_command (chars "AUTH SET " ++ s) ≡ decoded (auth_set bearer) (split_words s)
unfolding parse_words
auth-line s = two_words-line (chars "AUTH") (chars "SET") s refl refl

is_api_key : Parsed → Bool
is_api_key (ok (auth_set api_key t)) = true
is_api_key _ = false

bearer-only : (r : Result Error Chars) → is_api_key (r >>= (λ v. ok (auth_set bearer v))) ≡ false
unfolding is_api_key
bearer-only (ok v) = refl
bearer-only (err e) = refl

decoded-bearer : (parts : List Chars) → is_api_key (decoded (auth_set bearer) parts) ≡ false
decoded-bearer parts = bearer-only (percent_decode (as_bytes (join_words parts)))

-- Whatever the arguments of auth-set, the name of the scheme among them, the daemon never reads its
-- line as a token of the scheme of API keys.
pub parse_command-auth_set_bearer :
    (read_file : Chars → Option Chars) (rest : List Chars) (line t : Chars)
    → build_command read_file "auth-set" rest ≡ some line
    → parse_command line ≢ ok (auth_set api_key t)
unfolding build_command is_api_key
parse_command-auth_set_bearer read_file [] line t built read = ground arith
parse_command-auth_set_bearer read_file (a ∷ rest) line t built read =
    let same : chars "AUTH SET " ++ join_words (a ∷ rest) ≡ line = ap (unwrap_or []) built in
    let as_token = sym (auth-line (join_words (a ∷ rest))) ∙ ap parse_command same ∙ read in
    absurd (
      ground (
        arith,
        sym (decoded-bearer (split_words (join_words (a ∷ rest)))) ∙ ap is_api_key as_token,
      ))
