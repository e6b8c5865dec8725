-- ===== src/Cli/Tests.antt =====
-- The command line at concrete arguments.
use bridge_framework.Base.{
  ◌≡◌, ◌≢◌, refl, Option, none, some, [], ◌∷◌, chars, arith, ok, Chars, is_word-IsWord,
}
use bridge_framework.Protocol.{api_key}
use bridge_framework.Protocol.Command.{db_put, auth_set}
use bridge_framework.Protocol.Parser.{parse_command}
use bridge_framework.Protocol.Lines.{IsLatin}
use bridge_framework.Cli.{build_command}
use bridge_framework.Cli.Meaning.{asks_db_put}
use bridge_framework.Cli.Agrees.{parse_command-build_command}
use bridge_framework.Cli.Auth.{parse_command-auth_set_bearer}

abbrev no_files : Chars → Option Chars
no_files path = none

hi-IsLatin : IsLatin (chars "hi é")
hi-IsLatin = (omega arith, (omega arith, (omega arith, (omega arith, tt))))

parse_command-build_command_example :
    (line : Chars) × (build_command no_files "db-put"
        (chars "app" ∷ chars "k" ∷ chars "hi" ∷ chars "é" ∷ [])
      ≡ some line)
    × (parse_command line ≡ ok (db_put (chars "app") (chars "k") (chars "hi é")))
parse_command-build_command_example =
    parse_command-build_command no_files "db-put"
      (chars "app" ∷ chars "k" ∷ chars "hi" ∷ chars "é" ∷ [])
      (db_put (chars "app") (chars "k") (chars "hi é"))
      (asks_db_put (chars "app") (chars "k") (chars "hi") (chars "é" ∷ [])
        (is_word-IsWord (chars "app") refl) (is_word-IsWord (chars "k") refl) hi-IsLatin)

parse_command-auth_set_bearer_example :
    parse_command (chars "AUTH SET api_key s3cret") ≢ ok (auth_set api_key (chars "s3cret"))
unfolding build_command
parse_command-auth_set_bearer_example =
    parse_command-auth_set_bearer no_files (chars "api_key" ∷ chars "s3cret" ∷ [])
      (chars "AUTH SET api_key s3cret") (chars "s3cret") refl
