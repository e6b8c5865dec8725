-- ===== src/Protocol/Tests.antt =====
-- Runs of the percent encoding.
use bridge_framework.Base.{◌%◌, ◌≡◌, refl, ok, err, [], ◌∷◌, map, chars}
use bridge_framework.Protocol.{
  percent_encode, percent_decode, parse_scheme, api_key, bearer, missing_argument, empty_command,
  incomplete_encoding, invalid_hex,
}
use bridge_framework.Protocol.Encoding
use bridge_framework.Protocol.Command
use bridge_framework.Protocol.Parser.{parse_command}
use bridge_framework.Protocol.Spellings.{db_put}

program : Unit {0}
unfolding percent_encode percent_decode parse_scheme
program = tt

encode_run :
    (percent_encode (chars "a/b é") ≡ chars "a%2Fb%20%E9")
    × (percent_decode (chars "%+5") ≡ ok (5 ∷ []))
    × (percent_decode (chars "%zz") ≡ err invalid_hex)
    × (percent_decode (chars "ab%4") ≡ err incomplete_encoding)
    × (parse_scheme (chars " ApiKey ") ≡ ok api_key)
unfolding program
encode_run = (refl, refl, refl, refl, refl)

-- U+4E2D comes back as a hyphen.
lossy_run : percent_decode (percent_encode (0x4e2d ∷ [])) ≡ ok (chars "-")
unfolding program
lossy_run = refl

decode-encode_example :
    percent_decode (percent_encode (chars "a/b")) ≡ ok (map (λ c. c % 256) (chars "a/b"))
decode-encode_example = Encoding.decode-encode (chars "a/b")

parse_run :
    (parse_command (chars "  db   put app k %41%20b ")
      ≡ ok (Command.db_put (chars "app") (chars "k") (chars "A b")))
    × (parse_command (chars "AUTH-SET api_key t") ≡ ok (Command.auth_set api_key (chars "t")))
    × (parse_command (chars "auth set api_key t")
        ≡ ok (Command.auth_set bearer (chars "api_key t")))
    × (parse_command (chars "compile file") ≡ err (missing_argument "COMPILE FILE requires path"))
    × (parse_command (chars "redis-setex k +7 v")
        ≡ ok (Command.redis_setex (chars "k") 7 (chars "v")))
    × (parse_command (chars " ") ≡ err empty_command)
unfolding parse_command
parse_run = (refl, refl, refl, refl, refl, refl)
