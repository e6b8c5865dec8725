-- ===== src/Cli/Agrees.antt =====
-- The daemon reads the line of a command as what the command asks for.
use bridge_framework.Base.{
  ◌≡◌, refl, ap, String, Option, some, List, ◌∷◌, ◌++◌, chars, nat_eq, list_eq, ok, map_some,
  string_eq, Chars, IsWord, join_words, space,
}
use bridge_framework.Protocol.{mode_as_str, percent_encode}
use bridge_framework.Protocol.Command.{
  Command, db_del, db_flush, db_get, db_keys, pg_create, pg_destroy, redis_del, redis_get,
  redis_keys, trace_get,
}
use bridge_framework.Protocol.Parser.{parse_words, parse_command}
use bridge_framework.Cli.{build_command, encoded}
use bridge_framework.Cli.Meaning.{
  Bare, Named, Asks, bare_ping, bare_version, bare_health, bare_help, bare_stop, bare_get_mode,
  bare_services_list, bare_routes_list, bare_auth_status, bare_auth_clear, bare_pg_status,
  bare_redis_status, bare_redis_ping, bare_redis_flush, bare_trace_clear, bare_metrics_list,
  bare_metrics_clear, named_db_keys, named_db_flush, named_pg_create, named_pg_destroy,
  named_redis_get, named_redis_del, named_redis_keys, named_trace_get, asks_bare, asks_named,
  asks_mode, asks_compile, asks_migrate, asks_db_get, asks_db_del, asks_db_put, asks_redis_set,
}
use bridge_framework.Cli.Lines.{
  name-line, mode-line, pair-line, put-line, set-line, migrate-line, compile-line,
}

-- What the theorem says of one command.
abbrev pub IsRead : (Chars → Option Chars) → String → List Chars → Command → Type 0
IsRead read_file cmd rest c =
    (line : Chars) × (build_command read_file cmd rest ≡ some line) × (parse_command line ≡ ok c)

Bare-IsRead :
    (read_file : Chars → Option Chars) {cmd line : String} {c : Command} (rest : List Chars)
    → Bare cmd line c
    → IsRead read_file cmd rest c
unfolding build_command parse_command
Bare-IsRead read_file rest bare_ping = (chars "PING", refl, refl)
Bare-IsRead read_file rest bare_version = (chars "VERSION", refl, refl)
Bare-IsRead read_file rest bare_health = (chars "HEALTH", refl, refl)
Bare-IsRead read_file rest bare_help = (chars "HELP", refl, refl)
Bare-IsRead read_file rest bare_stop = (chars "STOP", refl, refl)
Bare-IsRead read_file rest bare_get_mode = (chars "MODE GET", refl, refl)
Bare-IsRead read_file rest bare_services_list = (chars "SERVICES LIST", refl, refl)
Bare-IsRead read_file rest bare_routes_list = (chars "ROUTES LIST", refl, refl)
Bare-IsRead read_file rest bare_auth_status = (chars "AUTH STATUS", refl, refl)
Bare-IsRead read_file rest bare_auth_clear = (chars "AUTH CLEAR", refl, refl)
Bare-IsRead read_file rest bare_pg_status = (chars "PG STATUS", refl, refl)
Bare-IsRead read_file rest bare_redis_status = (chars "REDIS STATUS", refl, refl)
Bare-IsRead read_file rest bare_redis_ping = (chars "REDIS PING", refl, refl)
Bare-IsRead read_file rest bare_redis_flush = (chars "REDIS FLUSH", refl, refl)
Bare-IsRead read_file rest bare_trace_clear = (chars "TRACE CLEAR", refl, refl)
Bare-IsRead read_file rest bare_metrics_list = (chars "METRICS LIST", refl, refl)
Bare-IsRead read_file rest bare_metrics_clear = (chars "METRICS CLEAR", refl, refl)

Named-IsRead :
    (read_file : Chars → Option Chars) {cmd a b : String} {f : Chars → Command} (x : Chars)
    (rest : List Chars)
    → Named cmd a b f
    → IsWord x
    → IsRead read_file cmd (x ∷ rest) (f x)
unfolding build_command parse_words
Named-IsRead read_file x rest named_db_keys h = (
  chars "DB KEYS " ++ x,
  refl,
  name-line (chars "DB") (chars "KEYS") x (db_keys x) refl refl h refl,
)
Named-IsRead read_file x rest named_db_flush h = (
  chars "DB FLUSH " ++ x,
  refl,
  name-line (chars "DB") (chars "FLUSH") x (db_flush x) refl refl h refl,
)
Named-IsRead read_file x rest named_pg_create h = (
  chars "PG CREATE " ++ x,
  refl,
  name-line (chars "PG") (chars "CREATE") x (pg_create x) refl refl h refl,
)
Named-IsRead read_file x rest named_pg_destroy h = (
  chars "PG DESTROY " ++ x,
  refl,
  name-line (chars "PG") (chars "DESTROY") x (pg_destroy x) refl refl h refl,
)
Named-IsRead read_file x rest named_redis_get h = (
  chars "REDIS GET " ++ x,
  refl,
  name-line (chars "REDIS") (chars "GET") x (redis_get x) refl refl h refl,
)
Named-IsRead read_file x rest named_redis_del h = (
  chars "REDIS DEL " ++ x,
  refl,
  name-line (chars "REDIS") (chars "DEL") x (redis_del x) refl refl h refl,
)
Named-IsRead read_file x rest named_redis_keys h = (
  chars "REDIS KEYS " ++ x,
  refl,
  name-line (chars "REDIS") (chars "KEYS") x (redis_keys x) refl refl h refl,
)
Named-IsRead read_file x rest named_trace_get h = (
  chars "TRACE GET " ++ x,
  refl,
  name-line (chars "TRACE") (chars "GET") x (trace_get x) refl refl h refl,
)

-- The line that is made for one of these commands is read by the daemon as just what it asks for: the
-- 17 commands without arguments of `Bare`; the eight on one name of `Named`; db-get and db-del;
-- mode-set with a mode; db-put and redis-set with a value, and compile with a source whose encoding
-- is not the word FILE in any case, where the text has only characters below U+0100; and pg-migrate
-- with a file that can be read and has only such characters. Names and keys are single words that are
-- not empty. Nothing is said of any other command.
pub parse_command-build_command :
    (read_file : Chars → Option Chars) (cmd : String) (rest : List Chars) (c : Command)
    → Asks read_file cmd rest c
    → (line : Chars) × (build_command read_file cmd rest ≡ some line) × (parse_command line ≡ ok c)
unfolding build_command parse_words
parse_command-build_command read_file _ rest _ (asks_bare _ bare) = Bare-IsRead read_file rest bare
parse_command-build_command read_file _ _ _ (asks_named x rest named hx) =
    Named-IsRead read_file x rest named hx
parse_command-build_command read_file _ _ _ (asks_mode m rest) =
    (chars "MODE SET " ++ chars (mode_as_str m), refl, mode-line m)
parse_command-build_command read_file _ _ _ (asks_compile v rest latin other) =
    (chars "COMPILE " ++ encoded (v ∷ rest), refl, compile-line (join_words (v ∷ rest)) latin other)
parse_command-build_command read_file _ _ _ (asks_migrate path sql rest there latin) = (
  chars "PG MIGRATE " ++ percent_encode sql,
  ap (map_some (λ s. chars "PG MIGRATE " ++ percent_encode s)) there,
  migrate-line sql latin,
)
parse_command-build_command read_file _ _ _ (asks_db_get ns key rest hns hkey) = (
  chars "DB GET " ++ (ns ++ space ∷ key),
  refl,
  pair-line (chars "DB") (chars "GET") ns key (db_get ns key) refl refl hns hkey refl,
)
parse_command-build_command read_file _ _ _ (asks_db_del ns key rest hns hkey) = (
  chars "DB DEL " ++ (ns ++ space ∷ key),
  refl,
  pair-line (chars "DB") (chars "DEL") ns key (db_del ns key) refl refl hns hkey refl,
)
parse_command-build_command read_file _ _ _ (asks_db_put ns key v rest hns hkey latin) = (
  chars "DB PUT " ++ (ns ++ space ∷ (key ++ space ∷ encoded (v ∷ rest))),
  refl,
  put-line ns key (join_words (v ∷ rest)) hns hkey latin,
)
parse_command-build_command read_file _ _ _ (asks_redis_set key v rest hkey latin) = (
  chars "REDIS SET " ++ (key ++ space ∷ encoded (v ∷ rest)),
  refl,
  set-line key (join_words (v ∷ rest)) hkey latin,
)
