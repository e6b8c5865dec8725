-- ===== src/Cli.antt =====
-- The command line of cli/src/main.rs: `build_command`, which makes the line for the daemon. What ends
-- the process, too few arguments or an unknown command, is `none`; `read_file`, which also ends it
-- where the file cannot be read, is an argument.
pub mod Meaning
pub mod Lines
pub mod Agrees
pub mod Auth
mod Tests
use bridge_framework.Base.{
  ℕ, Bool, true, false, ◌||◌, String, Option, none, some, List, [], ◌∷◌, ◌++◌, if◌then◌else◌,
  map_some, chars, string_eq, ◌==◌, Chars, space, join_words,
}
use bridge_framework.Protocol.{percent_encode}

-- `need` and `need_min`: more arguments than these are not refused.
abbrev pub need_one : (Chars → Chars) → List Chars → Option Chars
need_one f [] = none
need_one f (a ∷ rest) = some (f a)

abbrev pub need_two : (Chars → Chars → Chars) → List Chars → Option Chars
need_two f (a ∷ b ∷ rest) = some (f a b)
need_two f _ = none

abbrev pub first_or : Chars → List Chars → Chars
first_or d [] = d
first_or d (a ∷ rest) = a

-- `encode` of what the arguments are, joined.
abbrev pub encoded : List Chars → Chars
encoded args = percent_encode (join_words args)

abbrev pub need_file : (Chars → Option Chars) → Chars → List Chars → Option Chars
need_file read_file name [] = none
need_file read_file name (path ∷ rest) =
    map_some (λ s. name ++ space ∷ percent_encode s) (read_file path)

abbrev pub compile_line : List Chars → Option Chars
compile_line [] = none
compile_line (a ∷ rest) = some (chars "COMPILE " ++ encoded (a ∷ rest))

abbrev pub auth_line : List Chars → Option Chars
auth_line [] = none
auth_line (a ∷ rest) = some (chars "AUTH SET " ++ join_words (a ∷ rest))

abbrev pub put_line : List Chars → Option Chars
put_line (ns ∷ key ∷ v ∷ rest) =
    some (chars "DB PUT " ++ (ns ++ space ∷ (key ++ space ∷ encoded (v ∷ rest))))
put_line _ = none

abbrev pub set_line : List Chars → Option Chars
set_line (key ∷ v ∷ rest) = some (chars "REDIS SET " ++ (key ++ space ∷ encoded (v ∷ rest)))
set_line _ = none

abbrev pub list_line : List Chars → Option Chars
list_line [] = some (chars "TRACE LIST")
list_line (limit ∷ rest) = some (chars "TRACE LIST" ++ space ∷ limit)

abbrev pub raw_line : List Chars → Option Chars
raw_line [] = none
raw_line (a ∷ rest) = some (join_words (a ∷ rest))

-- The arms of `build_command`; `other` is what a command means that is none of them.
unfoldable pub build_core :
    (Chars → Option Chars) → String → List Chars → Option Chars → Option Chars
unfolding percent_encode
build_core read_file cmd rest other =
    if cmd == "ping"
    then some (chars "PING")
    else if cmd == "version"
    then some (chars "VERSION")
    else if cmd == "health"
    then some (chars "HEALTH")
    else if cmd == "help"
    then some (chars "HELP")
    else if cmd == "stop"
    then some (chars "STOP")
    else if cmd == "mode-get"
    then some (chars "MODE GET")
    else if cmd == "mode-set"
    then need_one (λ a. chars "MODE SET " ++ a) rest
    else if cmd == "compile"
    then compile_line rest
    else if cmd == "compile-file"
    then need_file read_file (chars "COMPILE") rest
    else if cmd == "services"
    then some (chars "SERVICES LIST")
    else if cmd == "routes"
    then some (chars "ROUTES LIST")
    else if cmd == "auth-status"
    then some (chars "AUTH STATUS")
    else if cmd == "auth-set"
    then auth_line rest
    else if cmd == "auth-clear"
    then some (chars "AUTH CLEAR")
    else other

unfoldable pub build_db : (Chars → Option Chars) → String → List Chars → Option Chars → Option Chars
unfolding percent_encode
build_db read_file cmd rest other =
    if cmd == "db-put"
    then put_line rest
    else if cmd == "db-get"
    then need_two (λ a b. chars "DB GET " ++ (a ++ space ∷ b)) rest
    else if cmd == "db-del"
    then need_two (λ a b. chars "DB DEL " ++ (a ++ space ∷ b)) rest
    else if cmd == "db-keys"
    then need_one (λ a. chars "DB KEYS " ++ a) rest
    else if cmd == "db-flush"
    then need_one (λ a. chars "DB FLUSH " ++ a) rest
    else other

unfoldable pub build_pg : (Chars → Option Chars) → String → List Chars → Option Chars → Option Chars
unfolding percent_encode
build_pg read_file cmd rest other =
    if cmd == "pg-create" || cmd == "db-create"
    then need_one (λ a. chars "PG CREATE " ++ a) rest
    else if cmd == "pg-status" || cmd == "db-status"
    then some (chars "PG STATUS")
    else if cmd == "pg-migrate" || cmd == "db-migrate"
    then need_file read_file (chars "PG MIGRATE") rest
    else if cmd == "pg-destroy" || cmd == "db-destroy"
    then need_one (λ a. chars "PG DESTROY " ++ a) rest
    else other

unfoldable pub build_redis :
    (Chars → Option Chars) → String → List Chars → Option Chars → Option Chars
unfolding percent_encode
build_redis read_file cmd rest other =
    if cmd == "redis-status"
    then some (chars "REDIS STATUS")
    else if cmd == "redis-ping"
    then some (chars "REDIS PING")
    else if cmd == "redis-flush"
    then some (chars "REDIS FLUSH")
    else if cmd == "redis-get"
    then need_one (λ a. chars "REDIS GET " ++ a) rest
    else if cmd == "redis-set"
    then set_line rest
    else if cmd == "redis-del"
    then need_one (λ a. chars "REDIS DEL " ++ a) rest
    else if cmd == "redis-keys"
    then some (chars "REDIS KEYS " ++ first_or (chars "*") rest)
    else other

unfoldable pub build_trace :
    (Chars → Option Chars) → String → List Chars → Option Chars → Option Chars
unfolding percent_encode
build_trace read_file cmd rest other =
    if cmd == "trace-list"
    then list_line rest
    else if cmd == "trace-get"
    then need_one (λ a. chars "TRACE GET " ++ a) rest
    else if cmd == "trace-clear"
    then some (chars "TRACE CLEAR")
    else if cmd == "trace-export"
    then some (chars "TRACE EXPORT " ++ first_or (chars "json") rest)
    else if cmd == "metrics"
    then some (chars "METRICS LIST")
    else if cmd == "metrics-clear"
    then some (chars "METRICS CLEAR")
    else if cmd == "raw"
    then raw_line rest
    else other

unfoldable pub build_command : (Chars → Option Chars) → String → List Chars → Option Chars
unfolding build_core build_db build_pg build_redis build_trace
build_command read_file cmd rest = build_core read_file cmd rest (
    build_db read_file cmd rest (
      build_pg read_file cmd rest
        (build_redis read_file cmd rest (build_trace read_file cmd rest none))))
