-- ===== src/Cli/Meaning.antt =====
-- What a command of the command line asks of the daemon.
use bridge_framework.Base.{
  ◌≡◌, false, String, Option, some, List, ◌∷◌, chars, ◌==◌, nat_eq, list_eq, string_eq, Chars,
  IsWord, join_words, to_uppercase,
}
use bridge_framework.Protocol.{DaemonMode, mode_as_str, percent_encode}
use bridge_framework.Protocol.Command.{
  Command, set_mode, compile, db_put, pg_migrate, redis_set, auth_clear, auth_status, db_del,
  db_flush, db_get, db_keys, get_mode, health, help, metrics_clear, metrics_list, pg_create,
  pg_destroy, pg_status, ping, redis_del, redis_flush, redis_get, redis_keys, redis_ping,
  redis_status, routes_list, services_list, stop, trace_clear, trace_get, version,
}
use bridge_framework.Protocol.Lines.{IsLatin}

-- A command without arguments, its line, and what it asks for.
pub data Bare : String → String → Command → Type 0 where
  bare_ping : Bare "ping" "PING" ping
  bare_version : Bare "version" "VERSION" version
  bare_health : Bare "health" "HEALTH" health
  bare_help : Bare "help" "HELP" help
  bare_stop : Bare "stop" "STOP" stop
  bare_get_mode : Bare "mode-get" "MODE GET" get_mode
  bare_services_list : Bare "services" "SERVICES LIST" services_list
  bare_routes_list : Bare "routes" "ROUTES LIST" routes_list
  bare_auth_status : Bare "auth-status" "AUTH STATUS" auth_status
  bare_auth_clear : Bare "auth-clear" "AUTH CLEAR" auth_clear
  bare_pg_status : Bare "pg-status" "PG STATUS" pg_status
  bare_redis_status : Bare "redis-status" "REDIS STATUS" redis_status
  bare_redis_ping : Bare "redis-ping" "REDIS PING" redis_ping
  bare_redis_flush : Bare "redis-flush" "REDIS FLUSH" redis_flush
  bare_trace_clear : Bare "trace-clear" "TRACE CLEAR" trace_clear
  bare_metrics_list : Bare "metrics" "METRICS LIST" metrics_list
  bare_metrics_clear : Bare "metrics-clear" "METRICS CLEAR" metrics_clear

-- A command on one name, the two words of its line, and what it asks for.
pub data Named : String → String → String → (Chars → Command) → Type 0 where
  named_db_keys : Named "db-keys" "DB" "KEYS" db_keys
  named_db_flush : Named "db-flush" "DB" "FLUSH" db_flush
  named_pg_create : Named "pg-create" "PG" "CREATE" pg_create
  named_pg_destroy : Named "pg-destroy" "PG" "DESTROY" pg_destroy
  named_redis_get : Named "redis-get" "REDIS" "GET" redis_get
  named_redis_del : Named "redis-del" "REDIS" "DEL" redis_del
  named_redis_keys : Named "redis-keys" "REDIS" "KEYS" redis_keys
  named_trace_get : Named "trace-get" "TRACE" "GET" trace_get

-- The command that the user means. Names and keys are words; what is stored, compiled or run is any
-- text of characters below U+0100; a command ignores further arguments.
pub data Asks (read_file : Chars → Option Chars) : String → List Chars → Command → Type 0 where
  asks_bare :
      {cmd line : String} {c : Command} (rest : List Chars)
      → Bare cmd line c
      → Asks read_file cmd rest c
  asks_named :
      {cmd a b : String} {f : Chars → Command} (x : Chars) (rest : List Chars)
      → Named cmd a b f
      → IsWord x
      → Asks read_file cmd (x ∷ rest) (f x)
  asks_mode :
      (m : DaemonMode) (rest : List Chars)
      → Asks read_file "mode-set" (chars (mode_as_str m) ∷ rest) (set_mode m)
  asks_compile :
      (v : Chars) (rest : List Chars)
      → IsLatin (join_words (v ∷ rest))
      → (to_uppercase (percent_encode (join_words (v ∷ rest))) == chars "FILE") ≡ false
      → Asks read_file "compile" (v ∷ rest) (compile (join_words (v ∷ rest)))
  asks_migrate :
      (path sql : Chars) (rest : List Chars)
      → read_file path ≡ some sql
      → IsLatin sql
      → Asks read_file "pg-migrate" (path ∷ rest) (pg_migrate sql)
  asks_db_get :
      (ns key : Chars) (rest : List Chars)
      → IsWord ns
      → IsWord key
      → Asks read_file "db-get" (ns ∷ key ∷ rest) (db_get ns key)
  asks_db_del :
      (ns key : Chars) (rest : List Chars)
      → IsWord ns
      → IsWord key
      → Asks read_file "db-del" (ns ∷ key ∷ rest) (db_del ns key)
  asks_db_put :
      (ns key v : Chars) (rest : List Chars)
      → IsWord ns
      → IsWord key
      → IsLatin (join_words (v ∷ rest))
      → Asks read_file "db-put" (ns ∷ key ∷ v ∷ rest) (db_put ns key (join_words (v ∷ rest)))
  asks_redis_set :
      (key v : Chars) (rest : List Chars)
      → IsWord key
      → IsLatin (join_words (v ∷ rest))
      → Asks read_file "redis-set" (key ∷ v ∷ rest) (redis_set key (join_words (v ∷ rest)))
