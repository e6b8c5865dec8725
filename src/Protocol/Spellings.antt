-- ===== src/Protocol/Spellings.antt =====
-- The two spellings of a command, with a space and with a hyphen, are accepted alike.
use bridge_framework.Base.{String, Result, ok, err, Option, some, none}

-- The commands that have both spellings, AUTH SET left out, whose spellings differ in meaning.
pub data Spelled : String → String → String → Type 0 where
  mode_get : Spelled "MODE" "GET" "MODE-GET"
  mode_set : Spelled "MODE" "SET" "MODE-SET"
  compile_file : Spelled "COMPILE" "FILE" "COMPILE-FILE"
  db_put : Spelled "DB" "PUT" "DB-PUT"
  db_get : Spelled "DB" "GET" "DB-GET"
  db_del : Spelled "DB" "DEL" "DB-DEL"
  db_keys : Spelled "DB" "KEYS" "DB-KEYS"
  db_flush : Spelled "DB" "FLUSH" "DB-FLUSH"
  pg_create : Spelled "PG" "CREATE" "PG-CREATE"
  pg_status : Spelled "PG" "STATUS" "PG-STATUS"
  pg_migrate : Spelled "PG" "MIGRATE" "PG-MIGRATE"
  pg_destroy : Spelled "PG" "DESTROY" "PG-DESTROY"
  redis_status : Spelled "REDIS" "STATUS" "REDIS-STATUS"
  redis_ping : Spelled "REDIS" "PING" "REDIS-PING"
  redis_get : Spelled "REDIS" "GET" "REDIS-GET"
  redis_set : Spelled "REDIS" "SET" "REDIS-SET"
  redis_del : Spelled "REDIS" "DEL" "REDIS-DEL"
  redis_keys : Spelled "REDIS" "KEYS" "REDIS-KEYS"
  redis_ttl : Spelled "REDIS" "TTL" "REDIS-TTL"
  redis_expire : Spelled "REDIS" "EXPIRE" "REDIS-EXPIRE"
  redis_flush : Spelled "REDIS" "FLUSH" "REDIS-FLUSH"
  auth_status : Spelled "AUTH" "STATUS" "AUTH-STATUS"
  auth_clear : Spelled "AUTH" "CLEAR" "AUTH-CLEAR"
  trace_list : Spelled "TRACE" "LIST" "TRACE-LIST"
  trace_get : Spelled "TRACE" "GET" "TRACE-GET"
  trace_clear : Spelled "TRACE" "CLEAR" "TRACE-CLEAR"
  trace_export : Spelled "TRACE" "EXPORT" "TRACE-EXPORT"
  metrics_list : Spelled "METRICS" "LIST" "METRICS-LIST"
  metrics_get : Spelled "METRICS" "GET" "METRICS-GET"
  metrics_clear : Spelled "METRICS" "CLEAR" "METRICS-CLEAR"
  metrics_export : Spelled "METRICS" "EXPORT" "METRICS-EXPORT"

-- What was read, if anything: the message of a refusal is left out.
abbrev pub accepted {ℓ κ} : {E : Type ℓ} {A : Type κ} → Result E A → Option A
accepted (ok a) = some a
accepted (err e) = none
