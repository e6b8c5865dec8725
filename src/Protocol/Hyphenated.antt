-- ===== src/Protocol/Hyphenated.antt =====
-- The commands of one word in `parse_command` of protocol/src/lib.rs; `other` is what the line means
-- where it is none of them.
use bridge_framework.Base.{
  List, if◌then◌else◌, chars, join_words, ◌==◌, nat_eq, list_eq, ok, err, ◌||◌, Chars, as_bytes,
  parse_number,
}
use bridge_framework.Protocol.{
  unknown_command, parse_mode, parse_scheme, parse_format, percent_decode,
}
use bridge_framework.Protocol.Command.{
  Parsed, next, one, two, decoded, first_or, format_of, mode_of, seconds, scheme_and_token, payload,
  no_filter, ping, help, stop, version, health, get_mode, compile, compile_file, services_list,
  routes_list, db_put, db_get, db_del, db_keys, db_flush, pg_create, pg_status, pg_migrate,
  pg_destroy, redis_status, redis_ping, redis_get, redis_set, redis_setex, redis_del, redis_keys,
  redis_ttl, redis_expire, redis_flush, auth_status, auth_clear, trace_get, trace_clear,
  trace_export, metrics_list, metrics_get, metrics_clear, metrics_export, pubsub_subscribe,
  pubsub_pull, pubsub_ack, pubsub_nack, pubsub_status, secret_set, secret_get, secret_delete,
  secret_list, secret_check, stream_list, stream_open, stream_close, stream_status,
}

unfoldable pub core_word : Chars → List Chars → Parsed → Parsed
core_word c parts other =
    if c == chars "PING"
    then ok ping
    else if c == chars "HELP"
    then ok help
    else if c == chars "STOP"
    then ok stop
    else if c == chars "VERSION"
    then ok version
    else if c == chars "HEALTH"
    then ok health
    else other

unfoldable pub mode_word : Chars → List Chars → Parsed → Parsed
unfolding percent_decode as_bytes parse_mode
mode_word c parts other =
    if c == chars "MODE-GET" || c == chars "GET-MODE"
    then ok get_mode
    else if c == chars "MODE-SET" || c == chars "SET-MODE"
    then mode_of "MODE-SET requires mode argument" parts
    else if c == chars "COMPILE"
    then decoded compile parts
    else if c == chars "COMPILE-FILE"
    then one "COMPILE-FILE requires path" compile_file parts
    else if c == chars "SERVICES"
    then ok services_list
    else if c == chars "ROUTES"
    then ok routes_list
    else other

unfoldable pub db_word : Chars → List Chars → Parsed → Parsed
unfolding percent_decode as_bytes
db_word c parts other =
    if c == chars "DB-PUT"
    then next "DB-PUT requires namespace"
        (λ ns. next "DB-PUT requires key" (λ key. decoded (db_put ns key))) parts
    else if c == chars "DB-GET"
    then two "DB-GET requires namespace" "DB-GET requires key" db_get parts
    else if c == chars "DB-DEL"
    then two "DB-DEL requires namespace" "DB-DEL requires key" db_del parts
    else if c == chars "DB-KEYS"
    then one "DB-KEYS requires namespace" db_keys parts
    else if c == chars "DB-FLUSH"
    then one "DB-FLUSH requires namespace" db_flush parts
    else other

unfoldable pub pg_word : Chars → List Chars → Parsed → Parsed
unfolding percent_decode as_bytes
pg_word c parts other =
    if c == chars "PG-CREATE"
    then one "PG-CREATE requires name" pg_create parts
    else if c == chars "PG-STATUS"
    then ok pg_status
    else if c == chars "PG-MIGRATE"
    then decoded pg_migrate parts
    else if c == chars "PG-DESTROY"
    then one "PG-DESTROY requires name" pg_destroy parts
    else other

unfoldable pub redis_word : Chars → List Chars → Parsed → Parsed
unfolding percent_decode as_bytes parse_number
redis_word c parts other =
    if c == chars "REDIS-STATUS"
    then ok redis_status
    else if c == chars "REDIS-PING"
    then ok redis_ping
    else if c == chars "REDIS-GET"
    then one "REDIS-GET requires key" redis_get parts
    else if c == chars "REDIS-SET"
    then next "REDIS-SET requires key" (λ key. decoded (redis_set key)) parts
    else if c == chars "REDIS-SETEX"
    then next "REDIS-SETEX requires key"
        (λ key. seconds "REDIS-SETEX requires seconds" (λ n. decoded (redis_setex key n))) parts
    else if c == chars "REDIS-DEL"
    then one "REDIS-DEL requires key" redis_del parts
    else if c == chars "REDIS-KEYS"
    then ok (redis_keys (first_or (chars "*") parts))
    else if c == chars "REDIS-TTL"
    then one "REDIS-TTL requires key" redis_ttl parts
    else if c == chars "REDIS-EXPIRE"
    then next "REDIS-EXPIRE requires key"
        (λ key. seconds "REDIS-EXPIRE requires seconds" (λ n rest. ok (redis_expire key n))) parts
    else if c == chars "REDIS-FLUSH"
    then ok redis_flush
    else other

unfoldable pub auth_word : Chars → List Chars → Parsed → Parsed
unfolding parse_scheme percent_decode as_bytes
auth_word c parts other =
    if c == chars "AUTH-STATUS"
    then ok auth_status
    else if c == chars "AUTH-SET"
    then scheme_and_token parts
    else if c == chars "AUTH-CLEAR"
    then ok auth_clear
    else other

unfoldable pub trace_word : Chars → List Chars → Parsed → Parsed
unfolding parse_format
trace_word c parts other =
    if c == chars "TRACE-LIST"
    then ok no_filter
    else if c == chars "TRACE-GET"
    then one "TRACE-GET requires trace ID" trace_get parts
    else if c == chars "TRACE-CLEAR"
    then ok trace_clear
    else if c == chars "TRACE-EXPORT"
    then format_of trace_export parts
    else other

unfoldable pub metrics_word : Chars → List Chars → Parsed → Parsed
unfolding parse_format
metrics_word c parts other =
    if c == chars "METRICS-LIST"
    then ok metrics_list
    else if c == chars "METRICS-GET"
    then one "METRICS-GET requires metric name" metrics_get parts
    else if c == chars "METRICS-CLEAR"
    then ok metrics_clear
    else if c == chars "METRICS-EXPORT"
    then format_of metrics_export parts
    else other

unfoldable pub pubsub_word : Chars → List Chars → Parsed → Parsed
unfolding percent_decode as_bytes
pubsub_word c parts other =
    if c == chars "PUBSUB-PUBLISH"
    then next "PUBSUB-PUBLISH requires topic" payload parts
    else if c == chars "PUBSUB-SUBSCRIBE"
    then two "PUBSUB-SUBSCRIBE requires topic" "PUBSUB-SUBSCRIBE requires subscriber"
        pubsub_subscribe parts
    else if c == chars "PUBSUB-PULL"
    then two "PUBSUB-PULL requires topic" "PUBSUB-PULL requires subscriber" pubsub_pull parts
    else if c == chars "PUBSUB-ACK"
    then one "PUBSUB-ACK requires msg_id" pubsub_ack parts
    else if c == chars "PUBSUB-NACK"
    then next "PUBSUB-NACK requires msg_id" (λ id rest. ok (pubsub_nack id (join_words rest))) parts
    else if c == chars "PUBSUB-STATUS"
    then ok pubsub_status
    else other

unfoldable pub secret_word : Chars → List Chars → Parsed → Parsed
unfolding percent_decode as_bytes
secret_word c parts other =
    if c == chars "SECRET-SET"
    then next "SECRET-SET requires name" (λ name. decoded (secret_set name)) parts
    else if c == chars "SECRET-GET"
    then one "SECRET-GET requires name" secret_get parts
    else if c == chars "SECRET-DELETE"
    then one "SECRET-DELETE requires name" secret_delete parts
    else if c == chars "SECRET-LIST"
    then ok secret_list
    else if c == chars "SECRET-CHECK"
    then ok (secret_check parts)
    else other

unfoldable pub stream_word : Chars → List Chars → Parsed → Parsed
stream_word c parts other =
    if c == chars "STREAM-LIST"
    then ok stream_list
    else if c == chars "STREAM-STATUS"
    then ok stream_status
    else if c == chars "STREAM-OPEN"
    then one "STREAM-OPEN requires path" stream_open parts
    else if c == chars "STREAM-CLOSE"
    then one "STREAM-CLOSE requires id" stream_close parts
    else other

-- The commands of one word, with the words behind it.
unfoldable pub one_word : Chars → List Chars → Parsed
unfolding core_word mode_word db_word pg_word redis_word auth_word trace_word metrics_word
    pubsub_word secret_word stream_word
one_word c parts = core_word c parts (
    mode_word c parts (
      db_word c parts (
        pg_word c parts (
          redis_word c parts (
            auth_word c parts (
              trace_word c parts (
                metrics_word c parts (
                  pubsub_word c parts
                    (secret_word c parts (stream_word c parts (err (unknown_command c))))))))))))
