-- ===== src/Protocol/Spaced.antt =====
-- The commands of two words in `parse_command` of protocol/src/lib.rs; `other` is what the line means
-- where it is none of them.
use bridge_framework.Base.{
  List, if◌then◌else◌, chars, ◌==◌, nat_eq, list_eq, ok, Chars, as_bytes, parse_number,
}
use bridge_framework.Protocol.{bearer, parse_mode, parse_format, percent_decode}
use bridge_framework.Protocol.Command.{
  Parsed, next, one, two, decoded, first_or, format_of, mode_of, seconds, no_filter, get_mode,
  compile_file, services_list, routes_list, db_put, db_get, db_del, db_keys, db_flush, pg_create,
  pg_status, pg_migrate, pg_destroy, redis_status, redis_ping, redis_get, redis_set, redis_del,
  redis_keys, redis_ttl, redis_expire, redis_flush, auth_status, auth_set, auth_clear, trace_get,
  trace_clear, trace_export, metrics_list, metrics_get, metrics_clear, metrics_export,
}

unfoldable pub mode_words : Chars → List Chars → Parsed → Parsed
unfolding parse_mode
mode_words c parts other =
    if c == chars "MODE GET"
    then ok get_mode
    else if c == chars "MODE SET"
    then mode_of "MODE SET requires mode argument" parts
    else other

unfoldable pub db_words : Chars → List Chars → Parsed → Parsed
unfolding percent_decode as_bytes
db_words c parts other =
    if c == chars "DB PUT"
    then next "DB PUT requires namespace"
        (λ ns. next "DB PUT requires key" (λ key. decoded (db_put ns key))) parts
    else if c == chars "DB GET"
    then two "DB GET requires namespace" "DB GET requires key" db_get parts
    else if c == chars "DB DEL"
    then two "DB DEL requires namespace" "DB DEL requires key" db_del parts
    else if c == chars "DB KEYS"
    then one "DB KEYS requires namespace" db_keys parts
    else if c == chars "DB FLUSH"
    then one "DB FLUSH requires namespace" db_flush parts
    else other

unfoldable pub auth_words : Chars → List Chars → Parsed → Parsed
unfolding percent_decode as_bytes
auth_words c parts other =
    if c == chars "AUTH STATUS"
    then ok auth_status
    else if c == chars "AUTH SET"
    then decoded (auth_set bearer) parts
    else if c == chars "AUTH CLEAR"
    then ok auth_clear
    else other

unfoldable pub trace_words : Chars → List Chars → Parsed → Parsed
unfolding parse_format
trace_words c parts other =
    if c == chars "TRACE LIST"
    then ok no_filter
    else if c == chars "TRACE GET"
    then one "TRACE GET requires trace ID" trace_get parts
    else if c == chars "TRACE CLEAR"
    then ok trace_clear
    else if c == chars "TRACE EXPORT"
    then format_of trace_export parts
    else other

unfoldable pub metrics_words : Chars → List Chars → Parsed → Parsed
unfolding parse_format
metrics_words c parts other =
    if c == chars "METRICS LIST"
    then ok metrics_list
    else if c == chars "METRICS GET"
    then one "METRICS GET requires metric name" metrics_get parts
    else if c == chars "METRICS CLEAR"
    then ok metrics_clear
    else if c == chars "METRICS EXPORT"
    then format_of metrics_export parts
    else other

unfoldable pub listing_words : Chars → List Chars → Parsed → Parsed
listing_words c parts other =
    if c == chars "SERVICES LIST"
    then ok services_list
    else if c == chars "ROUTES LIST"
    then ok routes_list
    else if c == chars "COMPILE FILE"
    then one "COMPILE FILE requires path" compile_file parts
    else other

unfoldable pub pg_words : Chars → List Chars → Parsed → Parsed
unfolding percent_decode as_bytes
pg_words c parts other =
    if c == chars "PG CREATE"
    then one "PG CREATE requires name" pg_create parts
    else if c == chars "PG STATUS"
    then ok pg_status
    else if c == chars "PG MIGRATE"
    then decoded pg_migrate parts
    else if c == chars "PG DESTROY"
    then one "PG DESTROY requires name" pg_destroy parts
    else other

unfoldable pub redis_words : Chars → List Chars → Parsed → Parsed
unfolding percent_decode as_bytes parse_number
redis_words c parts other =
    if c == chars "REDIS STATUS"
    then ok redis_status
    else if c == chars "REDIS PING"
    then ok redis_ping
    else if c == chars "REDIS GET"
    then one "REDIS GET requires key" redis_get parts
    else if c == chars "REDIS SET"
    then next "REDIS SET requires key" (λ key. decoded (redis_set key)) parts
    else if c == chars "REDIS DEL"
    then one "REDIS DEL requires key" redis_del parts
    else if c == chars "REDIS KEYS"
    then ok (redis_keys (first_or (chars "*") parts))
    else if c == chars "REDIS TTL"
    then one "REDIS TTL requires key" redis_ttl parts
    else if c == chars "REDIS EXPIRE"
    then next "REDIS EXPIRE requires key"
        (λ key. seconds "REDIS EXPIRE requires seconds" (λ n rest. ok (redis_expire key n))) parts
    else if c == chars "REDIS FLUSH"
    then ok redis_flush
    else other

-- The commands of two words, with the words behind them.
unfoldable pub two_words : Chars → List Chars → Parsed → Parsed
unfolding mode_words db_words auth_words trace_words metrics_words listing_words pg_words
    redis_words
two_words c parts other = mode_words c parts (
    db_words c parts (
      auth_words c parts (
        trace_words c parts (
          metrics_words c parts
            (listing_words c parts (pg_words c parts (redis_words c parts other)))))))
