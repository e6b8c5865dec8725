-- ===== src/Protocol/Command.antt =====
-- The commands of the protocol and `parse_command` of protocol/src/lib.rs.
use bridge_framework.Base.{
  String, ℕ, ◌^◌, Option, none, some, List, [], ◌∷◌, if◌then◌else◌, is_empty, chars, nat_eq,
  list_eq, Result, ok, err, ◌>>=◌, Chars, join_words, as_bytes, parse_number,
}
use bridge_framework.Protocol.{
  DaemonMode, AuthScheme, ExportFormat, Error, bearer, missing_argument, invalid_seconds,
  parse_mode, parse_scheme, parse_format, percent_decode,
}

pub record TraceFilter : Type 0 where
  pub service : Option Chars
  pub endpoint : Option Chars
  pub min_duration_ms : Option ℕ
  pub status_code : Option ℕ

pub data Command : Type 0 where
  ping help stop version health : Command
  get_mode : Command
  set_mode : DaemonMode → Command
  compile : Chars → Command
  compile_file : Chars → Command
  services_list routes_list : Command
  db_put : Chars → Chars → Chars → Command
  db_get db_del : Chars → Chars → Command
  db_keys db_flush : Chars → Command
  pg_create : Chars → Command
  pg_status : Command
  pg_migrate : Chars → Command
  pg_destroy : Chars → Command
  redis_status redis_ping : Command
  redis_get : Chars → Command
  redis_set : Chars → Chars → Command
  redis_setex : Chars → ℕ → Chars → Command
  redis_del redis_keys redis_ttl : Chars → Command
  redis_expire : Chars → ℕ → Command
  redis_flush : Command
  auth_status : Command
  auth_set : AuthScheme → Chars → Command
  auth_clear : Command
  trace_list : Option ℕ → Option TraceFilter → Command
  trace_get : Chars → Command
  trace_clear : Command
  trace_export : ExportFormat → Command
  metrics_list : Command
  metrics_get : Chars → Command
  metrics_clear : Command
  metrics_export : ExportFormat → Command
  pubsub_publish pubsub_subscribe pubsub_pull : Chars → Chars → Command
  pubsub_ack : Chars → Command
  pubsub_nack : Chars → Chars → Command
  pubsub_status : Command
  secret_set : Chars → Chars → Command
  secret_get secret_delete : Chars → Command
  secret_list : Command
  secret_check : List Chars → Command
  stream_list : Command
  stream_open stream_close : Chars → Command
  stream_status : Command

abbrev pub Parsed : Type 0
Parsed = Result Error Command

-- `parts.next().ok_or(…)?` with its message, once and twice.
abbrev pub next : String → (Chars → List Chars → Parsed) → List Chars → Parsed
next required f [] = err (missing_argument required)
next required f (w ∷ parts) = f w parts

abbrev pub one : String → (Chars → Command) → List Chars → Parsed
one required f = next required (λ w parts. ok (f w))

abbrev pub two : String → String → (Chars → Chars → Command) → List Chars → Parsed
two first second f = next first (λ w. next second (λ v parts. ok (f w v)))

-- What is left of the line, decoded.
abbrev pub decoded : (Chars → Command) → List Chars → Parsed
decoded f parts = percent_decode (as_bytes (join_words parts)) >>= (λ v. ok (f v))

abbrev pub first_or : Chars → List Chars → Chars
first_or d [] = d
first_or d (w ∷ parts) = w

abbrev pub format_of : (ExportFormat → Command) → List Chars → Parsed
format_of f parts = parse_format (first_or (chars "json") parts) >>= (λ m. ok (f m))

abbrev pub mode_of : String → List Chars → Parsed
mode_of required = next required (λ w parts. parse_mode w >>= (λ m. ok (set_mode m)))

-- `parse::<u64>`
abbrev pub seconds : String → (ℕ → List Chars → Parsed) → List Chars → Parsed
seconds required f = next required (λ w parts. elim (parse_number (2 ^ 64) w) [
  | none ↦ err (invalid_seconds w)
  | some n ↦ f n parts
])

-- `AUTH-SET`: one word is a token, and of several the first is a scheme.
abbrev pub scheme_and_token : List Chars → Parsed
scheme_and_token [] = err (missing_argument "AUTH-SET requires token or scheme")
scheme_and_token (w ∷ []) = decoded (auth_set bearer) (w ∷ [])
scheme_and_token (w ∷ v ∷ rest) = parse_scheme w >>= (λ s. decoded (auth_set s) (v ∷ rest))

-- The payload of `PUBSUB-PUBLISH`, which may be absent.
abbrev pub payload : Chars → List Chars → Parsed
payload topic parts =
    if is_empty (join_words parts)
    then ok (pubsub_publish topic (join_words parts))
    else decoded (pubsub_publish topic) parts

abbrev pub no_filter : Command
no_filter = trace_list none none
