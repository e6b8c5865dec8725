-- ===== src/MiniRedis/Dispatch.antt =====
-- The dispatch of commands: `args_from`, `dispatch` and `dispatch_inner` of miniredis/src/lib.rs.
-- What is returned through `?` is the reply like any other, so that both are one outcome.
use Prim.Native.Char.{code}
use Prim.Native.String.{◌++◌ as join_text, char_at}
use bridge_framework.Base.{
  ℕ, ◌-◌, ◌^◌, ◌&&◌, String, Option, none, some, List, [], ◌∷◌, map, leb, if◌then◌else◌, unwrap_or,
  chars, ◌==◌, nat_eq, list_eq, ℤ, pos, negsuc, negate, wrap_i64, parse_i64, parse_unsigned, Result,
  ok, err,
}
use bridge_framework.MiniRedis.{
  Resp, Resps, Store, Outcome, reply, simple_string, error, array, bulk_string, no_resps, resp,
  bulk, ok_reply,
}
use bridge_framework.MiniRedis.Texts
use bridge_framework.MiniRedis.Texts.{from_secs}
use bridge_framework.MiniRedis.Lists
use bridge_framework.MiniRedis.Hashes

-- `to_ascii_uppercase`
abbrev pub upper : ℕ → ℕ
upper c = if leb b'a' c && leb c b'z' then c - 32 else c

-- The same on a text.
abbrev pub upper_text : String → String
upper_text String.[] = String.[]
upper_text (String.◌∷◌ c s) =
    let rest = upper_text s in
    if leb b'a' (code c) && leb (code c) b'z'
    then String.◌∷◌ (char_at "ABCDEFGHIJKLMNOPQRSTUVWXYZ" (code c - b'a')) rest
    else String.◌∷◌ c rest

abbrev pub items_args : Resps → List String
items_args no_resps = []
items_args (resp (bulk_string (some s)) rs) = s ∷ items_args rs
items_args (resp (simple_string s) rs) = s ∷ items_args rs
items_args (resp _ rs) = items_args rs

abbrev pub args_from : Resp → List String
args_from (array rs) = items_args rs
args_from _ = []

abbrev pub wrong_number : String → Resp
wrong_number name = error (join_text "ERR wrong number of arguments for '" (join_text name "'"))

abbrev pub not_integer : Resp
not_integer = error "ERR value is not an integer or out of range"

abbrev pub syntax_error : Resp
syntax_error = error "ERR syntax error"

abbrev pub fail : Resp → Store → Store × Outcome
fail r s = (s, reply r)

abbrev pub done : Store × Resp → Store × Outcome
done (s, r) = (s, reply r)

abbrev pub parse_u64 : String → Option ℕ
parse_u64 = parse_unsigned (2 ^ 64)

-- `require(args, 2)`, 3 and 4: exactly so many arguments behind the name.
abbrev pub one_arg :
    String → List String → (String → Store → Store × Outcome) → Store → Store × Outcome
one_arg name (a ∷ []) f s = f a s
one_arg name _ f s = fail (wrong_number name) s

abbrev pub two_args :
    String → List String → (String → String → Store → Store × Outcome) → Store → Store × Outcome
two_args name (a ∷ b ∷ []) f s = f a b s
two_args name _ f s = fail (wrong_number name) s

abbrev pub three_args :
    String
    → List String
    → (String → String → String → Store → Store × Outcome)
    → Store
    → Store × Outcome
three_args name (a ∷ b ∷ c ∷ []) f s = f a b c s
three_args name _ f s = fail (wrong_number name) s

-- `require_min(args, 2)` and 3, with all arguments and with those behind the first.
abbrev pub some_args :
    String → List String → (List String → Store → Store × Outcome) → Store → Store × Outcome
some_args name [] f s = fail (wrong_number name) s
some_args name (a ∷ rest) f s = f (a ∷ rest) s

abbrev pub key_and_args :
    String
    → List String
    → (String → List String → Store → Store × Outcome)
    → Store
    → Store × Outcome
key_and_args name (k ∷ a ∷ rest) f s = f k (a ∷ rest) s
key_and_args name _ f s = fail (wrong_number name) s

abbrev pub with_i64 : String → (ℤ → Store → Store × Outcome) → Store → Store × Outcome
with_i64 a f s = elim (parse_i64 a) [ none ↦ fail not_integer s | some n ↦ f n s ]

-- The pairs of an even number of arguments.
abbrev pub pair_up : List String → Option (List (String × String))
pair_up [] = some []
pair_up (a ∷ []) = none
pair_up (a ∷ b ∷ rest) = elim (pair_up rest) [ none ↦ none | some ps ↦ some ((a, b) ∷ ps) ]

-- The loop of `SET` over its options, with the time to live so far; a unit of time is one millisecond.
abbrev pub set_options : List String → Option ℕ → Result Resp (Option ℕ)
set_options [] ttl = ok ttl
set_options (o ∷ []) ttl =
    let word = map upper (chars o) in
    if word == chars "EX"
    then err not_integer
    else if word == chars "PX"
    then err not_integer
    else err syntax_error
set_options (o ∷ v ∷ rest) ttl =
    let word = map upper (chars o) in
    let number = parse_u64 v in
    let secs : Result Resp (Option ℕ) = elim number [
      | none ↦ err not_integer
      | some n ↦ set_options rest (some (from_secs n))
    ] in
    let millis : Result Resp (Option ℕ) = elim number [
      | none ↦ err not_integer
      | some n ↦ set_options rest (some n)
    ] in
    if word == chars "EX" then secs else if word == chars "PX" then millis else err syntax_error

abbrev pub first : List String → Option String
first [] = none
first (a ∷ rest) = some a

abbrev pub ping : List String → Store → Store × Outcome
ping [] s = fail (simple_string "PONG") s
ping (m ∷ rest) s = fail (bulk m) s

abbrev pub run_get : ℕ → List String → Store → Store × Outcome
run_get now [] s = fail (error "ERR wrong number of arguments for 'get' command") s
run_get now (k ∷ rest) s = done (Texts.get now k s)

abbrev pub run_setnx : ℕ → List String → Store → Store × Outcome
run_setnx now (k ∷ v ∷ rest) s = done (Texts.setnx now k v s)
run_setnx now _ s = fail (error "ERR wrong number of arguments for 'setnx' command") s

abbrev pub run_set : ℕ → String → List String → Store → Store × Outcome
run_set now name (k ∷ v ∷ options) s = elim (set_options options none) [
  | err r ↦ fail r s
  | ok ttl ↦ done (Texts.set now k v ttl s)
]
run_set now name _ s = fail (wrong_number name) s

abbrev pub run_mset : List String → Store → Store × Outcome
run_mset rest s = elim (pair_up rest) [
  | some (p ∷ pairs) ↦ done (Texts.mset (p ∷ pairs) s)
  | _ ↦ fail (error "ERR wrong number of arguments for MSET") s
]

abbrev pub run_mget : (ℕ → ℕ) → List String → Store → Store × Outcome
run_mget clock ks s = let found = Texts.mget clock 0 ks s in (found.0, reply (array found.1))

abbrev pub run_hset : ℕ → String → List String → Store → Store × Outcome
run_hset now name (k ∷ a ∷ b ∷ rest) s = elim (pair_up (a ∷ b ∷ rest)) [
  | none ↦ fail (error "ERR wrong number of arguments for 'hset' command") s
  | some pairs ↦ done (Hashes.hset now k pairs s)
]
run_hset now name _ s = fail (wrong_number name) s

abbrev pub run_expire : ℕ → ℕ → String → String → Store → Store × Outcome
run_expire now later k secs s = elim (parse_u64 secs) [
  | none ↦ fail not_integer s
  | some n ↦ done (Texts.expire now later k n s)
]

-- The arms of `dispatch_inner`: a command by its name in capitals, with the arguments behind the
-- name. The clock is read as often as the command does it, from reading number 0 on.
unfoldable pub run_hashes : (ℕ → ℕ) → List ℕ → String → List String → Store → Store × Outcome
unfolding Hashes.hset Hashes.hsetnx Hashes.hget Hashes.hmget Hashes.hgetall Hashes.hdel Hashes.hlen
    Hashes.hexists Hashes.hkeys Hashes.hvals Hashes.hincrby parse_i64
run_hashes clock cmd name rest s =
    let now = clock 0 in
    if cmd == chars "HSET"
    then run_hset now name rest s
    else if cmd == chars "HSETNX"
    then three_args name rest (λ k f v s. done (Hashes.hsetnx now k f v s)) s
    else if cmd == chars "HGET"
    then two_args name rest (λ k f s. done (Hashes.hget now k f s)) s
    else if cmd == chars "HMGET"
    then key_and_args name rest (λ k fs s. done (Hashes.hmget now k fs s)) s
    else if cmd == chars "HGETALL"
    then one_arg name rest (λ k s. done (Hashes.hgetall now k s)) s
    else if cmd == chars "HDEL"
    then key_and_args name rest (λ k fs s. done (Hashes.hdel now k fs s)) s
    else if cmd == chars "HLEN"
    then one_arg name rest (λ k s. done (Hashes.hlen now k s)) s
    else if cmd == chars "HEXISTS"
    then two_args name rest (λ k f s. done (Hashes.hexists now k f s)) s
    else if cmd == chars "HKEYS"
    then one_arg name rest (λ k s. done (Hashes.hkeys now k s)) s
    else if cmd == chars "HVALS"
    then one_arg name rest (λ k s. done (Hashes.hvals now k s)) s
    else if cmd == chars "HINCRBY"
    then three_args name rest (λ k f a. with_i64 a (λ n s. done (Hashes.hincrby now k f n s))) s
    else fail (error (join_text "ERR unknown command '" (join_text (upper_text name) "'"))) s

unfoldable pub run_lists : (ℕ → ℕ) → List ℕ → String → List String → Store → Store × Outcome
unfolding Lists.lpush Lists.rpush Lists.lrange Lists.llen Lists.lindex parse_i64 run_hashes
run_lists clock cmd name rest s =
    let now = clock 0 in
    if cmd == chars "LPUSH"
    then key_and_args name rest (λ k vals s. done (Lists.lpush k vals s)) s
    else if cmd == chars "RPUSH"
    then key_and_args name rest (λ k vals s. done (Lists.rpush k vals s)) s
    else if cmd == chars "LRANGE"
    then three_args name rest (λ k a b. with_i64 a (λ m. with_i64 b (Lists.lrange now k m))) s
    else if cmd == chars "LLEN"
    then one_arg name rest (λ k s. done (Lists.llen now k s)) s
    else if cmd == chars "LINDEX"
    then two_args name rest (λ k a. with_i64 a (λ n s. done (Lists.lindex now k n s))) s
    else run_hashes clock cmd name rest s

unfoldable pub run_counters : (ℕ → ℕ) → List ℕ → String → List String → Store → Store × Outcome
unfolding Texts.incr_by parse_i64 run_lists
run_counters clock cmd name rest s =
    let now = clock 0 in
    if cmd == chars "INCR"
    then one_arg name rest (λ k s. done (Texts.incr_by now k (pos 1) s)) s
    else if cmd == chars "DECR"
    then one_arg name rest (λ k s. done (Texts.incr_by now k (negsuc 0) s)) s
    else if cmd == chars "INCRBY"
    then two_args name rest (λ k a. with_i64 a (λ n s. done (Texts.incr_by now k n s))) s
    else if cmd == chars "DECRBY"
    then two_args name rest
        (λ k a. with_i64 a (λ n s. done (Texts.incr_by now k (wrap_i64 (negate n)) s))) s
    else run_lists clock cmd name rest s

unfoldable pub run_keys : (ℕ → ℕ) → List ℕ → String → List String → Store → Store × Outcome
unfolding Texts.expire Texts.ttl parse_unsigned run_counters
run_keys clock cmd name rest s =
    let now = clock 0 in
    let later = clock 1 in
    if cmd == chars "EXPIRE"
    then two_args name rest (run_expire now later) s
    else if cmd == chars "TTL"
    then one_arg name rest (λ k s. done (Texts.ttl now later k s)) s
    else run_counters clock cmd name rest s

unfoldable pub run_texts : (ℕ → ℕ) → List ℕ → String → List String → Store → Store × Outcome
unfolding Texts.get Texts.set Texts.setnx Texts.mget Texts.mset Texts.del_from Texts.exists_from
    run_keys
run_texts clock cmd name rest s =
    let now = clock 0 in
    if cmd == chars "GET"
    then run_get now rest s
    else if cmd == chars "SETNX"
    then run_setnx now rest s
    else if cmd == chars "SET"
    then run_set now name rest s
    else if cmd == chars "MGET"
    then some_args name rest (run_mget clock) s
    else if cmd == chars "MSET"
    then run_mset rest s
    else if cmd == chars "DEL"
    then some_args name rest (λ ks s. done (Texts.del ks s)) s
    else if cmd == chars "EXISTS"
    then some_args name rest (λ ks s. done (Texts.exists clock ks s)) s
    else run_keys clock cmd name rest s

unfoldable pub run : (ℕ → ℕ) → List ℕ → String → List String → Store → Store × Outcome
unfolding Texts.type_cmd Texts.keys run_texts
run clock cmd name rest s =
    let now = clock 0 in
    if cmd == chars "PING"
    then ping rest s
    else if cmd == chars "COMMAND"
    then fail ok_reply s
    else if cmd == chars "FLUSHDB"
    then done (Texts.flushdb s)
    else if cmd == chars "KEYS"
    then done (Texts.keys now (unwrap_or "*" (first rest)) s)
    else if cmd == chars "TYPE"
    then done (Texts.type_cmd now (unwrap_or "" (first rest)) s)
    else run_texts clock cmd name rest s

unfoldable pub dispatch : (ℕ → ℕ) → List String → Store → Store × Outcome
unfolding run
dispatch clock [] s = fail (error "ERR no command") s
dispatch clock (name ∷ rest) s = run clock (map upper (chars name)) name rest s
