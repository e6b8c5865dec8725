-- ===== src/MiniRedis/Texts.antt =====
-- The operations of `Store` on texts and on keys of any type.
use bridge_framework.Base.{
  ℕ, ◌+◌, ◌-◌, ◌*◌, ◌/◌, not, String, Option, none, some, List, [], ◌∷◌, filterb, if◌then◌else◌,
  is_some, string_eq, ℤ, pos, negsuc, ◌+ℤ◌, wrap_i64, parse_i64, integer_text,
}
use bridge_framework.Base.Map
use bridge_framework.MiniRedis.{
  Resp, Resps, StoreVal, Entry, Store, string, error, integer, array, no_resps, resp, ok_reply,
  null, bulk, int, bulks, lasting, str_ex, is_expired, type_name, live, read, wrong_string,
}
use bridge_framework.MiniRedis.Patterns.{glob}

abbrev pub text_reply : Entry → Resp
text_reply e = elim e.val [ string v ↦ bulk v | _ ↦ wrong_string ]

unfoldable pub get : ℕ → String → Store → Store × Resp
unfolding live
get now key s = read now key null text_reply s

-- The deadline counts from the reading of the clock that `str_ex` makes.
unfoldable pub set : ℕ → String → String → Option ℕ → Store → Store × Resp
set now key val ttl s = (
  Map.insert key (elim ttl [ some d ↦ str_ex now val d | none ↦ lasting (string val) ]) s,
  ok_reply,
)

unfoldable pub setnx : ℕ → String → String → Store → Store × Resp
unfolding live
setnx now key val s =
    let found = live now key s in
    if is_some found.1
    then (found.0, int 0)
    else (Map.insert key (lasting (string val)) found.0, int 1)

abbrev pub add_to : String → ℤ → ℤ → Store → Store × Resp
add_to key cur by s =
    let next = wrap_i64 (cur +ℤ by) in
    (Map.insert key (lasting (string (integer_text next))) s, integer next)

abbrev pub add_to_val : String → ℤ → Store → StoreVal → Store × Resp
add_to_val key by s (string v) = elim (parse_i64 v) [
  | none ↦ (s, error "ERR value not an integer")
  | some n ↦ add_to key n by s
]
add_to_val key by s _ = (s, wrong_string)

unfoldable pub incr_by : ℕ → String → ℤ → Store → Store × Resp
unfolding live parse_i64 integer_text ◌+ℤ◌
incr_by now key by s =
    let found = live now key s in
    elim found.1 [ none ↦ add_to key (pos 0) by found.0 | some e ↦ add_to_val key by found.0 e.val ]

-- One reading of the clock for each key.
unfoldable pub mget : (ℕ → ℕ) → ℕ → List String → Store → Store × Resps
unfolding get
mget clock i [] s = (s, no_resps)
mget clock i (k ∷ ks) s =
    let one = get (clock i) k s in
    let rest = mget clock (i + 1) ks one.0 in (rest.0, resp one.1 rest.1)

unfoldable pub mset : List (String × String) → Store → Store × Resp
mset [] s = (s, ok_reply)
mset ((k, v) ∷ pairs) s = mset pairs (Map.insert k (lasting (string v)) s)

-- The loop of `del`, with the count so far: a key counts if it is there, expired or not.
unfoldable pub del_from : ℕ → List String → Store → Store × Resp
del_from n [] s = (s, int n)
del_from n (k ∷ ks) s = del_from (if Map.contains_key k s then n + 1 else n) ks (Map.remove k s)

abbrev pub del : List String → Store → Store × Resp
del = del_from 0

unfoldable pub exists_from : (ℕ → ℕ) → ℕ → ℕ → List String → Store → Store × Resp
unfolding live
exists_from clock i n [] s = (s, int n)
exists_from clock i n (k ∷ ks) s =
    let found = live (clock i) k s in
    exists_from clock (i + 1) (if is_some found.1 then n + 1 else n) ks found.0

abbrev pub exists : (ℕ → ℕ) → List String → Store → Store × Resp
exists clock = exists_from clock 0 0

-- Instants are counted in milliseconds.
abbrev pub from_secs : ℕ → ℕ
from_secs secs = secs * 1000

unfoldable pub expire : ℕ → ℕ → String → ℕ → Store → Store × Resp
unfolding live
expire now later key secs s =
    let found = live now key s in
    elim found.1 [
      | none ↦ (found.0, int 0)
      | some e ↦
          (Map.insert key (record e { expires_at = some (later + from_secs secs) }) found.0, int 1)
    ]

abbrev pub remaining : ℕ → Entry → Resp
remaining later e = elim e.expires_at [
  | none ↦ integer (negsuc 0)
  | some t ↦ int ((t - later) / 1000)
]

unfoldable pub ttl : ℕ → ℕ → String → Store → Store × Resp
unfolding live
ttl now later key s = read now key (integer (negsuc 1)) (remaining later) s

unfoldable pub type_cmd : ℕ → String → Store → Store × Resp
unfolding live
type_cmd now key s = read now key (bulk "none") (λ e. bulk (type_name e)) s

-- What has expired goes; then the keys that match are listed.
unfoldable pub keys : ℕ → String → Store → Store × Resp
unfolding glob
keys now pattern s =
    let kept = Map.retain (λ k e. not (is_expired now e)) s in
    (kept, array (bulks (filterb (glob pattern) (Map.keys kept))))

abbrev pub flushdb : Store → Store × Resp
flushdb s = ([], ok_reply)
