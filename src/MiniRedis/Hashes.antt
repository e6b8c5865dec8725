-- ===== src/MiniRedis/Hashes.antt =====
-- The operations of `Store` on hashes. A reply that lists a hash is in the order of its fields.
use text.Mathlib.Text.{is_le}
use Prim.Native.String.{compare}
use bridge_framework.Base.{
  ℕ, ◌+◌, String, Option, none, some, List, [], ◌∷◌, length, if◌then◌else◌, unwrap_or, and_then,
  string_eq, ℤ, pos, ◌+ℤ◌, wrap_i64, parse_i64, integer_text,
}
use bridge_framework.Base.Map
use bridge_framework.Base.Map.{Map}
use bridge_framework.MiniRedis.{
  Resp, Resps, StoreVal, Entry, Store, hash, integer, array, no_resps, resp, null, bulk, int, bulks,
  lasting, is_expired, live, read, wrong_hash,
}

-- The writers' entry of a key: a new hash where there is none or where it has expired.
abbrev pub hash_entry : ℕ → String → Store → Entry
hash_entry now key s = elim (Map.get key s) [
  | none ↦ lasting (hash [])
  | some e ↦ if is_expired now e then lasting (hash []) else e
]

-- A command that writes a hash: the new hash and the reply.
abbrev pub write_val :
    String
    → (Map String String → Map String String × Resp)
    → Store
    → Entry
    → StoreVal
    → Store × Resp
write_val key f s e (hash h) = (Map.insert key (record e { val = hash (f h).0 }) s, (f h).1)
write_val key f s e _ = (Map.insert key e s, wrong_hash)

abbrev pub write_hash :
    ℕ → String → (Map String String → Map String String × Resp) → Store → Store × Resp
write_hash now key f s = let e = hash_entry now key s in write_val key f s e e.val

-- The loop of `hset`, with the number of new fields so far.
unfoldable pub add_fields : List (String × String) → Map String String → ℕ → Map String String × ℕ
add_fields [] h added = (h, added)
add_fields ((f, v) ∷ pairs) h added =
    add_fields pairs (Map.insert f v h) (if Map.contains_key f h then added else added + 1)

unfoldable pub hset : ℕ → String → List (String × String) → Store → Store × Resp
unfolding add_fields
hset now key pairs s =
    write_hash now key (λ h. ((add_fields pairs h 0).0, int (add_fields pairs h 0).1)) s

unfoldable pub hsetnx : ℕ → String → String → String → Store → Store × Resp
hsetnx now key field value s =
    write_hash now key
      (λ h. if Map.contains_key field h then (h, int 0) else (Map.insert field value h, int 1)) s

abbrev pub field_reply : Option String → Resp
field_reply none = null
field_reply (some v) = bulk v

abbrev pub on_hash : (Map String String → Resp) → Entry → Resp
on_hash f e = elim e.val [ hash h ↦ f h | _ ↦ wrong_hash ]

unfoldable pub hget : ℕ → String → String → Store → Store × Resp
unfolding live
hget now key field s = read now key null (on_hash (λ h. field_reply (Map.get field h))) s

abbrev pub fields_replies : List String → Map String String → Resps
fields_replies [] h = no_resps
fields_replies (f ∷ fields) h = resp (field_reply (Map.get f h)) (fields_replies fields h)

unfoldable pub hmget : ℕ → String → List String → Store → Store × Resp
unfolding live
hmget now key fields s =
    read now key (array (fields_replies fields [])) (on_hash (λ h. array (fields_replies fields h)))
      s

-- `sort_by_key` on the fields.
unfoldable pub insert_sorted : String × String → List (String × String) → List (String × String)
insert_sorted e [] = e ∷ []
insert_sorted e (x ∷ xs) = if is_le (compare e.0 x.0) then e ∷ x ∷ xs else x ∷ insert_sorted e xs

unfoldable pub sort_fields : List (String × String) → List (String × String)
unfolding insert_sorted
sort_fields [] = []
sort_fields (e ∷ xs) = insert_sorted e (sort_fields xs)

abbrev pub alternating : List (String × String) → Resps
alternating [] = no_resps
alternating ((f, v) ∷ pairs) = resp (bulk f) (resp (bulk v) (alternating pairs))

unfoldable pub hgetall : ℕ → String → Store → Store × Resp
unfolding live sort_fields
hgetall now key s =
    read now key (array no_resps) (on_hash (λ h. array (alternating (sort_fields h)))) s

-- The loop of `hdel`, with the number of fields removed so far.
unfoldable pub remove_fields : List String → Map String String → ℕ → Map String String × ℕ
remove_fields [] h removed = (h, removed)
remove_fields (f ∷ fields) h removed =
    remove_fields fields (Map.remove f h) (if Map.contains_key f h then removed + 1 else removed)

abbrev pub remove_val : String → List String → Store → Entry → StoreVal → Store × Resp
remove_val key fields s e (hash h) =
    let left = remove_fields fields h 0 in
    (Map.insert key (record e { val = hash left.0 }) s, int left.1)
remove_val key fields s e _ = (s, wrong_hash)

unfoldable pub hdel : ℕ → String → List String → Store → Store × Resp
unfolding live remove_fields
hdel now key fields s =
    let found = live now key s in
    elim found.1 [ none ↦ (found.0, int 0) | some e ↦ remove_val key fields found.0 e e.val ]

unfoldable pub hlen : ℕ → String → Store → Store × Resp
unfolding live
hlen now key s = read now key (int 0) (on_hash (λ h. int (length h))) s

unfoldable pub hexists : ℕ → String → String → Store → Store × Resp
unfolding live
hexists now key field s =
    read now key (int 0) (on_hash (λ h. int (if Map.contains_key field h then 1 else 0))) s

unfoldable pub hkeys : ℕ → String → Store → Store × Resp
unfolding live sort_fields
hkeys now key s =
    read now key (array no_resps) (on_hash (λ h. array (bulks (Map.keys (sort_fields h))))) s

unfoldable pub hvals : ℕ → String → Store → Store × Resp
unfolding live sort_fields
hvals now key s =
    read now key (array no_resps) (on_hash (λ h. array (bulks (Map.values (sort_fields h))))) s

-- A field that is absent or no integer counts as 0.
unfoldable pub hincrby : ℕ → String → String → ℤ → Store → Store × Resp
unfolding parse_i64 integer_text ◌+ℤ◌
hincrby now key field by s =
    write_hash now key
      (λ h.
        let next = wrap_i64 (unwrap_or (pos 0) (and_then (Map.get field h) parse_i64) +ℤ by) in
        (Map.insert field (integer_text next) h, integer next))
      s
