-- ===== src/MiniRedis/Lists.antt =====
-- The operations of `Store` on lists.
use bridge_framework.Base.{
  ℕ, zero, suc, ◌+◌, ◌-◌, ◌^◌, String, Option, none, some, List, [], ◌∷◌, ◌++◌, length, ltb, leb,
  ◌==◌, nat_eq, if◌then◌else◌, unwrap_or, string_eq, ℤ, pos, negsuc,
}
use bridge_framework.Base.Map
use bridge_framework.MiniRedis.{
  Resp, StoreVal, Entry, Store, Outcome, reply, panicked, list, array, no_resps, null, bulk, int,
  bulks, lasting, live, read, wrong_list,
}

abbrev pub take : ℕ → List String → List String
take zero xs = []
take (suc n) [] = []
take (suc n) (x ∷ xs) = x ∷ take n xs

abbrev pub drop : ℕ → List String → List String
drop zero xs = xs
drop (suc n) [] = []
drop (suc n) (x ∷ xs) = drop n xs

abbrev pub get_elem? : List String → ℕ → Option String
get_elem? [] n = none
get_elem? (x ∷ xs) zero = some x
get_elem? (x ∷ xs) (suc n) = get_elem? xs n

-- The loop of `lpush`: each value goes to the front.
abbrev pub push_front : List String → List String → List String
push_front xs [] = xs
push_front xs (v ∷ vals) = push_front (v ∷ xs) vals

-- `entry(key).or_insert_with(Entry::list)`, which does not look at the deadline.
abbrev pub list_entry : String → Store → Entry
list_entry key s = unwrap_or (lasting (list [])) (Map.get key s)

abbrev pub push_val : (List String → List String) → String → Store → Entry → StoreVal → Store × Resp
push_val f key s e (list xs) =
    (Map.insert key (record e { val = list (f xs) }) s, int (length (f xs)))
push_val f key s e _ = (Map.insert key e s, wrong_list)

abbrev pub push_with : (List String → List String) → String → Store → Store × Resp
push_with f key s = let e = list_entry key s in push_val f key s e e.val

unfoldable pub lpush : String → List String → Store → Store × Resp
lpush key vals s = push_with (λ xs. push_front xs vals) key s

unfoldable pub rpush : String → List String → Store → Store × Resp
rpush key vals s = push_with (λ xs. xs ++ vals) key s

-- The first index of a range, brought into the list.
abbrev pub first_index : ℤ → ℕ → ℕ
first_index (pos n) len = if ltb n len then n else len
first_index (negsuc n) len = len - suc n

-- The last index, as `usize`: a number before the list becomes -1 and then the greatest `usize`.
abbrev pub last_index : ℤ → ℕ → ℕ
last_index (pos n) len = if len == 0 then 2 ^ 64 - 1 else if ltb n len then n else len - 1
last_index (negsuc n) len = if ltb n len then len - suc n else 2 ^ 64 - 1

-- `list[s..=e]` panics where the end is not in the list.
abbrev pub slice : ℕ → ℕ → List String → Outcome
slice s e xs =
    if ltb e s
    then reply (array no_resps)
    else if leb (length xs) e
    then panicked
    else reply (array (bulks (take (e + 1 - s) (drop s xs))))

abbrev pub range_val : ℤ → ℤ → StoreVal → Outcome
range_val start stop (list xs) =
    slice (first_index start (length xs)) (last_index stop (length xs)) xs
range_val start stop _ = reply wrong_list

unfoldable pub lrange : ℕ → String → ℤ → ℤ → Store → Store × Outcome
unfolding live
lrange now key start stop s =
    let found = live now key s in
    (found.0, elim found.1 [ none ↦ reply (array no_resps) | some e ↦ range_val start stop e.val ])

abbrev pub list_length : Entry → Resp
list_length e = elim e.val [ list xs ↦ int (length xs) | _ ↦ wrong_list ]

unfoldable pub llen : ℕ → String → Store → Store × Resp
unfolding live
llen now key s = read now key (int 0) list_length s

-- The index from the front, if it is one of the list.
abbrev pub index_of : ℤ → ℕ → Option ℕ
index_of (pos n) len = if ltb n len then some n else none
index_of (negsuc n) len = if ltb n len then some (len - suc n) else none

abbrev pub at_index : List String → Option ℕ → Resp
at_index xs none = null
at_index xs (some i) = elim (get_elem? xs i) [ some v ↦ bulk v | none ↦ null ]

abbrev pub list_item : ℤ → Entry → Resp
list_item idx e = elim e.val [ list xs ↦ at_index xs (index_of idx (length xs)) | _ ↦ wrong_list ]

unfoldable pub lindex : ℕ → String → ℤ → Store → Store × Resp
unfolding live
lindex now key idx s = read now key null (list_item idx) s
