-- ===== src/MiniRedis/Pushes.antt =====
-- What is pushed to a list is read back, and where a range ends before its list.
use mathlib.Core.List.{append_assoc, reverse-cons}
use bridge_framework.Base.{
  ℕ, suc, ◌+◌, ◌-◌, ◌^◌, ◌≤◌, ◌<◌, ◌≡◌, ◌↔◌, ◌≢◌, refl, sym, ap, ◌∙◌, Bool, true, false, String,
  some, List, [], ◌∷◌, ◌++◌, reverse, length, ltb, leb, arith, string_eq, ℤ, pos, negsuc,
}
use bridge_framework.Base.Map
use bridge_framework.Base.Map.{get-insert_self}
use bridge_framework.MiniRedis.{
  Entry, Store, reply, panicked, list, array, int, bulks, is_expired, read,
}
use bridge_framework.MiniRedis.Live.{live-alive, live-expired, is_expired-later}
use bridge_framework.MiniRedis.Lists.{
  take, drop, push_front, list_entry, push_with, lpush, rpush, lrange, llen, slice, first_index,
  last_index,
}

take-all : (xs : List String) → take (length xs) xs ≡ xs
take-all [] = refl
take-all (x ∷ xs) = ap (◌∷◌ x) (take-all xs)

push_front-reverse : (xs vals : List String) → push_front xs vals ≡ reverse vals ++ xs
push_front-reverse xs [] = refl
push_front-reverse xs (v ∷ vals) =
    push_front-reverse (v ∷ xs) vals ∙ rw (reverse-cons v vals, append_assoc) refl

-- A range whose end is in the list, and one whose end is not.
slice-within :
    (s e : ℕ) (xs : List String)
    → s ≤ e
    → e < length xs
    → slice s e xs ≡ reply (array (bulks (take (e + 1 - s) (drop s xs))))
slice-within s e xs ordered inside = ground arith

slice-panicked : (s e : ℕ) (xs : List String) → s ≤ e → length xs ≤ e → slice s e xs ≡ panicked
slice-panicked s e xs ordered outside = ground arith

slice-all : (xs : List String) → xs ≢ [] → slice 0 (length xs - 1) xs ≡ reply (array (bulks xs))
slice-all [] ne = absurd (ne refl)
slice-all (x ∷ xs) ne =
    let whole : suc (length xs) - 1 + 1 - 0 ≡ suc (length xs) = ground arith in
    slice-within 0 (suc (length xs) - 1) (x ∷ xs) (ground arith) (ground arith)
    ∙ ap (λ ys. reply (array (bulks ys))) (ap (λ n. take n (x ∷ xs)) whole ∙ take-all (x ∷ xs))

-- The range from 0 to -1 is the whole list.
range-whole :
    (xs : List String)
    → xs ≢ []
    → slice (first_index (pos 0) (length xs)) (last_index (negsuc 0) (length xs)) xs
      ≡ reply (array (bulks xs))
range-whole [] ne = absurd (ne refl)
range-whole (x ∷ xs) ne =
    let at_least : ltb 0 (suc (length xs)) ≡ true = ground arith in
    rw (at_least, slice) (slice-all (x ∷ xs) ne)

-- A push to a list.
push_with-list :
    (f : List String → List String) (key : String) (xs : List String) (s : Store)
    → (list_entry key s).val ≡ list xs
    → push_with f key s
      ≡ (Map.insert key (record (list_entry key s) { val = list (f xs) }) s, int (length (f xs)))
push_with-list f key xs s is_list = rw (push_with, is_list) refl

-- LRANGE on a live list.
pub lrange-list :
    (now : ℕ) (key : String) (start stop : ℤ) (s : Store) (e : Entry) (xs : List String)
    → Map.get key s ≡ some e
    → is_expired now e ≡ false
    → e.val ≡ list xs
    → (lrange now key start stop s).1
      ≡ slice (first_index start (length xs)) (last_index stop (length xs)) xs
unfolding lrange
lrange-list now key start stop s e xs found alive is_list =
    rw (lrange, live-alive now key s e found alive, is_list) refl

-- A list that a push has left is read back whole.
lrange-pushed :
    (now : ℕ) (key : String) (s : Store) (e : Entry) (xs : List String)
    → is_expired now e ≡ false
    → xs ≢ []
    → (lrange now key (pos 0) (negsuc 0) (Map.insert key (record e { val = list xs }) s)).1
      ≡ reply (array (bulks xs))
lrange-pushed now key s e xs alive ne =
    lrange-list now key (pos 0) (negsuc 0) (Map.insert key (record e { val = list xs }) s)
      (record e { val = list xs }) xs (get-insert_self key (record e { val = list xs }) s) alive
      refl
    ∙ range-whole xs ne

-- RPUSH puts the values behind the list, in their order: LRANGE from 0 to -1 then replies the old
-- list followed by the values, where the old entry has not expired and there is anything to reply.
pub lrange-rpush :
    (now : ℕ) (key : String) (vals xs : List String) (s : Store)
    → (list_entry key s).val ≡ list xs
    → is_expired now (list_entry key s) ≡ false
    → xs ++ vals ≢ []
    → (lrange now key (pos 0) (negsuc 0) (rpush key vals s).0).1
      ≡ reply (array (bulks (xs ++ vals)))
unfolding rpush
lrange-rpush now key vals xs s is_list alive ne =
    rw (push_with-list (λ ys. ys ++ vals) key xs s is_list)
      (lrange-pushed now key s (list_entry key s) (xs ++ vals) alive ne)

-- LPUSH puts the values one by one before the list: LRANGE from 0 to -1 then replies the values in
-- reverse followed by the old list, where the old entry has not expired and there is anything to
-- reply.
pub lrange-lpush :
    (now : ℕ) (key : String) (vals xs : List String) (s : Store)
    → (list_entry key s).val ≡ list xs
    → is_expired now (list_entry key s) ≡ false
    → reverse vals ++ xs ≢ []
    → (lrange now key (pos 0) (negsuc 0) (lpush key vals s).0).1
      ≡ reply (array (bulks (reverse vals ++ xs)))
unfolding lpush
lrange-lpush now key vals xs s is_list alive ne =
    rw (push_with-list (λ ys. push_front ys vals) key xs s is_list, push_front-reverse xs vals)
      (lrange-pushed now key s (list_entry key s) (reverse vals ++ xs) alive ne)

-- A slice that starts at 0 panics exactly where its end is not in the list.
slice-panicked_iff : (e : ℕ) (xs : List String) → (slice 0 e xs ≡ panicked) ↔ (length xs ≤ e)
slice-panicked_iff e xs = ground arith

-- Does a range end before the front of a list of this length?
abbrev pub ends_before : ℤ → ℕ → Bool
ends_before (pos n) len = false
ends_before (negsuc n) len = leb len n

-- The last index leaves a list exactly where the range ends before the list.
last_index-outside_iff :
    (stop : ℤ) (len : ℕ)
    → 0 < len
    → len < 2 ^ 64
    → (len ≤ last_index stop len) ↔ (ends_before stop len ≡ true)
last_index-outside_iff (pos n) len some_len short = ground arith
last_index-outside_iff (negsuc n) len some_len short = ground arith

-- Where a range from 0 starts.
slice-front :
    (e : ℕ) (xs : List String)
    → 0 < length xs
    → slice (first_index (pos 0) (length xs)) e xs ≡ slice 0 e xs
slice-front e xs some_items = ground arith

-- LRANGE with a range from 0 panics exactly where the range ends before the front of the list, on a
-- live list that is not empty and has fewer than 2^64 items.
pub lrange-panicked_iff :
    (now : ℕ) (key : String) (stop : ℤ) (s : Store) (e : Entry) (xs : List String)
    → Map.get key s ≡ some e
    → is_expired now e ≡ false
    → e.val ≡ list xs
    → 0 < length xs
    → length xs < 2 ^ 64
    → ((lrange now key (pos 0) stop s).1 ≡ panicked) ↔ (ends_before stop (length xs) ≡ true)
lrange-panicked_iff now key stop s e xs found alive is_list some_items short =
    let reduced =
      lrange-list now key (pos 0) stop s e xs found alive is_list
      ∙ slice-front (last_index stop (length xs)) xs some_items in
    let outside = slice-panicked_iff (last_index stop (length xs)) xs in
    let before = last_index-outside_iff stop (length xs) some_items short in
    (λ h. before.0 (outside.0 (sym reduced ∙ h)), λ h. reduced ∙ outside.1 (before.1 h))

llen-expired :
    (now : ℕ) (key : String) (s : Store) (e : Entry)
    → Map.get key s ≡ some e
    → is_expired now e ≡ true
    → (llen now key s).1 ≡ int 0
unfolding llen
llen-expired now key s e found dead = rw (llen, read, live-expired now key s e found dead) refl

-- A push to a list that has expired replies its new length and leaves the deadline: at this and any
-- later reading of the clock LLEN finds no list.
pub llen-rpush_expired :
    (now later : ℕ) (key : String) (vals xs : List String) (s : Store)
    → (list_entry key s).val ≡ list xs
    → is_expired now (list_entry key s) ≡ true
    → now ≤ later
    → ((rpush key vals s).1 ≡ int (length (xs ++ vals)))
      × ((llen later key (rpush key vals s).0).1 ≡ int 0)
unfolding rpush
llen-rpush_expired now later key vals xs s is_list dead after =
    let pushed = push_with-list (λ ys. ys ++ vals) key xs s is_list in
    let e : Entry = record (list_entry key s) { val = list (xs ++ vals) } in
    (
      rw pushed refl,
      rw pushed (
          llen-expired later key (Map.insert key e s) e (get-insert_self key e s)
            (is_expired-later now later e after dead)),
    )
