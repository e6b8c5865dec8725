-- ===== src/MiniRedis/Errors/Operations.antt =====
-- No operation of the store changes it where it replies an error.
use mathlib.Core.Path.{subst}
use bridge_framework.Base.{
  ℕ, ◌+◌, ◌≡◌, ◌⊎◌, inl, inr, refl, sym, ap, false, String, some, List, [], ◌∷◌, if◌then◌else◌,
  string_eq, arith, Option-cases, Bool-cases, ℤ, pos, parse_i64, is_some, unwrap_or,
}
use bridge_framework.Base.Map
use bridge_framework.Base.Map.{Map}
use bridge_framework.MiniRedis.{
  Resp, Entry, Store, StoreVal, string, list, hash, live, read, is_expired, lasting, wrong_list,
  wrong_hash, int,
}
use bridge_framework.MiniRedis.Texts.{
  incr_by, add_to, add_to_val, setnx, del_from, mset, exists_from, expire,
}
use bridge_framework.MiniRedis.Lists.{push_with, push_val, lrange}
use bridge_framework.MiniRedis.Hashes.{write_hash, write_val, hash_entry, hdel, remove_val}
use bridge_framework.MiniRedis.Errors.{
  is_error, failed, Harmless, HarmlessReply, reply-Keeps, live-Keeps, live-cases,
}

-- A command that only reads.
pub read-Harmless :
    (now : ℕ) (key : String) (absent : Resp) (f : Entry → Resp) (s : Store)
    → is_error absent ≡ false
    → HarmlessReply s (read now key absent f s)
read-Harmless now key absent f s no_error = elim (live-cases now key s) [
  | inl nothing ↦
      reply-Keeps is_error s (read now key absent f s) (rw (is_error, read, nothing) no_error)
  | inr (e, there) ↦ λ h k. rw (read, there) refl
]

add_to_val-Harmless :
    (key : String) (by : ℤ) (s : Store) (v : StoreVal) → HarmlessReply s (add_to_val key by s v)
add_to_val-Harmless key by s (string v) = elim (Option-cases (parse_i64 v)) [
  | inl no_number ↦ λ h k. rw (add_to_val, no_number) refl
  | inr (n, number) ↦
      reply-Keeps is_error s (add_to_val key by s (string v))
        (rw (is_error, add_to_val, number) refl)
]
add_to_val-Harmless key by s (list xs) = λ h k. refl
add_to_val-Harmless key by s (hash m) = λ h k. refl

pub incr_by-Harmless :
    (now : ℕ) (key : String) (by : ℤ) (s : Store) → HarmlessReply s (incr_by now key by s)
unfolding incr_by
incr_by-Harmless now key by s =
    live-Keeps is_error now key s (add_to key (pos 0) by) (λ e t. add_to_val key by t e.val)
      (λ t. refl) (λ e. add_to_val-Harmless key by s e.val)

pub setnx-no_error :
    (now : ℕ) (key val : String) (s : Store) → is_error (setnx now key val s).1 ≡ false
unfolding setnx
setnx-no_error now key val s = ground (arith, Bool-cases (is_some (live now key s).1))

pub expire-no_error :
    (now later : ℕ) (key : String) (secs : ℕ) (s : Store)
    → is_error (expire now later key secs s).1 ≡ false
unfolding expire
expire-no_error now later key secs s = ground (arith, Option-cases (live now key s).1)

pub del_from-no_error :
    (n : ℕ) (ks : List String) (s : Store) → is_error (del_from n ks s).1 ≡ false
unfolding del_from
del_from-no_error n [] s = refl
del_from-no_error n (k ∷ ks) s =
    del_from-no_error (if Map.contains_key k s then n + 1 else n) ks (Map.remove k s)

pub mset-no_error : (pairs : List (String × String)) (s : Store) → is_error (mset pairs s).1 ≡ false
unfolding mset
mset-no_error [] s = refl
mset-no_error ((k, v) ∷ pairs) s = mset-no_error pairs (Map.insert k (lasting (string v)) s)

pub exists_from-no_error :
    (clock : ℕ → ℕ) (i n : ℕ) (ks : List String) (s : Store)
    → is_error (exists_from clock i n ks s).1 ≡ false
unfolding exists_from
exists_from-no_error clock i n [] s = refl
exists_from-no_error clock i n (k ∷ ks) s =
    let found = live (clock i) k s in
    exists_from-no_error clock (i + 1) (if is_some found.1 then n + 1 else n) ks found.0

-- A write of the entry that stands there.
rewrite-Harmless :
    (key : String) (e : Entry) (s : Store) (r : Resp)
    → Map.get key s ≡ some e
    → HarmlessReply s (Map.insert key e s, r)
rewrite-Harmless key e s r found h k = Map.get-insert_known key k e s found

push_val-Harmless :
    (f : List String → List String) (key : String) (s : Store) (e : Entry) (v : StoreVal)
    → Map.get key s ≡ some e
    → HarmlessReply s (push_val f key s e v)
push_val-Harmless f key s e (list xs) found = λ h k. absurd (ground arith)
push_val-Harmless f key s e (string v) found = rewrite-Harmless key e s wrong_list found
push_val-Harmless f key s e (hash m) found = rewrite-Harmless key e s wrong_list found

pub push_with-Harmless :
    (f : List String → List String) (key : String) (s : Store) → HarmlessReply s (push_with f key s)
push_with-Harmless f key s = elim (Option-cases (Map.get key s)) [
  | inl absent ↦ reply-Keeps is_error s (push_with f key s) (rw (is_error, push_with, absent) refl)
  | inr (e, found) ↦
      subst (λ d. HarmlessReply s (push_val f key s d d.val))
        (sym (ap (unwrap_or (lasting (list []))) found)) (push_val-Harmless f key s e e.val found)
]

write_val-Harmless :
    (key : String) (f : Map String String → Map String String × Resp) (s : Store) (e : Entry)
    (v : StoreVal)
    → ((h : Map String String) → is_error (f h).1 ≡ false)
    → Map.get key s ≡ some e
    → HarmlessReply s (write_val key f s e v)
write_val-Harmless key f s e (hash m) fine found = λ h k. absurd (ground (arith, fine m))
write_val-Harmless key f s e (string v) fine found = rewrite-Harmless key e s wrong_hash found
write_val-Harmless key f s e (list xs) fine found = rewrite-Harmless key e s wrong_hash found

-- The entry that a hash command writes to is a new one or the one that stands there.
hash_entry-cases :
    (now : ℕ) (key : String) (s : Store)
    → (hash_entry now key s ≡ lasting (hash [])) ⊎ (Map.get key s ≡ some (hash_entry now key s))
hash_entry-cases now key s = elim (Option-cases (Map.get key s)) [
  | inl absent ↦ inl (rw (hash_entry, absent) refl)
  | inr (e, found) ↦ elim (Bool-cases (is_expired now e)) [
    | inl dead ↦ inl (rw (hash_entry, found, dead) refl)
    | inr alive ↦ inr (rw (hash_entry, found, alive) refl)
  ]
]

pub write_hash-Harmless :
    (now : ℕ) (key : String) (f : Map String String → Map String String × Resp) (s : Store)
    → ((h : Map String String) → is_error (f h).1 ≡ false)
    → HarmlessReply s (write_hash now key f s)
write_hash-Harmless now key f s fine = elim (hash_entry-cases now key s) [
  | inl fresh ↦
      subst (λ d. HarmlessReply s (write_val key f s d d.val)) (sym fresh)
        (λ h k. absurd (ground (arith, fine [])))
  | inr found ↦ let e = hash_entry now key s in write_val-Harmless key f s e e.val fine found
]

remove_val-Harmless :
    (key : String) (fields : List String) (s : Store) (e : Entry) (v : StoreVal)
    → HarmlessReply s (remove_val key fields s e v)
remove_val-Harmless key fields s e (hash m) = λ h k. absurd (ground arith)
remove_val-Harmless key fields s e (string v) = λ h k. refl
remove_val-Harmless key fields s e (list xs) = λ h k. refl

pub hdel-Harmless :
    (now : ℕ) (key : String) (fields : List String) (s : Store)
    → HarmlessReply s (hdel now key fields s)
unfolding hdel
hdel-Harmless now key fields s =
    live-Keeps is_error now key s (λ t. (t, int 0)) (λ e t. remove_val key fields t e e.val)
      (λ t. refl) (λ e. remove_val-Harmless key fields s e e.val)

pub lrange-Harmless :
    (now : ℕ) (key : String) (start stop : ℤ) (s : Store) → Harmless s (lrange now key start stop s)
unfolding lrange
lrange-Harmless now key start stop s = elim (live-cases now key s) [
  | inl nothing ↦
      reply-Keeps failed s (lrange now key start stop s) (rw (failed, lrange, nothing) refl)
  | inr (e, there) ↦ λ h k. rw (lrange, there) refl
]
