-- ===== src/MiniRedis.antt =====
-- The embedded Redis of miniredis/src/lib.rs: its replies, its store, and the operations of
-- `Store` in the children. An operation takes the reading of the clock that it makes first, and
-- returns the store beside its reply. What panics in the source is the outcome `panicked`.
pub mod Texts
pub mod Lists
pub mod Hashes
pub mod Patterns
pub mod Dispatch
pub mod Live
pub mod Counters
pub mod Pushes
pub mod Errors
mod Tests
use bridge_framework.Base.{
  ℕ, ◌+◌, Bool, true, false, String, Option, none, some, List, [], ◌∷◌, leb, if◌then◌else◌,
  string_eq, ℤ, pos,
}
use bridge_framework.Base.Map
use bridge_framework.Base.Map.{Map}

-- A reply; an array of replies is a type of its own.
mutual
  pub data Resp : Type 0 where
    simple_string : String → Resp
    error : String → Resp
    integer : ℤ → Resp
    bulk_string : Option String → Resp
    array : Resps → Resp

  pub data Resps : Type 0 where
    no_resps : Resps
    resp : Resp → Resps → Resps

abbrev pub ok_reply : Resp
ok_reply = simple_string "OK"

abbrev pub null : Resp
null = bulk_string none

abbrev pub bulk : String → Resp
bulk s = bulk_string (some s)

abbrev pub int : ℕ → Resp
int n = integer (pos n)

abbrev pub replies : List Resp → Resps
replies [] = no_resps
replies (r ∷ rs) = resp r (replies rs)

abbrev pub bulks : List String → Resps
bulks [] = no_resps
bulks (s ∷ ss) = resp (bulk s) (bulks ss)

pub data Outcome : Type 0 where
  reply : Resp → Outcome
  panicked : Outcome

pub data StoreVal : Type 0 where
  string : String → StoreVal
  list : List String → StoreVal
  hash : Map String String → StoreVal

pub record Entry : Type 0 where
  pub val : StoreVal
  pub expires_at : Option ℕ

abbrev pub lasting : StoreVal → Entry
lasting v = record { val = v; expires_at = none }

abbrev pub str_ex : ℕ → String → ℕ → Entry
str_ex now v ttl = record { val = string v; expires_at = some (now + ttl) }

abbrev pub is_expired : ℕ → Entry → Bool
is_expired now e = elim e.expires_at [ none ↦ false | some t ↦ leb t now ]

abbrev pub type_name : Entry → String
type_name e = elim e.val [ string v ↦ "string" | list l ↦ "list" | hash h ↦ "hash" ]

abbrev pub Store : Type 0
Store = Map String Entry

-- `live` and `live_mut`: the entry of a key, which goes if it has expired.
unfoldable pub live : ℕ → String → Store → Store × Option Entry
live now key s = elim (Map.get key s) [
  | none ↦ (s, none)
  | some e ↦ if is_expired now e then (Map.remove key s, none) else (s, some e)
]

abbrev pub wrong_string : Resp
wrong_string = error "WRONGTYPE not a string"

abbrev pub wrong_list : Resp
wrong_list = error "WRONGTYPE not a list"

abbrev pub wrong_hash : Resp
wrong_hash = error "WRONGTYPE not a hash"

-- A command that only reads a live entry, and what it replies where there is none.
abbrev pub read : ℕ → String → Resp → (Entry → Resp) → Store → Store × Resp
read now key absent f s =
    let found = live now key s in (found.0, elim found.1 [ none ↦ absent | some e ↦ f e ])
