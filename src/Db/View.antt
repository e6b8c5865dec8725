-- ===== src/Db/View.antt =====
-- The abstract view of a store, the entry at a namespace and a key, and what each write does to it.
use bridge_framework.Base.{
  ℕ, ◌+◌, ◌-◌, ◌≡◌, refl, ◌&&◌, not, String, Option, none, some, [], ◌∷◌, arith, ◌==◌, string_eq,
  if◌then◌else◌, map_some, is_some, length, Option-cases, inl, inr, ==_iff,
}
use bridge_framework.Base.Map
use bridge_framework.Base.Map.{
  Map, Distinct, get-insert, get-update, get-remove, get-retain, insert-Distinct, update-Distinct,
  remove-Distinct, retain-Distinct,
}
use bridge_framework.Db.{
  Namespace, Db, namespace_or_default, entry, live_entry, put, put_with_ttl, del, flush_ns, expire,
  persist, purge_expired, set_deadline, purge_from,
}
use bridge_framework.Db.Entries
use bridge_framework.Db.Entries.{Entry, is_expired}

-- A write of one entry through `entry(ns).or_default()`.
write : String → String → Entry → Db → Db
write ns key e db = Map.insert ns (Map.insert key e (namespace_or_default ns db)) db

get-namespace_or_default :
    (ns key : String) (db : Db) → Map.get key (namespace_or_default ns db) ≡ entry ns key db
unfolding Map.get
get-namespace_or_default ns key db = ground arith

entry-write :
    (ns key : String) (e : Entry) (db : Db) (ns' key' : String)
    → entry ns' key' (write ns key e db)
      ≡ (if ns == ns' && key == key' then some e else entry ns' key' db)
unfolding write
entry-write ns key e db ns' key' = ground (
  arith,
  ==_iff ns ns',
  get-namespace_or_default ns key' db,
  get-insert ns' ns (Map.insert key e (namespace_or_default ns db)) db,
  get-insert key' key e (namespace_or_default ns db),
)

pub entry-put :
    (ns key value : String) (db : Db) (ns' key' : String)
    → entry ns' key' (put ns key value db)
      ≡ (if ns == ns' && key == key' then some (Entries.new value) else entry ns' key' db)
unfolding put write
entry-put ns key value db = entry-write ns key (Entries.new value) db

pub entry-put_with_ttl :
    (now : ℕ) (ns key value : String) (ttl : ℕ) (db : Db) (ns' key' : String)
    → entry ns' key' (put_with_ttl now ns key value ttl db) ≡ (
        if ns == ns' && key == key'
        then some (Entries.with_ttl now value ttl)
        else entry ns' key' db)
unfolding put_with_ttl write
entry-put_with_ttl now ns key value ttl db = entry-write ns key (Entries.with_ttl now value ttl) db

pub entry-del :
    (ns key : String) (db : Db) (ns' key' : String)
    → entry ns' key' (del ns key db).0
      ≡ (if ns == ns' && key == key' then none else entry ns' key' db)
unfolding del
entry-del ns key db ns' key' = elim (Option-cases (Map.get ns' db)) [
  | inl absent ↦ ground (arith, get-update ns' ns (Map.remove key) db, absent)
  | inr (space, found) ↦
      ground (arith, get-update ns' ns (Map.remove key) db, found, get-remove key' key space)
]

pub entry-flush_ns :
    (ns : String) (db : Db) (ns' key' : String)
    → entry ns' key' (flush_ns ns db).0 ≡ (if ns == ns' then none else entry ns' key' db)
unfolding flush_ns Map.get
entry-flush_ns ns db ns' key' =
    ground (arith, ==_iff ns ns', get-update ns' ns (λ (s : Namespace). []) db)

-- A write through `get_mut` at a key of a namespace.
entry-change :
    (ns key : String) (f : Entry → Entry) (db : Db) (ns' key' : String)
    → entry ns' key' (Map.update ns (Map.update key f) db)
      ≡ (if ns == ns' && key == key' then map_some f (entry ns' key' db) else entry ns' key' db)
entry-change ns key f db ns' key' = elim (Option-cases (Map.get ns' db)) [
  | inl absent ↦ ground (arith, get-update ns' ns (Map.update key f) db, absent)
  | inr (space, found) ↦
      ground (arith, get-update ns' ns (Map.update key f) db, found, get-update key' key f space)
]

abbrev pub with_deadline : Option ℕ → Entry → Entry
with_deadline deadline e = record e { expires_at = deadline }

-- `expire` and `persist` change the deadline of an entry that is live, and nothing else.
entry-set_deadline :
    (now : ℕ) (deadline : Option ℕ) (ns key : String) (db : Db) (ns' key' : String)
    → entry ns' key' (set_deadline now deadline ns key db).0 ≡ (
        if ns == ns' && key == key' && is_some (live_entry now ns key db)
        then map_some (with_deadline deadline) (entry ns' key' db)
        else entry ns' key' db)
unfolding set_deadline
entry-set_deadline now deadline ns key db ns' key' =
    elim (Option-cases (live_entry now ns key db)) [
      | inl dead ↦ rw dead (ground arith)
      | inr (e, live) ↦
          rw live (ground (arith, entry-change ns key (with_deadline deadline) db ns' key'))
    ]

pub get-purge_from :
    (now total : ℕ) (db : Db) (ns : String)
    → Map.get ns (purge_from now total db).0
      ≡ map_some (Map.retain (λ k e. not (is_expired now e))) (Map.get ns db)
unfolding purge_from Map.get
get-purge_from now total [] ns = refl
get-purge_from now total ((j, space) ∷ db) ns = ground (
  arith,
  get-purge_from now
      (total
        + (length space
            - length (Map.retain (λ (k : String) (e : Entry). not (is_expired now e)) space)))
      db ns,
)

pub entry-expire :
    (now later : ℕ) (ns key : String) (ttl : ℕ) (db : Db) (ns' key' : String)
    → entry ns' key' (expire now later ns key ttl db).0 ≡ (
        if ns == ns' && key == key' && is_some (live_entry now ns key db)
        then map_some (with_deadline (some (later + ttl))) (entry ns' key' db)
        else entry ns' key' db)
unfolding expire
entry-expire now later ns key ttl db = entry-set_deadline now (some (later + ttl)) ns key db

pub entry-persist :
    (now : ℕ) (ns key : String) (db : Db) (ns' key' : String)
    → entry ns' key' (persist now ns key db).0 ≡ (
        if ns == ns' && key == key' && is_some (live_entry now ns key db)
        then map_some (with_deadline none) (entry ns' key' db)
        else entry ns' key' db)
unfolding persist
entry-persist now ns key db = entry-set_deadline now none ns key db

pub get-purge_expired :
    (now : ℕ) (db : Db) (ns : String)
    → Map.get ns (purge_expired now db).0
      ≡ map_some (Map.retain (λ k e. not (is_expired now e))) (Map.get ns db)
unfolding purge_expired
get-purge_expired now db ns = get-purge_from now 0 db ns
