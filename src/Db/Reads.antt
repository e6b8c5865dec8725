-- ===== src/Db/Reads.antt =====
-- What the readers of the store answer.
use bridge_framework.Base.{
  ℕ, ◌+◌, ◌-◌, ◌≤◌, ◌<◌, ◌≡◌, refl, ap, ◌∙◌, ◌&&◌, not, true, String, Option, none, some, arith,
  ◌==◌, string_eq, if◌then◌else◌, keep_if, is_some, is_some-map_some, Option-cases, inl, inr,
  ==_self, leb, contains, contains-keys, contains-filterb, keys-NoRepeats, NoRepeats,
}
use bridge_framework.Base.Map
use bridge_framework.Base.Map.{Map, Distinct, get-retain, retain-Distinct}
use bridge_framework.Glob.Table.{glob_match}
use bridge_framework.Db.{
  Namespace, Db, entry, live_entry, set_deadline, put, put_with_ttl, get, del, flush_ns, keys,
  keys_matching, exists, ttl, expire, purge_expired,
}
use bridge_framework.Db.Entries.{Entry, is_expired, remaining_ttl}
use bridge_framework.Db.View.{
  entry-put, entry-put_with_ttl, entry-del, entry-flush_ns, entry-expire, get-purge_expired,
}
use bridge_framework.Db.WellFormed.{IsWellFormed}

-- A read after a `put` gives the value at the key that was written, at whatever time, and what was
-- there before at every other.
pub get-put :
    (t : ℕ) (ns key value : String) (db : Db) (ns' key' : String)
    → get t ns' key' (put ns key value db)
      ≡ (if ns == ns' && key == key' then some value else get t ns' key' db)
unfolding get is_expired
get-put t ns key value db ns' key' = ground (arith, entry-put ns key value db ns' key')

-- A read at `t` after a `put_with_ttl` at `now` gives the value while `t` is not past `now + ttl`
-- and nothing after that, and at every other key what was there before.
pub get-put_with_ttl :
    (t now : ℕ) (ns key value : String) (ttl : ℕ) (db : Db) (ns' key' : String)
    → get t ns' key' (put_with_ttl now ns key value ttl db) ≡ (
        if ns == ns' && key == key'
        then (if leb t (now + ttl) then some value else none)
        else get t ns' key' db)
unfolding get is_expired
get-put_with_ttl t now ns key value ttl db ns' key' =
    ground (arith, entry-put_with_ttl now ns key value ttl db ns' key')

-- After `del` the key is gone at every time, and every other key reads as before.
pub get-del :
    (t : ℕ) (ns key : String) (db : Db) (ns' key' : String)
    → get t ns' key' (del ns key db).0
      ≡ (if ns == ns' && key == key' then none else get t ns' key' db)
unfolding get
get-del t ns key db ns' key' = ground (arith, entry-del ns key db ns' key')

-- After `flush_ns` nothing of the namespace is left, and the others read as before.
pub get-flush_ns :
    (t : ℕ) (ns : String) (db : Db) (ns' key' : String)
    → get t ns' key' (flush_ns ns db).0 ≡ (if ns == ns' then none else get t ns' key' db)
unfolding get
get-flush_ns t ns db ns' key' = ground (arith, entry-flush_ns ns db ns' key')

contains-live_keys :
    (t : ℕ) (k : String) (space : Namespace)
    → Distinct space
    → contains k (Map.keys (Map.retain (λ k e. not (is_expired t e)) space))
      ≡ is_some (keep_if (λ e. not (is_expired t e)) (Map.get k space))
contains-live_keys t k space d =
    contains-keys k (Map.retain (λ k e. not (is_expired t e)) space)
    ∙ ap is_some (get-retain k (λ k e. not (is_expired t e)) space d)

-- On a well-formed store `keys` lists a key exactly when it exists, that is, when a read finds it;
-- and it lists none twice.
pub keys-exists :
    (t : ℕ) (ns : String) {db : Db}
    → IsWellFormed db
    → ((k : String) → contains k (keys t ns db) ≡ exists t ns k db) × NoRepeats (keys t ns db)
unfolding keys exists get
keys-exists t ns {db} w = elim (Option-cases (Map.get ns db)) [
  | inl absent ↦ rw (absent, keys) ((λ k. refl), tt)
  | inr (space, found) ↦
      let live : Namespace = Map.retain (λ k e. not (is_expired t e)) space in
      let d = w.spaces ns space found in
      rw (found, keys)
        (
          λ k. rw is_some-map_some (contains-live_keys t k space d),
          keys-NoRepeats live (retain-Distinct (λ k e. not (is_expired t e)) space d),
        )
]

-- On a well-formed store `keys_matching` lists a key exactly when it exists and its characters match
-- the pattern.
pub keys_matching-exists :
    (t : ℕ) (ns pattern : String) {db : Db}
    → IsWellFormed db
    → (k : String)
    → contains k (keys_matching t ns pattern db) ≡ (exists t ns k db && glob_match pattern k)
unfolding keys_matching
keys_matching-exists t ns pattern {db} w k =
    contains-filterb (glob_match pattern) k (keys t ns db)
    ∙ ap (λ b. b && glob_match pattern k) ((keys-exists t ns w).0 k)

still_live :
    (t later : ℕ) (o : Option Entry)
    → t ≤ later
    → keep_if (λ e. not (is_expired later e)) (keep_if (λ e. not (is_expired t e)) o)
      ≡ keep_if (λ e. not (is_expired later e)) o
unfolding is_expired
still_live t later none h = refl
still_live t later (some e) h = ground arith

-- On a well-formed store to purge what has expired at `t` changes no read at `t` or later.
pub get-purge_expired_le :
    (t later : ℕ) (ns key : String) {db : Db}
    → IsWellFormed db
    → t ≤ later
    → get later ns key (purge_expired t db).0 ≡ get later ns key db
unfolding get
get-purge_expired_le t later ns key {db} w h = elim (Option-cases (Map.get ns db)) [
  | inl absent ↦ ground (arith, get-purge_expired t db ns)
  | inr (space, found) ↦ rw (
    get-purge_expired t db ns,
    found,
    get-retain key (λ k e. not (is_expired t e)) space (w.spaces ns space found),
    still_live t later (Map.get key space) h,
  )
]

expire-live :
    (now later : ℕ) (ns key : String) (d : ℕ) (db : Db)
    → (expire now later ns key d db).1 ≡ is_some (live_entry now ns key db)
unfolding expire set_deadline
expire-live now later ns key d db = elim (Option-cases (live_entry now ns key db)) [
  | inl dead ↦ rw (dead, set_deadline) refl
  | inr (e, live) ↦ rw (live, set_deadline) refl
]

-- A key that has been given a time to live at `now` shows, at a later reading before its deadline,
-- the time that is left.
pub ttl-expire :
    (now later t u : ℕ) (ns key : String) (d : ℕ) (db : Db)
    → (expire now later ns key d db).1 ≡ true
    → t ≤ later + d
    → u < later + d
    → ttl t u ns key (expire now later ns key d db).0 ≡ some (some (later + d - u))
unfolding ttl is_expired remaining_ttl
ttl-expire now later t u ns key d db done h k =
    let live = expire-live now later ns key d db in
    elim (Option-cases (entry ns key db)) [
      | inl absent ↦ absurd (ground arith)
      | inr (e, found) ↦
          ground (arith, entry-expire now later ns key d db ns key, ==_self ns, ==_self key)
    ]

-- At the very instant of its deadline a key is still there, and `ttl` answers as it does for a key
-- that has no deadline.
pub ttl-deadline :
    (ns key : String) (e : Entry) (d : ℕ) (db : Db)
    → entry ns key db ≡ some e
    → e.expires_at ≡ some d
    → (ttl d d ns key db ≡ some none)
      × (get d ns key db ≡ some e.value)
      × (get (d + 1) ns key db ≡ none)
unfolding ttl get is_expired remaining_ttl
ttl-deadline ns key e d db found limit = ground arith
