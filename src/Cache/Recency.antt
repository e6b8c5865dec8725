-- ===== src/Cache/Recency.antt =====
-- What holds of every registry that the operations of the cache can reach: the clock of accesses is
-- never behind an entry.
use Prim.Native.Nat.{zero, suc}
use bridge_framework.Base.{
  ℕ, ◌+◌, ◌≤◌, String, Option, List, [], ◌∷◌, arith, Bool-cases, Option-cases, inl, inr, All,
  All-imp, Everywhere, Everywhere-nil, Everywhere-insert, length, string_eq, ◌==◌, filterb, ltb,
}
use bridge_framework.Base.Map
use bridge_framework.Base.Map.{Map, Distinct, insert-Distinct, remove-Distinct}
use bridge_framework.Glob.Backtrack.{glob_match}
use bridge_framework.Cache
use bridge_framework.Cache.{
  KeyspaceConfig, Entry, Keyspace, CacheRegistry, new, evict, victim, without, stored,
  empty_keyspace, default_config, keyspace_or_default, access, is_expired, sweep, missed, touched,
}

pub All-insert {ℓ} :
    (P : String × Entry → Type ℓ) (k : String) (e : Entry) (m : Map String Entry)
    → P (k, e)
    → All P m
    → All P (Map.insert k e m)
unfolding Map.insert
All-insert P k e [] p h = (p, tt)
All-insert P k e ((j, d) ∷ m) p h = elim (Bool-cases (j == k)) [
  | inl here ↦ rw (here, Map.insert) (p, h.1)
  | inr later ↦ rw (later, Map.insert) (h.0, All-insert P k e m p h.1)
]

pub All-remove {ℓ} :
    (P : String × Entry → Type ℓ) (k : String) (m : Map String Entry)
    → All P m
    → All P (Map.remove k m)
unfolding Map.remove
All-remove P k [] h = tt
All-remove P k ((j, d) ∷ m) h = elim (Bool-cases (j == k)) [
  | inl here ↦ rw (here, Map.remove) (All-remove P k m h.1)
  | inr later ↦ rw (later, Map.remove) (h.0, All-remove P k m h.1)
]

-- No key stands twice, and no entry was used after access number `seq`.
pub record IsSpace (seq : ℕ) (s : Keyspace) : Type 0 where
  pub distinct : Distinct s.map
  pub used : All (λ (e : String × Entry). e.1.last_access ≤ seq) s.map

pub record IsCoherent (r : CacheRegistry) : Type 0 where
  pub spaces : Everywhere (λ name. IsSpace r.op_seq) r.keyspaces

abbrev InRange : ℕ → String × Entry → Type 0
InRange seq e = e.1.last_access ≤ seq

pub IsSpace-later : {seq : ℕ} {s : Keyspace} → IsSpace seq s → IsSpace (seq + 1) s
IsSpace-later {seq} {s} i = record {
  distinct = i.distinct;
  used = All-imp (InRange seq) (InRange (seq + 1)) s.map (λ e h. omega arith) i.used;
}

empty-IsSpace : (seq : ℕ) (cfg : KeyspaceConfig) → IsSpace seq (empty_keyspace cfg)
empty-IsSpace seq cfg = record { distinct = tt; used = tt }

pub keyspace_or_default-IsSpace :
    (ks : String) {r : CacheRegistry} → IsCoherent r → IsSpace r.op_seq (keyspace_or_default ks r)
keyspace_or_default-IsSpace ks {r} w = elim (Option-cases (Map.get ks r.keyspaces)) [
  | inl absent ↦ rw absent (empty-IsSpace r.op_seq default_config)
  | inr (s, found) ↦ rw found (w.spaces.at ks s found)
]

pub without-IsSpace :
    (key : String) {seq : ℕ} {s : Keyspace} → IsSpace seq s → IsSpace seq (without key s)
without-IsSpace key {seq} {s} i = record {
  distinct = remove-Distinct key s.map i.distinct;
  used = All-remove (InRange seq) key s.map i.used;
}

pub stored-IsSpace :
    (now : ℕ) (key value : String) (ttl_ms : Option ℕ) {seq : ℕ} {s : Keyspace}
    → IsSpace seq s
    → IsSpace (seq + 1) (stored now (seq + 1) key value ttl_ms s)
stored-IsSpace now key value ttl_ms {seq} {s} i = record {
  distinct = insert-Distinct key _ s.map i.distinct;
  used = All-insert (InRange (seq + 1)) key _ s.map (omega arith) (IsSpace-later i).used;
}

evict-IsSpace :
    (f now n : ℕ) {seq : ℕ} {s : Keyspace} → IsSpace seq s → IsSpace seq (evict f now s n).0
unfolding evict
evict-IsSpace zero now n i = i
evict-IsSpace (suc f) now n {seq} {s} i = elim (Bool-cases (ltb s.cfg.max_entries (length s.map))) [
  | inr fits ↦ rw (fits, evict) i
  | inl full ↦ elim (Option-cases (victim now s.map)) [
    | inl nobody ↦ rw (full, evict, nobody) i
    | inr (e, chosen) ↦
        rw (full, evict, chosen) (evict-IsSpace f now (n + 1) (without-IsSpace e.0 i))
  ]
]

access-IsSpace :
    (now : ℕ) (key : String) {seq : ℕ} {s : Keyspace}
    → IsSpace seq s
    → IsSpace (seq + 1) (access now (seq + 1) key s).0
access-IsSpace now key {seq} {s} i = elim (Option-cases (Map.get key s.map)) [
  | inl absent ↦
      let j = IsSpace-later i in
      rw (absent, access) (record { distinct = j.distinct; used = j.used })
  | inr (e, found) ↦ elim (Bool-cases (is_expired now e)) [
    | inl dead ↦
        let j = IsSpace-later i in
        rw (found, access, dead)
          (record {
            distinct = remove-Distinct key s.map j.distinct;
            used = All-remove (InRange (seq + 1)) key s.map j.used;
          })
    | inr live ↦
        rw (found, access, live)
          (record {
            distinct = insert-Distinct key _ s.map i.distinct;
            used = All-insert (InRange (seq + 1)) key _ s.map (omega arith) (IsSpace-later i).used;
          })
  ]
]

sweep-IsSpace :
    (now seq : ℕ) (dead : List String) (m : Map String Entry) (n : ℕ)
    → Distinct m × All (InRange seq) m
    → Distinct (sweep now dead m n).0 × All (InRange seq) (sweep now dead m n).0
unfolding sweep
sweep-IsSpace now seq [] m n h = h
sweep-IsSpace now seq (k ∷ dead) m n h =
    sweep-IsSpace now seq dead (Map.remove k m) _
      (remove-Distinct k m h.0, All-remove (InRange seq) k m h.1)

-- One operation of the cache.
pub data Step : CacheRegistry → CacheRegistry → Type 0 where
  ensure_keyspace :
      (name : String) (cfg : KeyspaceConfig) (r : CacheRegistry)
      → Step r (Cache.ensure_keyspace name cfg r)
  set :
      (now : ℕ) (ks key value : String) (ttl_ms : Option ℕ) (r : CacheRegistry)
      → Step r (Cache.set now ks key value ttl_ms r).0
  get : (now : ℕ) (ks key : String) (r : CacheRegistry) → Step r (Cache.get now ks key r).0
  del : (now : ℕ) (ks key : String) (r : CacheRegistry) → Step r (Cache.del now ks key r).0
  invalidate_pattern :
      (now : ℕ) (ks pattern : String) (r : CacheRegistry)
      → Step r (Cache.invalidate_pattern now ks pattern r).0
  invalidate_all :
      (now : ℕ) (ks : String) (r : CacheRegistry) → Step r (Cache.invalidate_all now ks r).0

pub data Reach : CacheRegistry → Type 0 where
  start : Reach new
  next : {r s : CacheRegistry} → Reach r → Step r s → Reach s

spaces-later :
    {r : CacheRegistry} → IsCoherent r → Everywhere (λ name. IsSpace (r.op_seq + 1)) r.keyspaces
spaces-later w = record { at = λ k s h. IsSpace-later (w.spaces.at k s h) }

put-IsCoherent :
    (ks : String) (s : Keyspace) {r : CacheRegistry}
    → IsSpace r.op_seq s
    → IsCoherent r
    → IsCoherent (record r { keyspaces = Map.insert ks s r.keyspaces })
put-IsCoherent ks s {r} i w = record {
  spaces = Everywhere-insert (λ name. IsSpace r.op_seq) ks s i w.spaces;
}

pub set-IsCoherent :
    (now : ℕ) (ks key value : String) (ttl_ms : Option ℕ) {r : CacheRegistry}
    → IsCoherent r
    → IsCoherent (Cache.set now ks key value ttl_ms r).0
unfolding Cache.set
set-IsCoherent now ks key value ttl_ms {r} w = record {
  spaces =
      Everywhere-insert (λ name. IsSpace (r.op_seq + 1)) ks _
        (evict-IsSpace _ now 0
          (stored-IsSpace now key value ttl_ms (keyspace_or_default-IsSpace ks w)))
        (spaces-later w);
}

Step-IsCoherent : {r s : CacheRegistry} → Step r s → IsCoherent r → IsCoherent s
unfolding Cache.ensure_keyspace Cache.get Cache.del Cache.invalidate_pattern Cache.invalidate_all
Step-IsCoherent (ensure_keyspace name cfg r) w = elim (Option-cases (Map.get name r.keyspaces)) [
  | inl absent ↦
      rw (absent, Cache.ensure_keyspace)
        (record {
          spaces =
              Everywhere-insert (λ n. IsSpace r.op_seq) name _ (empty-IsSpace r.op_seq cfg)
                w.spaces;
        })
  | inr (s, found) ↦
      let i = w.spaces.at name s found in
      rw (found, Cache.ensure_keyspace)
        (put-IsCoherent name _ (record { distinct = i.distinct; used = i.used }) w)
]
Step-IsCoherent (set now ks key value ttl_ms r) w = set-IsCoherent now ks key value ttl_ms w
Step-IsCoherent (get now ks key r) w = elim (Option-cases (Map.get ks r.keyspaces)) [
  | inl absent ↦ rw (absent, Cache.get) (record { spaces = spaces-later w })
  | inr (s, found) ↦
      rw (found, Cache.get)
        (record {
          spaces =
              Everywhere-insert (λ name. IsSpace (r.op_seq + 1)) ks _
                (access-IsSpace now key (w.spaces.at ks s found)) (spaces-later w);
        })
]
Step-IsCoherent (del now ks key r) w = elim (Option-cases (Map.get ks r.keyspaces)) [
  | inl absent ↦ rw (absent, Cache.del) w
  | inr (s, found) ↦
      let i = w.spaces.at ks s found in
      rw (found, Cache.del)
        (put-IsCoherent ks _
          (record {
            distinct = remove-Distinct key s.map i.distinct;
            used = All-remove (InRange r.op_seq) key s.map i.used;
          })
          w)
]
Step-IsCoherent (invalidate_pattern now ks pattern r) w =
    elim (Option-cases (Map.get ks r.keyspaces)) [
      | inl absent ↦ rw (absent, Cache.invalidate_pattern) w
      | inr (s, found) ↦
          let i = w.spaces.at ks s found in
          let j =
            sweep-IsSpace now r.op_seq (filterb (glob_match pattern) (Map.keys s.map)) s.map 0
              (i.distinct, i.used) in
          rw (found, Cache.invalidate_pattern)
            (put-IsCoherent ks _ (record { distinct = j.0; used = j.1 }) w)
    ]
Step-IsCoherent (invalidate_all now ks r) w = elim (Option-cases (Map.get ks r.keyspaces)) [
  | inl absent ↦ rw (absent, Cache.invalidate_all) w
  | inr (s, found) ↦
      rw (found, Cache.invalidate_all) (put-IsCoherent ks _ (record { distinct = tt; used = tt }) w)
]

-- In every registry that the operations can reach no key stands twice in a keyspace, and the clock
-- of accesses is at or past the last access of every entry.
pub Reach-IsCoherent : {r : CacheRegistry} → Reach r → IsCoherent r
Reach-IsCoherent start = record { spaces = Everywhere-nil (λ name. IsSpace 0) }
Reach-IsCoherent (next h s) = Step-IsCoherent s (Reach-IsCoherent h)
