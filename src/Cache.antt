-- ===== src/Cache.antt =====
-- The in-process cache of daemon/src/cache.rs: named keyspaces of entries with deadlines, a bound
-- on the entries of each, and the eviction that keeps it. A method takes its reading of the clock
-- first; a hash map iterates in the order of its list. The 64-bit counters are unbounded here; the
-- deadline saturates as it does there.
pub mod Evict
pub mod Recency
pub mod Fresh
pub mod Invalidate
mod Tests
use Prim.Native.Nat.{suc, zero}
use bridge_framework.Base.{
  ℕ, ◌+◌, ◌-◌, ◌^◌, Bool, true, false, not, String, Option, none, some, List, [], ◌∷◌, length, push,
  filterb, countb, find_first, unwrap_or, map_some, leb, ltb, if◌then◌else◌, string_eq, ◌==◌,
  nat_eq,
}
use bridge_framework.Base.Map
use bridge_framework.Base.Map.{Map}
use bridge_framework.Glob.Backtrack.{glob_match}

pub record KeyspaceConfig : Type 0 where
  pub max_entries : ℕ
  pub default_ttl_ms : ℕ

abbrev pub default_config : KeyspaceConfig
default_config = record { max_entries = 10000; default_ttl_ms = 300000 }

pub record Entry : Type 0 where
  pub value : String
  pub expires_at : Option ℕ
  pub last_access : ℕ

abbrev pub is_expired : ℕ → Entry → Bool
is_expired now e = elim e.expires_at [ none ↦ false | some t ↦ leb t now ]

pub record KeyspaceStats : Type 0 where
  pub hits : ℕ
  pub misses : ℕ
  pub evictions : ℕ

pub record Keyspace : Type 0 where
  pub cfg : KeyspaceConfig
  pub map : Map String Entry
  pub stats : KeyspaceStats

abbrev pub no_stats : KeyspaceStats
no_stats = record { hits = 0; misses = 0; evictions = 0 }

abbrev pub empty_keyspace : KeyspaceConfig → Keyspace
empty_keyspace cfg = record { cfg = cfg; map = []; stats = no_stats }

pub record CacheRegistry : Type 0 where
  pub op_seq : ℕ
  pub keyspace_order : List String
  pub keyspaces : Map String Keyspace

abbrev pub new : CacheRegistry
new = record { op_seq = 0; keyspace_order = []; keyspaces = [] }

unfoldable pub ensure_keyspace : String → KeyspaceConfig → CacheRegistry → CacheRegistry
ensure_keyspace name cfg r = elim (Map.get name r.keyspaces) [
  | some ks ↦ record r { keyspaces = Map.insert name (record ks { cfg = cfg }) r.keyspaces }
  | none ↦ record r {
    keyspace_order = push r.keyspace_order name;
    keyspaces = Map.insert name (empty_keyspace cfg) r.keyspaces;
  }
]

abbrev pub has_keyspace : String → CacheRegistry → Bool
has_keyspace name r = Map.contains_key name r.keyspaces

-- `min_by_key` by the last access: the first of the least.
unfoldable pub oldest_from : String × Entry → Map String Entry → String × Entry
oldest_from best [] = best
oldest_from best (e ∷ m) =
    oldest_from (if ltb e.1.last_access best.1.last_access then e else best) m

abbrev pub oldest : Map String Entry → Option (String × Entry)
oldest [] = none
oldest (e ∷ m) = some (oldest_from e m)

-- An expired entry before the one that has not been used for longest.
abbrev pub victim : ℕ → Map String Entry → Option (String × Entry)
victim now m = elim (find_first (λ e. is_expired now e.1) m) [ none ↦ oldest m | some e ↦ some e ]

abbrev pub without : String → Keyspace → Keyspace
without key s =
    let stats = s.stats in
    record s {
      map = Map.remove key s.map;
      stats = record stats { evictions = stats.evictions + 1 };
    }

-- The loop that enforces the capacity, on fuel, with the number of entries evicted so far.
unfoldable pub evict : ℕ → ℕ → Keyspace → ℕ → Keyspace × ℕ
unfolding oldest_from
evict zero now s evicted = (s, evicted)
evict (suc f) now s evicted =
    if ltb s.cfg.max_entries (length s.map)
    then (elim (victim now s.map) [
      | none ↦ (s, evicted)
      | some e ↦ evict f now (without e.0 s) (evicted + 1)
    ])
    else (s, evicted)

abbrev pub saturating_add : ℕ → ℕ → ℕ
saturating_add a b = if ltb (a + b) (2 ^ 64) then a + b else 2 ^ 64 - 1

-- The deadline of an entry, from the time to live that applies.
abbrev pub deadline : ℕ → ℕ → Option ℕ
deadline now ttl = if ttl == 0 then none else some (saturating_add now ttl)

-- `entry(ks).or_insert_with(…)`
abbrev pub keyspace_or_default : String → CacheRegistry → Keyspace
keyspace_or_default ks r = unwrap_or (empty_keyspace default_config) (Map.get ks r.keyspaces)

abbrev pub stored : ℕ → ℕ → String → String → Option ℕ → Keyspace → Keyspace
stored now seq key value ttl_ms s = record s {
  map =
      Map.insert key
        (record {
          value = value;
          expires_at = deadline now (unwrap_or s.cfg.default_ttl_ms ttl_ms);
          last_access = seq;
        })
        s.map;
}

unfoldable pub set : ℕ → String → String → String → Option ℕ → CacheRegistry → CacheRegistry × ℕ
unfolding evict
set now ks key value ttl_ms r =
    let space = stored now (r.op_seq + 1) key value ttl_ms (keyspace_or_default ks r) in
    let done = evict (length space.map) now space 0 in
    (record r { op_seq = r.op_seq + 1; keyspaces = Map.insert ks done.0 r.keyspaces }, done.1)

abbrev pub missed : Keyspace → Keyspace
missed s = let stats = s.stats in record s { stats = record stats { misses = stats.misses + 1 } }

abbrev pub touched : ℕ → String → Entry → Keyspace → Keyspace
touched seq key e s =
    let stats = s.stats in
    record s {
      map = Map.insert key (record e { last_access = seq }) s.map;
      stats = record stats { hits = stats.hits + 1 };
    }

-- What a lookup does to a keyspace, and what it returns.
abbrev pub access : ℕ → ℕ → String → Keyspace → Keyspace × Option String
access now seq key s = elim (Map.get key s.map) [
  | none ↦ (missed s, none)
  | some e ↦
      if is_expired now e
      then (missed (record s { map = Map.remove key s.map }), none)
      else (touched seq key e s, some e.value)
]

unfoldable pub get : ℕ → String → String → CacheRegistry → CacheRegistry × Option String
get now ks key r = elim (Map.get ks r.keyspaces) [
  | none ↦ (record r { op_seq = r.op_seq + 1 }, none)
  | some space ↦
      let found = access now (r.op_seq + 1) key space in
      (record r { op_seq = r.op_seq + 1; keyspaces = Map.insert ks found.0 r.keyspaces }, found.1)
]

unfoldable pub del : ℕ → String → String → CacheRegistry → CacheRegistry × Bool
del now ks key r = elim (Map.get ks r.keyspaces) [
  | none ↦ (r, false)
  | some space ↦ (
    record r {
      keyspaces = Map.insert ks (record space { map = Map.remove key space.map }) r.keyspaces;
    },
    unwrap_or false (map_some (λ e. not (is_expired now e)) (Map.get key space.map)),
  )
]

-- The loop of `invalidate_pattern` over the keys that match, with the count so far. The keys come
-- from the map, where each stands once, so that each is still there when the loop looks it up.
unfoldable pub sweep : ℕ → List String → Map String Entry → ℕ → Map String Entry × ℕ
sweep now [] m n = (m, n)
sweep now (k ∷ dead) m n =
    let live = unwrap_or false (map_some (λ e. not (is_expired now e)) (Map.get k m)) in
    sweep now dead (Map.remove k m) (if live then n + 1 else n)

unfoldable pub invalidate_pattern : ℕ → String → String → CacheRegistry → CacheRegistry × ℕ
unfolding sweep
invalidate_pattern now ks pattern r = elim (Map.get ks r.keyspaces) [
  | none ↦ (r, 0)
  | some space ↦
      let swept = sweep now (filterb (glob_match pattern) (Map.keys space.map)) space.map 0 in
      (record r { keyspaces = Map.insert ks (record space { map = swept.0 }) r.keyspaces }, swept.1)
]

abbrev pub live_count : ℕ → Keyspace → ℕ
live_count now s = countb (λ e. not (is_expired now e.1)) s.map

unfoldable pub invalidate_all : ℕ → String → CacheRegistry → CacheRegistry × ℕ
invalidate_all now ks r = elim (Map.get ks r.keyspaces) [
  | none ↦ (r, 0)
  | some space ↦ (
    record r { keyspaces = Map.insert ks (record space { map = [] }) r.keyspaces },
    live_count now space,
  )
]

-- One reading of the clock for each key, in order.
unfoldable pub mget :
    (ℕ → ℕ) → ℕ → String → List String → CacheRegistry → CacheRegistry × List (Option String)
unfolding get
mget clock i ks [] r = (r, [])
mget clock i ks (k ∷ keys) r =
    let one = get (clock i) ks k r in
    let rest = mget clock (i + 1) ks keys one.0 in (rest.0, one.1 ∷ rest.1)

unfoldable pub mset :
    (ℕ → ℕ) → ℕ → String → List (String × String) → Option ℕ → CacheRegistry → CacheRegistry
unfolding set
mset clock i ks [] ttl_ms r = r
mset clock i ks ((k, v) ∷ pairs) ttl_ms r =
    mset clock (i + 1) ks pairs ttl_ms (set (clock i) ks k v ttl_ms r).0
