-- ===== src/Db.antt =====
-- The key-value store of db/src/lib.rs: namespaces of entries with optional deadlines. An operation
-- that reads the clock takes the reading as its first argument (`Instant`s and `Duration`s are
-- numbers of one unit); an operation that writes returns the new store beside its result.
pub mod Entries
pub mod TxOp
pub mod Transaction
pub mod View
pub mod WellFormed
pub mod Reads
pub mod Counts
pub mod Commit
pub mod Tests
use bridge_framework.Base.{
  ℕ, ◌+◌, ◌-◌, Bool, true, false, not, String, Option, none, some, List, [], ◌∷◌, length, filterb,
  ltb, if◌then◌else◌, is_some, keep_if, unwrap_or, map_some, and_then, string_eq,
}
use bridge_framework.Base.Map
use bridge_framework.Base.Map.{Map}
use bridge_framework.Glob.Table.{glob_match}
use Entries
use Entries.{Entry, is_expired, remaining_ttl}

abbrev pub Namespace : Type 0
Namespace = Map String Entry

abbrev pub Db : Type 0
Db = Map String Namespace

abbrev pub new : Db
new = []

-- `entry(ns).or_default()`
abbrev pub namespace_or_default : String → Db → Namespace
namespace_or_default ns db = unwrap_or [] (Map.get ns db)

unfoldable pub put : String → String → String → Db → Db
put ns key value db =
    Map.insert ns (Map.insert key (Entries.new value) (namespace_or_default ns db)) db

unfoldable pub put_with_ttl : ℕ → String → String → String → ℕ → Db → Db
put_with_ttl now ns key value ttl db =
    Map.insert ns (Map.insert key (Entries.with_ttl now value ttl) (namespace_or_default ns db)) db

-- The raw lookup that the readers share: an entry, live or not.
abbrev pub entry : String → String → Db → Option Entry
entry ns key db = and_then (Map.get ns db) (Map.get key)

abbrev pub live_entry : ℕ → String → String → Db → Option Entry
live_entry now ns key db = keep_if (λ e. not (is_expired now e)) (entry ns key db)

unfoldable pub get : ℕ → String → String → Db → Option String
get now ns key db = map_some (λ e. e.value) (live_entry now ns key db)

unfoldable pub del : String → String → Db → Db × Bool
del ns key db = (Map.update ns (Map.remove key) db, is_some (entry ns key db))

unfoldable pub keys : ℕ → String → Db → List String
keys now ns db = elim (Map.get ns db) [
  | none ↦ []
  | some space ↦ Map.keys (Map.retain (λ k e. not (is_expired now e)) space)
]

unfoldable pub keys_matching : ℕ → String → String → Db → List String
unfolding keys
keys_matching now ns pattern db = filterb (glob_match pattern) (keys now ns db)

unfoldable pub flush_ns : String → Db → Db × ℕ
flush_ns ns db = elim (Map.get ns db) [
  | none ↦ (db, 0)
  | some space ↦ (Map.update ns (λ _. []) db, length space)
]

total_length : Db → ℕ
total_length [] = 0
total_length ((ns, space) ∷ db) = length space + total_length db

unfoldable pub flush_all : Db → Db × ℕ
unfolding total_length
flush_all db = ([], total_length db)

-- The clock is read once for the filter and once more for the remaining time.
unfoldable pub ttl : ℕ → ℕ → String → String → Db → Option (Option ℕ)
ttl now later ns key db = map_some (remaining_ttl later) (live_entry now ns key db)

-- The write of `expire` and `persist` through `get_mut`, on a live entry only.
pub set_deadline : ℕ → Option ℕ → String → String → Db → Db × Bool
set_deadline now deadline ns key db = elim (live_entry now ns key db) [
  | none ↦ (db, false)
  | some e ↦ (Map.update ns (Map.update key (λ e'. record e' { expires_at = deadline })) db, true)
]

unfoldable pub expire : ℕ → ℕ → String → String → ℕ → Db → Db × Bool
unfolding set_deadline
expire now later ns key ttl db = set_deadline now (some (later + ttl)) ns key db

unfoldable pub persist : ℕ → String → String → Db → Db × Bool
unfolding set_deadline
persist now ns key db = set_deadline now none ns key db

unfoldable pub exists : ℕ → String → String → Db → Bool
unfolding get
exists now ns key db = is_some (get now ns key db)

unfoldable pub count : ℕ → String → Db → ℕ
unfolding keys
count now ns db = length (keys now ns db)

-- The loop of `purge_expired`, with its running total.
pub purge_from : ℕ → ℕ → Db → Db × ℕ
purge_from now total [] = ([], total)
purge_from now total ((ns, space) ∷ db) =
    let kept = Map.retain (λ k e. not (is_expired now e)) space in
    let (rest, n) = purge_from now (total + (length space - length kept)) db in
    ((ns, kept) ∷ rest, n)

unfoldable pub purge_expired : ℕ → Db → Db × ℕ
unfolding purge_from
purge_expired now db = purge_from now 0 db

abbrev pub namespaces : Db → List String
namespaces = Map.keys

pub record DbStats : Type 0 where
  pub namespaces : ℕ
  pub total_entries : ℕ
  pub expired_entries : ℕ
  pub live_entries : ℕ

-- The two nested loops of `stats` over the pair of counters.
count_entries : ℕ → Namespace → ℕ × ℕ → ℕ × ℕ
count_entries now [] (total, expired) = (total, expired)
count_entries now ((k, e) ∷ space) (total, expired) =
    count_entries now space (total + 1, if is_expired now e then expired + 1 else expired)

count_namespaces : ℕ → Db → ℕ × ℕ → ℕ × ℕ
count_namespaces now [] n = n
count_namespaces now ((ns, space) ∷ db) n = count_namespaces now db (count_entries now space n)

unfoldable pub stats : ℕ → Db → DbStats
unfolding count_entries count_namespaces
stats now db =
    let (total, expired) = count_namespaces now db (0, 0) in
    record {
      namespaces = length db;
      total_entries = total;
      expired_entries = expired;
      live_entries = total - expired;
    }
