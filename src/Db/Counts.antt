-- ===== src/Db/Counts.antt =====
-- The counters of `stats` and the number that `purge_expired` returns.
use bridge_framework.Base.{
  ℕ, suc, ◌+◌, ◌-◌, ◌≤◌, ◌≡◌, refl, not, String, [], ◌∷◌, arith, if◌then◌else◌, length,
}
use bridge_framework.Base.Map
use bridge_framework.Db.{
  Namespace, Db, total_length, count_entries, count_namespaces, purge_from, purge_expired, stats,
  flush_all,
}
use bridge_framework.Db.Entries.{Entry, is_expired}

live_length : ℕ → Namespace → ℕ
live_length now space = length (Map.retain (λ k e. not (is_expired now e)) space)

expired_length : ℕ → Namespace → ℕ
expired_length now [] = 0
expired_length now ((k, e) ∷ space) =
    if is_expired now e then suc (expired_length now space) else expired_length now space

length-live-expired :
    (now : ℕ) (space : Namespace) → length space ≡ live_length now space + expired_length now space
unfolding live_length expired_length Map.retain
length-live-expired now [] = refl
length-live-expired now ((k, e) ∷ space) = ground (arith, length-live-expired now space)

count_entries-eq :
    (now : ℕ) (space : Namespace) (total expired : ℕ)
    → count_entries now space (total, expired)
      ≡ (total + length space, expired + expired_length now space)
unfolding count_entries expired_length
count_entries-eq now [] total expired = ground arith
count_entries-eq now ((k, e) ∷ space) total expired = ground (
  arith,
  count_entries-eq now space (total + 1) (if is_expired now e then expired + 1 else expired),
)

expired-kept :
    (now : ℕ) (space : Namespace)
    → expired_length now (Map.retain (λ k e. not (is_expired now e)) space) ≡ 0
unfolding expired_length Map.retain
expired-kept now [] = refl
expired-kept now ((k, e) ∷ space) = ground (arith, expired-kept now space)

total_expired : ℕ → Db → ℕ
total_expired now [] = 0
total_expired now ((ns, space) ∷ db) = expired_length now space + total_expired now db

count_namespaces-eq :
    (now : ℕ) (db : Db) (total expired : ℕ)
    → count_namespaces now db (total, expired)
      ≡ (total + total_length db, expired + total_expired now db)
unfolding count_namespaces total_length total_expired
count_namespaces-eq now [] total expired = ground arith
count_namespaces-eq now ((ns, space) ∷ db) total expired = ground (
  arith,
  count_entries-eq now space total expired,
  count_namespaces-eq now db (total + length space) (expired + expired_length now space),
)

purge_from-counts :
    (now total : ℕ) (db : Db)
    → ((purge_from now total db).1 ≡ total + total_expired now db)
      × (total_length (purge_from now total db).0 + total_expired now db ≡ total_length db)
      × (total_expired now (purge_from now total db).0 ≡ 0)
      × (length (purge_from now total db).0 ≡ length db)
unfolding purge_from total_expired total_length live_length
purge_from-counts now total [] = ground arith
purge_from-counts now total ((ns, space) ∷ db) =
    let n =
      length space
      - length (Map.retain (λ (k : String) (e : Entry). not (is_expired now e)) space) in
    ground (
      arith,
      length-live-expired now space,
      expired-kept now space,
      purge_from-counts now (total + n) db,
    )

-- Live and expired entries add up to all entries.
live_add_expired : (now : ℕ) (db : Db) → total_expired now db ≤ total_length db
unfolding total_expired total_length
live_add_expired now [] = omega arith
live_add_expired now ((ns, space) ∷ db) =
    omega (arith, length-live-expired now space, live_add_expired now db)

-- `purge_expired` returns the number of expired entries that `stats` counted before it; afterwards
-- `stats` counts the same namespaces, the entries that were live, and none that is expired.
pub stats-purge_expired :
    (now : ℕ) (db : Db)
    → ((purge_expired now db).1 ≡ (stats now db).expired_entries)
      × (stats now (purge_expired now db).0 ≡ record {
        namespaces = (stats now db).namespaces;
        total_entries = (stats now db).live_entries;
        expired_entries = 0;
        live_entries = (stats now db).live_entries;
      })
unfolding stats purge_expired
stats-purge_expired now db = ground (
  arith,
  purge_from-counts now 0 db,
  count_namespaces-eq now db 0 0,
  count_namespaces-eq now (purge_from now 0 db).0 0 0,
)

-- `flush_all` returns the number of all entries, live or not, and leaves a store with none.
pub stats-flush_all :
    (now : ℕ) (db : Db)
    → ((flush_all db).1 ≡ (stats now db).total_entries)
      × ((stats now db).live_entries + (stats now db).expired_entries
          ≡ (stats now db).total_entries)
      × (stats now (flush_all db).0
          ≡ record { namespaces = 0; total_entries = 0; expired_entries = 0; live_entries = 0 })
unfolding stats flush_all
stats-flush_all now db = ground (arith, count_namespaces-eq now db 0 0, live_add_expired now db)
