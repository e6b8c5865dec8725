-- ===== src/Db/WellFormed.antt =====
-- A store's maps hold no key twice, and every operation that writes keeps it so.
use mathlib.Core.Path.{subst}
use bridge_framework.Base.{
  ℕ, ◌+◌, ◌-◌, ◌≡◌, refl, not, String, Option, none, some, [], ◌∷◌, arith, ◌==◌, string_eq, length,
  Option-cases, Bool-cases, inl, inr,
}
use bridge_framework.Base.Map
use bridge_framework.Base.Map.{
  Map, Distinct, get-insert, get-update, insert-Distinct, update-Distinct, remove-Distinct,
  retain-Distinct,
}
use bridge_framework.Db.{Namespace, Db, namespace_or_default, live_entry, set_deadline, purge_from}
use bridge_framework.Db
use bridge_framework.Db.Entries.{Entry, is_expired}
use bridge_framework.Db.View.{get-purge_from, get-purge_expired}

pub record IsWellFormed (db : Db) : Type 0 where
  pub distinct : Distinct db
  pub spaces : (ns : String) (space : Namespace) → Map.get ns db ≡ some space → Distinct space

-- The writes of the store, each by whichever arguments and clock readings.
pub data Step : Db → Db → Type 0 where
  put : (ns key value : String) (db : Db) → Step db (Db.put ns key value db)
  put_with_ttl :
      (now : ℕ) (ns key value : String) (ttl : ℕ) (db : Db)
      → Step db (Db.put_with_ttl now ns key value ttl db)
  del : (ns key : String) (db : Db) → Step db (Db.del ns key db).0
  flush_ns : (ns : String) (db : Db) → Step db (Db.flush_ns ns db).0
  flush_all : (db : Db) → Step db (Db.flush_all db).0
  expire :
      (now later : ℕ) (ns key : String) (ttl : ℕ) (db : Db)
      → Step db (Db.expire now later ns key ttl db).0
  persist : (now : ℕ) (ns key : String) (db : Db) → Step db (Db.persist now ns key db).0
  purge_expired : (now : ℕ) (db : Db) → Step db (Db.purge_expired now db).0

pub data Reach : Db → Type 0 where
  start : Reach []
  next : {db db' : Db} → Reach db → Step db db' → Reach db'

namespace_or_default-Distinct :
    (ns : String) {db : Db} → IsWellFormed db → Distinct (namespace_or_default ns db)
namespace_or_default-Distinct ns {db} w = elim (Option-cases (Map.get ns db)) [
  | inl absent ↦ rw absent tt
  | inr (space, found) ↦ rw found (w.spaces ns space found)
]

insert-IsWellFormed :
    (ns : String) (space : Namespace) {db : Db}
    → Distinct space
    → IsWellFormed db
    → IsWellFormed (Map.insert ns space db)
insert-IsWellFormed ns space {db} d w = record {
  distinct = insert-Distinct ns space db w.distinct;
  spaces = λ ns' space' found. elim (Bool-cases (ns == ns')) [
    | inl same ↦
        let e : space ≡ space' = ground (arith, get-insert ns' ns space db) in subst Distinct e d
    | inr other ↦ w.spaces ns' space' (ground (arith, get-insert ns' ns space db))
  ];
}

update-IsWellFormed :
    (ns : String) (f : Namespace → Namespace) {db : Db}
    → ((s : Namespace) → Distinct s → Distinct (f s))
    → IsWellFormed db
    → IsWellFormed (Map.update ns f db)
update-IsWellFormed ns f {db} keep w = record {
  distinct = update-Distinct ns f db w.distinct;
  spaces = λ ns' space' found. elim (Option-cases (Map.get ns' db)) [
    | inl absent ↦ absurd (ground (arith, get-update ns' ns f db))
    | inr (old, was) ↦ elim (Bool-cases (ns == ns')) [
      | inl same ↦
          let e : f old ≡ space' = ground (arith, get-update ns' ns f db) in
          subst Distinct e (keep old (w.spaces ns' old was))
      | inr other ↦ w.spaces ns' space' (ground (arith, get-update ns' ns f db))
    ]
  ];
}

set_deadline-IsWellFormed :
    (now : ℕ) (deadline : Option ℕ) (ns key : String) (db : Db)
    → IsWellFormed db
    → IsWellFormed (set_deadline now deadline ns key db).0
unfolding set_deadline
set_deadline-IsWellFormed now deadline ns key db w =
    elim (Option-cases (live_entry now ns key db)) [
      | inl dead ↦ rw (dead, set_deadline) w
      | inr (e, live) ↦
          rw (live, set_deadline)
            (update-IsWellFormed ns (Map.update key (λ e. record e { expires_at = deadline }))
              (update-Distinct key (λ e. record e { expires_at = deadline })) w)
    ]

purge_from-Distinct : (now total : ℕ) (db : Db) → Distinct db → Distinct (purge_from now total db).0
unfolding purge_from
purge_from-Distinct now total [] d = tt
purge_from-Distinct now total ((ns, space) ∷ db) d =
    let n =
      total
      + (length space
          - length (Map.retain (λ (k : String) (e : Entry). not (is_expired now e)) space)) in
    (rw (get-purge_from now n db ns, d.0) refl, purge_from-Distinct now n db d.1)

flush_ns-IsWellFormed :
    (ns : String) (db : Db) → IsWellFormed db → IsWellFormed (Db.flush_ns ns db).0
unfolding Db.flush_ns
flush_ns-IsWellFormed ns db w = elim (Option-cases (Map.get ns db)) [
  | inl absent ↦ rw (absent, Db.flush_ns) w
  | inr (space, found) ↦
      rw (found, Db.flush_ns) (update-IsWellFormed ns (λ (s : Namespace). []) (λ s d. tt) w)
]

pub Step-IsWellFormed : {db db' : Db} → Step db db' → IsWellFormed db → IsWellFormed db'
unfolding Db.put Db.put_with_ttl Db.del Db.flush_ns Db.flush_all Db.expire Db.persist
    Db.purge_expired Map.get
Step-IsWellFormed (put ns key value db) w =
    insert-IsWellFormed ns _ (insert-Distinct key _ _ (namespace_or_default-Distinct ns w)) w
Step-IsWellFormed (put_with_ttl now ns key value ttl db) w =
    insert-IsWellFormed ns _ (insert-Distinct key _ _ (namespace_or_default-Distinct ns w)) w
Step-IsWellFormed (del ns key db) w =
    update-IsWellFormed ns (Map.remove key) (remove-Distinct key) w
Step-IsWellFormed (flush_ns ns db) w = flush_ns-IsWellFormed ns db w
Step-IsWellFormed (flush_all db) w = record { distinct = tt; spaces = λ ns space e. cc }
Step-IsWellFormed (expire now later ns key ttl db) w =
    set_deadline-IsWellFormed now (some (later + ttl)) ns key db w
Step-IsWellFormed (persist now ns key db) w = set_deadline-IsWellFormed now none ns key db w
Step-IsWellFormed (purge_expired now db) w = record {
  distinct = purge_from-Distinct now 0 db w.distinct;
  spaces = λ ns space e. elim (Option-cases (Map.get ns db)) [
    | inl absent ↦ absurd (ground (arith, get-purge_expired now db ns))
    | inr (old, was) ↦
        let p : Map.retain (λ k e. not (is_expired now e)) old ≡ space =
          ground (arith, get-purge_expired now db ns) in
        subst Distinct p (retain-Distinct _ old (w.spaces ns old was))
  ];
}

-- Every store that writes lead to from the empty one is well-formed.
pub Reach-IsWellFormed : {db : Db} → Reach db → IsWellFormed db
unfolding Map.get
Reach-IsWellFormed start = record { distinct = tt; spaces = λ ns space e. cc }
Reach-IsWellFormed (next r s) = Step-IsWellFormed s (Reach-IsWellFormed r)
