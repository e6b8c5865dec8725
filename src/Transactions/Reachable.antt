-- ===== src/Transactions/Reachable.antt =====
-- The registries that clients can bring about.
use bridge_framework.Base.{
  ℕ, ◌≡◌, refl, String, some, [], arith, string_eq, push, Option-cases, Bool-cases, inl, inr, ◌⊎◌,
  keep_if, Everywhere, Everywhere-nil, Everywhere-insert, Everywhere-update, Everywhere-retain,
}
use bridge_framework.Base.Map
use bridge_framework.Base.Map.{
  Map, Distinct, get-retain, insert-Distinct, update-Distinct, retain-Distinct,
}
use bridge_framework.Db.{Db}
use bridge_framework.Transactions.{active, committed, rolled_back, is_active, IsolationLevel}
use bridge_framework.Transactions.Registry
use bridge_framework.Transactions.Registry.{
  StoreOp, StoreTransaction, TxRegistry, apply_ops, can_roll_back, with_state, unfinished,
}
use bridge_framework.Transactions.Apply.{apply_ops_ok}
use bridge_framework.Transactions.Final.{IsFinal}

pub data Step : TxRegistry × Db → TxRegistry × Db → Type 0 where
  begin :
      (now : ℕ) (id : String) (isolation : IsolationLevel) (g : TxRegistry) (store : Db)
      → Step (g, store) ((Registry.begin now id isolation g).0, store)
  enqueue :
      (id : String) (op : StoreOp) (g : TxRegistry) (store : Db)
      → Step (g, store) ((Registry.enqueue id op g).0, store)
  commit :
      (clock : ℕ → ℕ) (id : String) (g : TxRegistry) (store : Db)
      → Step (g, store) ((Registry.commit clock id g store).0, (Registry.commit clock id g store).1)
  rollback :
      (id : String) (g : TxRegistry) (store : Db)
      → Step (g, store) ((Registry.rollback id g).0, store)
  prune : (g : TxRegistry) (store : Db) → Step (g, store) ((Registry.prune_finished g).0, store)

pub data Reach (store : Db) : TxRegistry × Db → Type 0 where
  start : Reach store ([], store)
  next : {s t : TxRegistry × Db} → Reach store s → Step s t → Reach store t

-- An entry stands under its own id; it is active, or it is final and its queue is empty.
abbrev pub IsSound : String → StoreTransaction → Type 0
IsSound id tx = (tx.id ≡ id) × ((tx.state ≡ active) ⊎ (IsFinal tx.state × (tx.ops ≡ [])))

pub record IsConsistent (g : TxRegistry) : Type 0 where
  pub distinct : Distinct g
  pub sound : Everywhere IsSound g

update-IsConsistent :
    (id : String) (f : StoreTransaction → StoreTransaction) {g : TxRegistry}
    → ((tx : StoreTransaction) → Map.get id g ≡ some tx → IsSound id tx → IsSound id (f tx))
    → IsConsistent g
    → IsConsistent (Map.update id f g)
update-IsConsistent id f {g} keep c = record {
  distinct = update-Distinct id f g c.distinct;
  sound = Everywhere-update IsSound id f keep c.sound;
}

begin-IsConsistent :
    (now : ℕ) (id : String) (isolation : IsolationLevel) {g : TxRegistry}
    → IsConsistent g
    → IsConsistent (Registry.begin now id isolation g).0
unfolding Registry.begin
begin-IsConsistent now id isolation {g} c = elim (Bool-cases (Map.contains_key id g)) [
  | inl taken ↦ rw taken c
  | inr free ↦ rw free (record {
    distinct = insert-Distinct id _ g c.distinct;
    sound = Everywhere-insert IsSound id _ (refl, inl refl) c.sound;
  })
]

enqueue-IsConsistent :
    (id : String) (op : StoreOp) {g : TxRegistry}
    → IsConsistent g
    → IsConsistent (Registry.enqueue id op g).0
unfolding Registry.enqueue
enqueue-IsConsistent id op {g} c = elim (Option-cases (Map.get id g)) [
  | inl absent ↦ rw (absent, Registry.enqueue) c
  | inr (tx, found) ↦ elim (Bool-cases (is_active tx.state)) [
    | inl live ↦
        rw (found, Registry.enqueue, live)
          (update-IsConsistent id (λ t. record t { ops = push t.ops op }) (λ t at s. ground arith)
            c)
    | inr other ↦ rw (found, Registry.enqueue, other) c
  ]
]

commit-IsConsistent :
    (clock : ℕ → ℕ) (id : String) {g : TxRegistry} (store : Db)
    → IsConsistent g
    → IsConsistent (Registry.commit clock id g store).0
unfolding Registry.commit
commit-IsConsistent clock id {g} store c = elim (Option-cases (Map.get id g)) [
  | inl absent ↦ rw (absent, Registry.commit) c
  | inr (tx, found) ↦ elim (Bool-cases (is_active tx.state)) [
    | inl live ↦
        rw (found, Registry.commit, live, apply_ops_ok clock 0 tx.ops store)
          (update-IsConsistent id (λ t. record t { state = committed; ops = [] })
            (λ t at s. (s.0, inr (inl refl, refl))) c)
    | inr other ↦ rw (found, Registry.commit, other) c
  ]
]

rollback-IsConsistent :
    (id : String) {g : TxRegistry} → IsConsistent g → IsConsistent (Registry.rollback id g).0
unfolding Registry.rollback
rollback-IsConsistent id {g} c = elim (Option-cases (Map.get id g)) [
  | inl absent ↦ rw (absent, Registry.rollback) c
  | inr (tx, found) ↦ elim (Bool-cases (can_roll_back tx.state)) [
    | inl can ↦
        rw (found, Registry.rollback, can)
          (update-IsConsistent id (λ t. record t { state = rolled_back; ops = [] })
            (λ t at s. (s.0, inr (inr refl, refl))) c)
    | inr other ↦ rw (found, Registry.rollback, other) c
  ]
]

Step-IsConsistent : {s t : TxRegistry × Db} → Step s t → IsConsistent s.0 → IsConsistent t.0
unfolding Registry.prune_finished
Step-IsConsistent (begin now id isolation g store) c = begin-IsConsistent now id isolation c
Step-IsConsistent (enqueue id op g store) c = enqueue-IsConsistent id op c
Step-IsConsistent (commit clock id g store) c = commit-IsConsistent clock id store c
Step-IsConsistent (rollback id g store) c = rollback-IsConsistent id c
Step-IsConsistent (prune g store) c = record {
  distinct = retain-Distinct unfinished g c.distinct;
  sound = Everywhere-retain IsSound unfinished c.distinct c.sound;
}

-- In every registry that any sequence of calls leads to, each transaction stands under its own id
-- and no id twice; it is active, committed or rolled back, never pending or failed; and one that is
-- not active has an empty queue.
pub Reach-IsConsistent : {store : Db} {s : TxRegistry × Db} → Reach store s → IsConsistent s.0
Reach-IsConsistent start = record { distinct = tt; sound = Everywhere-nil IsSound }
Reach-IsConsistent (next r s) = Step-IsConsistent s (Reach-IsConsistent r)

-- In every registry that any sequence of calls leads to, pruning keeps exactly the active transactions, as they are.
pub get-prune_finished :
    {store : Db} {s : TxRegistry × Db}
    → Reach store s
    → (id : String)
    → Map.get id (Registry.prune_finished s.0).0
      ≡ keep_if (λ tx. is_active tx.state) (Map.get id s.0)
unfolding Registry.prune_finished
get-prune_finished {s = s} r id =
    let c = Reach-IsConsistent r in
    elim (Option-cases (Map.get id s.0)) [
      | inl absent ↦ ground (arith, get-retain id unfinished s.0 c.distinct)
      | inr (tx, found) ↦
          ground (arith, get-retain id unfinished s.0 c.distinct, c.sound.at id tx found)
    ]
