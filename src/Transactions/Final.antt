-- ===== src/Transactions/Final.antt =====
-- A transaction that is committed or rolled back stays so, and the methods leave the others alone.
use bridge_framework.Base.{
  ℕ, ◌≡◌, ◌≢◌, refl, true, false, String, some, [], arith, ==_self, ==_iff, string_eq, is_ok, push,
  Option-cases, inl, inr, ◌⊎◌,
}
use bridge_framework.Base.Map
use bridge_framework.Base.Map.{get-insert, get-update}
use bridge_framework.Db.{Db}
use bridge_framework.Transactions.{TransactionState, active, committed, rolled_back, IsolationLevel}
use bridge_framework.Transactions.Registry.{
  StoreOp, StoreTransaction, TxRegistry, begin, enqueue, commit, rollback,
}
use bridge_framework.Transactions.Apply.{apply_ops_ok}

-- The states that no method leaves.
abbrev pub IsFinal : TransactionState → Type 0
IsFinal s = (s ≡ committed) ⊎ (s ≡ rolled_back)

-- Nothing more can be done with the transaction: `begin`, `enqueue`, `commit` and `rollback` fail at
-- its id, and change neither the registry nor the store.
abbrev pub IsClosed : String → TxRegistry → Type 0
IsClosed id g =
    ((now : ℕ) (isolation : IsolationLevel)
      → ((begin now id isolation g).0 ≡ g) × (is_ok (begin now id isolation g).1 ≡ false))
    × ((op : StoreOp) → ((enqueue id op g).0 ≡ g) × (is_ok (enqueue id op g).1 ≡ false))
    × ((clock : ℕ → ℕ) (store : Db)
        → ((commit clock id g store).0 ≡ g)
          × ((commit clock id g store).1 ≡ store)
          × (is_ok (commit clock id g store).2 ≡ false))
    × ((rollback id g).0 ≡ g)
    × (is_ok (rollback id g).1 ≡ false)

IsFinal-IsClosed :
    (id : String) (g : TxRegistry) (tx : StoreTransaction)
    → Map.get id g ≡ some tx
    → IsFinal tx.state
    → IsClosed id g
unfolding begin enqueue commit rollback
IsFinal-IsClosed id g tx found f = (
  λ now isolation. ground arith,
  λ op. ground arith,
  λ clock store. ground arith,
  ground arith,
  ground arith,
)

-- After a commit that succeeds the transaction is closed: `begin`, `enqueue`, `commit` and
-- `rollback` at its id fail, and change neither the registry nor the store.
pub commit-IsClosed :
    (clock : ℕ → ℕ) (id : String) (g : TxRegistry) (store : Db)
    → is_ok (commit clock id g store).2 ≡ true
    → IsClosed id (commit clock id g store).0
commit-IsClosed clock id g store h = elim (Option-cases (Map.get id g)) [
  | inl absent ↦ absurd (unfold commit in ground arith)
  | inr (tx, found) ↦
      IsFinal-IsClosed id (commit clock id g store).0 (record tx { state = committed; ops = [] })
        (unfold commit in
          ground (
            arith,
            apply_ops_ok clock 0 tx.ops store,
            get-update id id (λ (t : StoreTransaction). record t { state = committed; ops = [] }) g,
            ==_self id,
          ))
        (inl refl)
]

-- After a rollback that succeeds the transaction is closed: `begin`, `enqueue`, `commit` and
-- `rollback` at its id fail, and change neither the registry nor the store.
pub rollback-IsClosed :
    (id : String) (g : TxRegistry) → is_ok (rollback id g).1 ≡ true → IsClosed id (rollback id g).0
rollback-IsClosed id g h = elim (Option-cases (Map.get id g)) [
  | inl absent ↦ absurd (unfold rollback in ground arith)
  | inr (tx, found) ↦
      IsFinal-IsClosed id (rollback id g).0 (record tx { state = rolled_back; ops = [] })
        (unfold rollback in
          ground (
            arith,
            get-update id id (λ (t : StoreTransaction). record t { state = rolled_back; ops = [] })
                g,
            ==_self id,
          ))
        (inr refl)
]

module _ (id other : String) (g : TxRegistry) (ne : id ≢ other) where
  get-begin_other :
      (now : ℕ) (isolation : IsolationLevel)
      → Map.get other (begin now id isolation g).0 ≡ Map.get other g
  unfolding begin
  get-begin_other now isolation = ground (
    arith,
    ==_iff id other,
    get-insert other id
        (record { id = id; isolation = isolation; state = active; ops = []; created_at_secs = now })
        g,
  )

  get-update_other :
      (f : StoreTransaction → StoreTransaction)
      → Map.get other (Map.update id f g) ≡ Map.get other g
  get-update_other f = ground (arith, ==_iff id other, get-update other id f g)

  get-enqueue_other : (op : StoreOp) → Map.get other (enqueue id op g).0 ≡ Map.get other g
  unfolding enqueue
  get-enqueue_other op =
      ground (arith, get-update_other (λ (t : StoreTransaction). record t { ops = push t.ops op }))

  get-commit_other :
      (clock : ℕ → ℕ) (store : Db) → Map.get other (commit clock id g store).0 ≡ Map.get other g
  unfolding commit
  get-commit_other clock store = elim (Option-cases (Map.get id g)) [
    | inl absent ↦ ground arith
    | inr (tx, found) ↦ ground (
      arith,
      apply_ops_ok clock 0 tx.ops store,
      get-update_other (λ (t : StoreTransaction). record t { state = committed; ops = [] }),
    )
  ]

  get-rollback_other : Map.get other (rollback id g).0 ≡ Map.get other g
  unfolding rollback
  get-rollback_other = ground (
    arith,
    get-update_other (λ (t : StoreTransaction). record t { state = rolled_back; ops = [] }),
  )

-- `begin`, `enqueue`, `commit` and `rollback` of one transaction leave every other as it is.
pub get_others :
    (id other : String) (g : TxRegistry)
    → id ≢ other
    → ((now : ℕ) (isolation : IsolationLevel)
        → Map.get other (begin now id isolation g).0 ≡ Map.get other g)
      × ((op : StoreOp) → Map.get other (enqueue id op g).0 ≡ Map.get other g)
      × ((clock : ℕ → ℕ) (store : Db) → Map.get other (commit clock id g store).0 ≡ Map.get other g)
      × (Map.get other (rollback id g).0 ≡ Map.get other g)
get_others id other g ne = (
  get-begin_other id other g ne,
  get-enqueue_other id other g ne,
  get-commit_other id other g ne,
  get-rollback_other id other g ne,
)
