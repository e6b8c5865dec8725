-- ===== src/Transactions/Bounded.antt =====
-- The transaction manager over every sequence of calls.
use bridge_framework.Base.{
  ◌≤◌, ◌≡◌, refl, String, some, [], arith, ==_self, string_eq, length, push, leb, Option-cases,
  Bool-cases, inl, inr, ◌⊎◌, ok, err, Everywhere, Everywhere-nil, Everywhere-insert,
  Everywhere-update, map_some,
}
use bridge_framework.Base.Map
use bridge_framework.Base.Map.{
  Distinct, get-insert, get-update, insert-Distinct, update-Distinct, length-insert, length-update,
}
use bridge_framework.Transactions.{
  active, committed, rolled_back, is_active, IsolationLevel, cannot_commit, not_active,
}
use bridge_framework.Transactions.Manager
use bridge_framework.Transactions.Manager.{
  Operation, Transaction, TransactionManager, get_transaction, with_state, new,
}

pub data Step : TransactionManager → TransactionManager → Type 0 where
  begin : (id : String) (m : TransactionManager) → Step m (Manager.begin id m).0
  add_operation :
      (id : String) (op : Operation) (m : TransactionManager)
      → Step m (Manager.add_operation id op m).0
  commit : (id : String) (m : TransactionManager) → Step m (Manager.commit id m).0
  rollback : (id : String) (m : TransactionManager) → Step m (Manager.rollback id m).0

pub data Reach (isolation : IsolationLevel) : TransactionManager → Type 0 where
  start : Reach isolation (new isolation)
  next : {m n : TransactionManager} → Reach isolation m → Step m n → Reach isolation n

abbrev pub IsStarted : String → Transaction → Type 0
IsStarted id tx =
    (tx.id ≡ id) × ((tx.state ≡ active) ⊎ (tx.state ≡ committed) ⊎ (tx.state ≡ rolled_back))

pub record IsBounded (isolation : IsolationLevel) (m : TransactionManager) : Type 0 where
  pub limit : m.max_transactions ≡ 10000
  pub room : length m.transactions ≤ 10000
  pub level : m.isolation_level ≡ isolation
  pub distinct : Distinct m.transactions
  pub started : Everywhere IsStarted m.transactions

modify-IsBounded :
    {isolation : IsolationLevel} (id : String) (f : Transaction → Transaction)
    {m : TransactionManager}
    → ((tx : Transaction) → IsStarted id tx → IsStarted id (f tx))
    → IsBounded isolation m
    → IsBounded isolation (Manager.modify id f m)
modify-IsBounded id f {m} keep b = record {
  limit = b.limit;
  room = omega (arith, b.room, length-update id f m.transactions);
  level = b.level;
  distinct = update-Distinct id f m.transactions b.distinct;
  started = Everywhere-update IsStarted id f (λ tx _. keep tx) b.started;
}

Step-IsBounded :
    {isolation : IsolationLevel} {m n : TransactionManager}
    → Step m n
    → IsBounded isolation m
    → IsBounded isolation n
unfolding Manager.begin Manager.add_operation Manager.commit Manager.rollback
Step-IsBounded (begin id m) b = elim (Bool-cases (Map.contains_key id m.transactions)) [
  | inl taken ↦ rw taken b
  | inr free ↦ elim (Bool-cases (leb m.max_transactions (length m.transactions))) [
    | inl full ↦ rw (free, full) b
    | inr room ↦
        rw (free, room)
          (record {
            limit = b.limit;
            room = ground (
              arith,
              length-insert id (record { id = id; state = active; operations = [] }) m.transactions,
            );
            level = b.level;
            distinct = insert-Distinct id _ m.transactions b.distinct;
            started = Everywhere-insert IsStarted id _ (refl, inl refl) b.started;
          })
  ]
]
Step-IsBounded (add_operation id op m) b = elim (Option-cases (get_transaction id m)) [
  | inl absent ↦ rw (absent, Manager.add_operation) b
  | inr (tx, found) ↦ elim (Bool-cases (is_active tx.state)) [
    | inl live ↦
        rw (found, Manager.add_operation, live)
          (modify-IsBounded id (λ t. record t { operations = push t.operations op }) (λ t s. s) b)
    | inr other ↦ rw (found, Manager.add_operation, other) b
  ]
]
Step-IsBounded (commit id m) b = elim (Option-cases (get_transaction id m)) [
  | inl absent ↦ rw (absent, Manager.commit) b
  | inr (tx, found) ↦ elim (Bool-cases (is_active tx.state)) [
    | inl live ↦
        rw (found, Manager.commit, live)
          (modify-IsBounded id (with_state committed) (λ t s. (s.0, inr (inl refl))) b)
    | inr other ↦ rw (found, Manager.commit, other) b
  ]
]
Step-IsBounded (rollback id m) b = elim (Option-cases (get_transaction id m)) [
  | inl absent ↦ rw (absent, Manager.rollback) b
  | inr (tx, found) ↦
      rw (found, Manager.rollback)
        (modify-IsBounded id (with_state rolled_back) (λ t s. (s.0, inr (inr refl))) b)
]

-- A manager that any sequence of calls leads to from a new one holds at most 10000 transactions,
-- each under its own id and no id twice, and each active, committed or rolled back; it keeps the
-- isolation level that it was created with.
pub Reach-IsBounded :
    {isolation : IsolationLevel} {m : TransactionManager}
    → Reach isolation m
    → IsBounded isolation m
unfolding new
Reach-IsBounded start = record {
  limit = refl;
  room = omega arith;
  level = refl;
  distinct = tt;
  started = Everywhere-nil IsStarted;
}
Reach-IsBounded (next r s) = Step-IsBounded s (Reach-IsBounded r)

-- A commit that succeeds ends the transaction for `commit` and `add_operation`, but not for
-- `rollback`, which succeeds and marks the committed transaction as rolled back.
pub rollback-commit :
    (id : String) (op : Operation) (m : TransactionManager)
    → (Manager.commit id m).1 ≡ ok tt
    → let m' = (Manager.commit id m).0 in
      ((Manager.commit id m').1 ≡ err cannot_commit)
      × ((Manager.add_operation id op m').1 ≡ err (not_active committed))
      × ((Manager.rollback id m').1 ≡ ok tt)
      × (map_some (λ tx. tx.state) (get_transaction id (Manager.rollback id m').0)
          ≡ some rolled_back)
unfolding Manager.commit Manager.add_operation Manager.rollback
rollback-commit id op m h = ground (
  arith,
  get-update id id (with_state committed) m.transactions,
  get-update id id (with_state rolled_back) (Map.update id (with_state committed) m.transactions),
  ==_self id,
)
