-- ===== src/Transactions/Manager.antt =====
-- `TransactionManager` of daemon/src/transactions.rs: the layer that keeps only the states.
use bridge_framework.Base.{
  ℕ, String, Option, none, some, List, [], length, push, filterb, leb, if◌then◌else◌, string_eq,
  Result, ok, err,
}
use bridge_framework.Base.Map
use bridge_framework.Base.Map.{Map}
use bridge_framework.Transactions.{
  TransactionState, pending, active, committed, rolled_back, is_active, IsolationLevel,
  read_committed, Error, already_exists, not_found, limit_reached, cannot_commit, not_active,
}

pub record Operation : Type 0 where
  pub id : String
  pub operation_type : String
  pub payload : Map String String

abbrev pub new_operation : String → String → Operation
new_operation id op_type = record { id = id; operation_type = op_type; payload = [] }

unfoldable pub with_data : String → String → Operation → Operation
with_data key value op = record op { payload = Map.insert key value op.payload }

pub record Transaction : Type 0 where
  pub id : String
  pub state : TransactionState
  pub operations : List Operation

abbrev pub new_transaction : String → Transaction
new_transaction id = record { id = id; state = pending; operations = [] }

-- `Transaction::add_operation`, which the manager's method of that name does by hand.
abbrev pub with_operation : Operation → Transaction → Transaction
with_operation op tx = record tx { operations = push tx.operations op }

abbrev pub with_state : TransactionState → Transaction → Transaction
with_state state tx = record tx { state = state }

pub record TransactionManager : Type 0 where
  pub transactions : Map String Transaction
  pub isolation_level : IsolationLevel
  pub max_transactions : ℕ

unfoldable pub new : IsolationLevel → TransactionManager
new isolation_level = record {
  transactions = [];
  isolation_level = isolation_level;
  max_transactions = 10000;
}

unfoldable pub default : TransactionManager
unfolding new
default = new read_committed

abbrev pub insert : String → Transaction → TransactionManager → TransactionManager
insert id tx m = record m { transactions = Map.insert id tx m.transactions }

abbrev pub modify : String → (Transaction → Transaction) → TransactionManager → TransactionManager
modify id f m = record m { transactions = Map.update id f m.transactions }

abbrev pub get_transaction : String → TransactionManager → Option Transaction
get_transaction id m = Map.get id m.transactions

unfoldable pub begin : String → TransactionManager → TransactionManager × Result Error String
begin id m =
    if Map.contains_key id m.transactions
    then (m, err (already_exists id))
    else if leb m.max_transactions (length m.transactions)
    then (m, err limit_reached)
    else (insert id (record { id = id; state = active; operations = [] }) m, ok id)

unfoldable pub add_operation :
    String → Operation → TransactionManager → TransactionManager × Result Error (Unit {0})
add_operation id op m = elim (get_transaction id m) [
  | none ↦ (m, err (not_found id))
  | some tx ↦
      if is_active tx.state
      then (modify id (λ t. record t { operations = push t.operations op }) m, ok tt)
      else (m, err (not_active tx.state))
]

unfoldable pub commit : String → TransactionManager → TransactionManager × Result Error (Unit {0})
commit id m = elim (get_transaction id m) [
  | none ↦ (m, err (not_found id))
  | some tx ↦
      if is_active tx.state
      then (modify id (with_state committed) m, ok tt)
      else (m, err cannot_commit)
]

unfoldable pub rollback : String → TransactionManager → TransactionManager × Result Error (Unit {0})
rollback id m = elim (get_transaction id m) [
  | none ↦ (m, err (not_found id))
  | some tx ↦ (modify id (with_state rolled_back) m, ok tt)
]

unfoldable pub list_active : TransactionManager → List Transaction
list_active m = filterb (λ tx. is_active tx.state) (Map.values m.transactions)
