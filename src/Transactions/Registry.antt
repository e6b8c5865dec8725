-- ===== src/Transactions/Registry.antt =====
-- `TxRegistry` of daemon/src/transactions.rs: queued operations are applied to the store of
-- db/src/lib.rs on commit. The registry and the store have locks of their own; here each method is
-- one step on both, as it is when no other client runs between its two critical sections.
use bridge_framework.Base.{
  ℕ, ◌+◌, ◌-◌, Bool, ◌||◌, String, Option, none, some, List, [], ◌∷◌, length, push, if◌then◌else◌,
  string_eq, Result, ok, err,
}
use bridge_framework.Base.Map
use bridge_framework.Base.Map.{Map}
use bridge_framework.Db
use bridge_framework.Db.{Db}
use bridge_framework.Transactions.{
  TransactionState, active, committed, rolled_back, failed, is_active, is_pending, IsolationLevel,
  Error, already_exists, not_found, cannot_enqueue, cannot_commit_in, cannot_roll_back,
  commit_failed,
}

pub data StoreOp : Type 0 where
  put : String → String → String → StoreOp
  del : String → String → StoreOp
  del_matching : String → String → StoreOp

unfoldable pub kind : StoreOp → String
kind (put ns key value) = "put"
kind (del ns key) = "del"
kind (del_matching ns pattern) = "del_matching"

pub record StoreTransaction : Type 0 where
  pub id : String
  pub isolation : IsolationLevel
  pub state : TransactionState
  pub ops : List StoreOp
  pub created_at_secs : ℕ

abbrev pub TxRegistry : Type 0
TxRegistry = Map String StoreTransaction

abbrev pub new : TxRegistry
new = []

abbrev pub get : String → TxRegistry → Option StoreTransaction
get = Map.get

unfoldable pub begin :
    ℕ → String → IsolationLevel → TxRegistry → TxRegistry × Result Error (Unit {0})
begin now id isolation g = if Map.contains_key id g then (g, err (already_exists id)) else (
  Map.insert id
      (record { id = id; isolation = isolation; state = active; ops = []; created_at_secs = now })
      g,
  ok tt,
)

unfoldable pub enqueue : String → StoreOp → TxRegistry → TxRegistry × Result Error ℕ
enqueue id op g = elim (get id g) [
  | none ↦ (g, err (not_found id))
  | some tx ↦
      if is_active tx.state
      then (Map.update id (λ t. record t { ops = push t.ops op }) g, ok (length (push tx.ops op)))
      else (g, err (cannot_enqueue id tx.state))
]

-- The loop over the doomed keys of `DelMatching`.
unfoldable pub del_all : String → List String → Db → Db
del_all ns [] store = store
del_all ns (k ∷ doomed) store = del_all ns doomed (Db.del ns k store).0

-- `apply_op`, with the clock's reading for the keys that are collected.
unfoldable pub apply_op : ℕ → StoreOp → Db → Db × Result Error (Unit {0})
unfolding del_all
apply_op now (put ns key value) store = (Db.put ns key value store, ok tt)
apply_op now (del ns key) store = ((Db.del ns key store).0, ok tt)
apply_op now (del_matching ns pattern) store =
    (del_all ns (Db.keys_matching now ns pattern store) store, ok tt)

-- The loop of `commit`: it stops at the first operation that fails, and says which;
-- `clock i` is the reading in turn `i`.
unfoldable pub apply_ops : (ℕ → ℕ) → ℕ → List StoreOp → Db → Db × Result Error (Unit {0})
apply_ops clock i [] store = (store, ok tt)
apply_ops clock i (op ∷ ops) store =
    let (store', r) = apply_op (clock i) op store in
    let rest = apply_ops clock (i + 1) ops store' in
    elim r [ ok _ ↦ rest | err e ↦ (store', err (commit_failed (kind op) e)) ]

abbrev pub with_state : TransactionState → StoreTransaction → StoreTransaction
with_state state tx = record tx { state = state }

-- The transaction is marked and its queue taken before the first operation is applied.
unfoldable pub commit : (ℕ → ℕ) → String → TxRegistry → Db → TxRegistry × Db × Result Error ℕ
commit clock id g store = elim (get id g) [
  | none ↦ (g, store, err (not_found id))
  | some tx ↦
      if is_active tx.state
      then (let g' = Map.update id (λ t. record t { state = committed; ops = [] }) g in
          let (store', r) = apply_ops clock 0 tx.ops store in
          elim r [
            | ok _ ↦ (g', store', ok (length tx.ops))
            | err e ↦ (Map.update id (with_state failed) g', store', err e)
          ])
      else (g, store, err (cannot_commit_in id tx.state))
]

-- The states that `rollback` accepts.
abbrev pub can_roll_back : TransactionState → Bool
can_roll_back active = Bool.true
can_roll_back failed = Bool.true
can_roll_back _ = Bool.false

unfoldable pub rollback : String → TxRegistry → TxRegistry × Result Error ℕ
rollback id g = elim (get id g) [
  | none ↦ (g, err (not_found id))
  | some tx ↦
      if can_roll_back tx.state
      then (Map.update id (λ t. record t { state = rolled_back; ops = [] }) g, ok (length tx.ops))
      else (g, err (cannot_roll_back id tx.state))
]

-- The test of `retain` in `prune_finished`.
abbrev pub unfinished : String → StoreTransaction → Bool
unfinished id tx = is_active tx.state || is_pending tx.state

unfoldable pub prune_finished : TxRegistry → TxRegistry × ℕ
prune_finished g = let kept = Map.retain unfinished g in (kept, length g - length kept)
