-- ===== src/Transactions/Lifecycle.antt =====
-- The life of one transaction in the registry.
use bridge_framework.Base.{
  ℕ, ◌≡◌, refl, ap, ◌∙◌, String, none, some, List, [], ◌∷◌, ◌++◌, arith, ==_self, string_eq,
  map_some, ok, length, push,
}
use mathlib.Core.List.{append_assoc, append-nil}
use bridge_framework.Base.Map
use bridge_framework.Base.Map.{get-insert, get-update}
use bridge_framework.Db.{Db, entry}
use bridge_framework.Db.WellFormed.{IsWellFormed}
use bridge_framework.Transactions.{active, committed, IsolationLevel}
use bridge_framework.Transactions.Registry.{
  StoreOp, StoreTransaction, TxRegistry, apply_ops, begin, enqueue, commit,
}
use bridge_framework.Transactions.Apply.{apply_ops_ok}
use bridge_framework.Transactions.Replay.{replay, entry-apply_ops}

-- A client's loop of `enqueue`.
unfoldable pub enqueue_all : String → List StoreOp → TxRegistry → TxRegistry
enqueue_all id [] g = g
enqueue_all id (op ∷ ops) g = enqueue_all id ops (enqueue id op g).0

get-enqueue :
    (id : String) (op : StoreOp) (g : TxRegistry) (tx : StoreTransaction)
    → Map.get id g ≡ some tx
    → tx.state ≡ active
    → Map.get id (enqueue id op g).0 ≡ some (record tx { ops = push tx.ops op })
unfolding enqueue
get-enqueue id op g tx found live = ground (
  arith,
  get-update id id (λ (t : StoreTransaction). record t { ops = push t.ops op }) g,
  ==_self id,
)

get-enqueue_all :
    (id : String) (ops : List StoreOp) (g : TxRegistry) (tx : StoreTransaction)
    → Map.get id g ≡ some tx
    → tx.state ≡ active
    → Map.get id (enqueue_all id ops g) ≡ some (record tx { ops = tx.ops ++ ops })
unfolding enqueue_all
get-enqueue_all id [] g tx found live = rw (append-nil) found
get-enqueue_all id (op ∷ ops) g tx found live =
    get-enqueue_all id ops (enqueue id op g).0 (record tx { ops = push tx.ops op })
      (get-enqueue id op g tx found live) live
    ∙ ap some (rw (append_assoc) refl)

-- What a commit of an active transaction returns.
commit-active :
    (clock : ℕ → ℕ) (id : String) (g : TxRegistry) (store : Db) (tx : StoreTransaction)
    → Map.get id g ≡ some tx
    → tx.state ≡ active
    → ((commit clock id g store).1 ≡ (apply_ops clock 0 tx.ops store).0)
      × ((commit clock id g store).2 ≡ ok (length tx.ops))
      × (Map.get id (commit clock id g store).0 ≡ some (record tx { state = committed; ops = [] }))
unfolding commit
commit-active clock id g store tx found live = ground (
  arith,
  apply_ops_ok clock 0 tx.ops store,
  get-update id id (λ (t : StoreTransaction). record t { state = committed; ops = [] }) g,
  ==_self id,
)

-- A transaction that is begun under a new id, filled and committed leaves in a well-formed store, at
-- every namespace and key, what the queued operations mean there one after another, in the order in
-- which they were queued, and returns their number; the registry keeps it as committed, with an empty
-- queue.
pub commit-enqueue_all-begin :
    (now : ℕ) (clock : ℕ → ℕ) (id : String) (isolation : IsolationLevel) (ops : List StoreOp)
    (g : TxRegistry) {store : Db}
    → IsWellFormed store
    → Map.get id g ≡ none
    → let g' = enqueue_all id ops (begin now id isolation g).0 in
      let done = commit clock id g' store in
      ((ns key : String) → entry ns key done.1 ≡ replay clock 0 ops ns key (entry ns key store))
      × (done.2 ≡ ok (length ops))
      × (map_some (λ tx. tx.state) (Map.get id done.0) ≡ some committed)
      × (map_some (λ tx. tx.ops) (Map.get id done.0) ≡ some [])
unfolding begin
commit-enqueue_all-begin now clock id isolation ops g {store} w absent =
    let tx : StoreTransaction = record {
      id = id;
      isolation = isolation;
      state = active;
      ops = [];
      created_at_secs = now;
    } in
    let g1 = (begin now id isolation g).0 in
    let fresh : Map.get id g1 ≡ some tx = ground (arith, get-insert id id tx g, ==_self id) in
    let full = get-enqueue_all id ops g1 tx fresh refl in
    let done =
      commit-active clock id (enqueue_all id ops g1) store (record tx { ops = ops }) full refl in
    (
      λ ns key. ap (entry ns key) done.0 ∙ entry-apply_ops clock 0 ops w ns key,
      done.1,
      rw done.2 refl,
      rw done.2 refl,
    )
