-- ===== src/Transactions/Replay.antt =====
-- What the operations of a registry's transaction mean for the entries of a store, one after another.
use bridge_framework.Base.{
  ℕ, ◌+◌, ◌≡◌, refl, ap, ◌∙◌, ◌&&◌, String, Option, none, some, List, [], ◌∷◌, arith, ◌==◌,
  string_eq, if◌then◌else◌, contains, Option-cases, ==_iff, keep_if, ok,
}
use bridge_framework.Glob.Table.{glob_match}
use bridge_framework.Db
use bridge_framework.Db.{Db, entry}
use bridge_framework.Db.Entries
use bridge_framework.Db.Entries.{Entry, is_expired}
use bridge_framework.Db.View.{entry-put, entry-del}
use bridge_framework.Db.WellFormed
use bridge_framework.Db.WellFormed.{IsWellFormed, Step-IsWellFormed}
use bridge_framework.Db.Reads.{keys_matching-exists}
use bridge_framework.Transactions.Registry.{
  StoreOp, put, del, del_matching, del_all, apply_op, apply_ops,
}

-- What one queued operation means at time `now` for the entry at a namespace and a key. A deletion by
-- pattern leaves an entry that has expired, which nobody can read.
abbrev pub effect : ℕ → StoreOp → String → String → Option Entry → Option Entry
effect now (put ns key value) ns' key' e =
    if ns == ns' && key == key' then some (Entries.new value) else e
effect now (del ns key) ns' key' e = if ns == ns' && key == key' then none else e
effect now (del_matching ns pattern) ns' key' e =
    if ns == ns' && glob_match pattern key' then keep_if (is_expired now) e else e

-- The meaning of a queue: the effects in the order in which they were queued, operation `i` at time
-- `clock i`.
unfoldable pub replay : (ℕ → ℕ) → ℕ → List StoreOp → String → String → Option Entry → Option Entry
replay clock i [] ns key e = e
replay clock i (op ∷ ops) ns key e = replay clock (i + 1) ops ns key (effect (clock i) op ns key e)

entry-del_all :
    (ns : String) (doomed : List String) (store : Db) (ns' key : String)
    → entry ns' key (del_all ns doomed store)
      ≡ (if ns == ns' && contains key doomed then none else entry ns' key store)
unfolding del_all
entry-del_all ns [] store ns' key = ground arith
entry-del_all ns (k ∷ doomed) store ns' key =
    ground
      (arith, entry-del_all ns doomed (Db.del ns k store).0 ns' key, entry-del ns k store ns' key)

del_all-IsWellFormed :
    (ns : String) (doomed : List String) {store : Db}
    → IsWellFormed store
    → IsWellFormed (del_all ns doomed store)
unfolding del_all
del_all-IsWellFormed ns [] w = w
del_all-IsWellFormed ns (k ∷ doomed) {store} w =
    del_all-IsWellFormed ns doomed (Step-IsWellFormed (WellFormed.Step.del ns k store) w)

apply_op-IsWellFormed :
    (now : ℕ) (op : StoreOp) {store : Db}
    → IsWellFormed store
    → IsWellFormed (apply_op now op store).0
unfolding apply_op
apply_op-IsWellFormed now (put ns key value) {store} w =
    Step-IsWellFormed (WellFormed.Step.put ns key value store) w
apply_op-IsWellFormed now (del ns key) {store} w =
    Step-IsWellFormed (WellFormed.Step.del ns key store) w
apply_op-IsWellFormed now (del_matching ns pattern) {store} w =
    del_all-IsWellFormed ns (Db.keys_matching now ns pattern store) w

entry-apply_op :
    (now : ℕ) (op : StoreOp) {store : Db}
    → IsWellFormed store
    → (ns key : String)
    → entry ns key (apply_op now op store).0 ≡ effect now op ns key (entry ns key store)
unfolding apply_op Db.exists Db.get
entry-apply_op now (put ns key value) {store} w ns' key' = entry-put ns key value store ns' key'
entry-apply_op now (del ns key) {store} w ns' key' = entry-del ns key store ns' key'
entry-apply_op now (del_matching ns pattern) {store} w ns' key' = ground (
  arith,
  ==_iff ns ns',
  entry-del_all ns (Db.keys_matching now ns pattern store) store ns' key',
  keys_matching-exists now ns pattern w key',
  Option-cases (entry ns key' store),
)

apply_op_ok : (now : ℕ) (op : StoreOp) (store : Db) → (apply_op now op store).1 ≡ ok tt
unfolding apply_op
apply_op_ok now (put ns key value) store = refl
apply_op_ok now (del ns key) store = refl
apply_op_ok now (del_matching ns pattern) store = refl

pub entry-apply_ops :
    (clock : ℕ → ℕ) (i : ℕ) (ops : List StoreOp) {store : Db}
    → IsWellFormed store
    → (ns key : String)
    → entry ns key (apply_ops clock i ops store).0 ≡ replay clock i ops ns key (entry ns key store)
unfolding apply_ops replay
entry-apply_ops clock i [] w ns key = refl
entry-apply_ops clock i (op ∷ ops) {store} w ns key =
    rw (apply_ops, apply_op_ok (clock i) op store)
      (entry-apply_ops clock (i + 1) ops (apply_op-IsWellFormed (clock i) op w) ns key
        ∙ ap (replay clock (i + 1) ops ns key) (entry-apply_op (clock i) op w ns key))
