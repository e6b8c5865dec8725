-- ===== src/Transactions/Apply.antt =====
-- What the queued operations of a registry's transaction do to the store.
use bridge_framework.Base.{
  ℕ, ◌+◌, ◌≡◌, refl, ◌&&◌, String, none, List, [], ◌∷◌, arith, ◌==◌, string_eq, if◌then◌else◌, ok,
  contains, Option-cases, ==_iff,
}
use bridge_framework.Glob.Table.{glob_match}
use bridge_framework.Db
use bridge_framework.Db.{Db, entry}
use bridge_framework.Db.WellFormed.{IsWellFormed}
use bridge_framework.Db.Reads.{get-del, keys_matching-exists}
use bridge_framework.Transactions.Registry.{
  StoreOp, put, del, del_matching, del_all, apply_op, apply_ops,
}

-- No queued operation fails, whatever the store: the error path of `commit` is never taken.
pub apply_ops_ok :
    (clock : ℕ → ℕ) (i : ℕ) (ops : List StoreOp) (store : Db)
    → (apply_ops clock i ops store).1 ≡ ok tt
unfolding apply_ops apply_op
apply_ops_ok clock i [] store = refl
apply_ops_ok clock i (put ns key value ∷ ops) store = apply_ops_ok clock (i + 1) ops _
apply_ops_ok clock i (del ns key ∷ ops) store = apply_ops_ok clock (i + 1) ops _
apply_ops_ok clock i (del_matching ns pattern ∷ ops) store = apply_ops_ok clock (i + 1) ops _

get-del_all :
    (t : ℕ) (ns : String) (doomed : List String) (store : Db) (ns' key : String)
    → Db.get t ns' key (del_all ns doomed store)
      ≡ (if ns == ns' && contains key doomed then none else Db.get t ns' key store)
unfolding del_all
get-del_all t ns [] store ns' key = ground arith
get-del_all t ns (k ∷ doomed) store ns' key =
    ground
      (arith, get-del_all t ns doomed (Db.del ns k store).0 ns' key, get-del t ns k store ns' key)

-- On a well-formed store a deletion by pattern at time `now` removes from its namespace exactly
-- the keys that match: at `now` none of them can be read, and every other key, here and elsewhere,
-- reads as before.
pub get-del_matching :
    (now : ℕ) (ns pattern : String) {store : Db}
    → IsWellFormed store
    → (ns' key : String)
    → Db.get now ns' key (apply_op now (del_matching ns pattern) store).0
      ≡ (if ns == ns' && glob_match pattern key then none else Db.get now ns' key store)
unfolding apply_op Db.exists
get-del_matching now ns pattern {store} w ns' key = ground (
  arith,
  ==_iff ns ns',
  get-del_all now ns (Db.keys_matching now ns pattern store) store ns' key,
  keys_matching-exists now ns pattern w key,
  Option-cases (Db.get now ns key store),
)
