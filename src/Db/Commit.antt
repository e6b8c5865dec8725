-- ===== src/Db/Commit.antt =====
-- A commit against its specification on entries.
use bridge_framework.Base.{
  ℕ, ◌+◌, ◌≡◌, refl, ap, ◌∙◌, ◌&&◌, String, Option, none, some, List, [], ◌∷◌, ◌==◌, string_eq,
  if◌then◌else◌, length,
}
use bridge_framework.Db.{Db, entry}
use bridge_framework.Db.Entries
use bridge_framework.Db.Entries.{Entry}
use bridge_framework.Db.TxOp.{TxOp, apply, apply_all}
use bridge_framework.Db.Transaction.{Transaction, commit}
use bridge_framework.Db.View.{entry-put, entry-put_with_ttl, entry-del, entry-flush_ns}

-- What one queued operation means for the entry at a namespace and a key.
abbrev pub effect : ℕ → TxOp → String → String → Option Entry → Option Entry
effect now (TxOp.put ns key value) ns' key' e =
    if ns == ns' && key == key' then some (Entries.new value) else e
effect now (TxOp.put_ttl ns key value ttl) ns' key' e =
    if ns == ns' && key == key' then some (Entries.with_ttl now value ttl) else e
effect now (TxOp.del ns key) ns' key' e = if ns == ns' && key == key' then none else e
effect now (TxOp.flush ns) ns' key' e = if ns == ns' then none else e

-- The meaning of a queue: the effects in the order in which they were queued.
unfoldable pub replay : (ℕ → ℕ) → ℕ → List TxOp → String → String → Option Entry → Option Entry
replay clock i [] ns key e = e
replay clock i (op ∷ ops) ns key e = replay clock (i + 1) ops ns key (effect (clock i) op ns key e)

entry-apply :
    (now : ℕ) (op : TxOp) (db : Db) (ns key : String)
    → entry ns key (apply now op db) ≡ effect now op ns key (entry ns key db)
unfolding apply
entry-apply now (TxOp.put ns key value) db = entry-put ns key value db
entry-apply now (TxOp.put_ttl ns key value ttl) db = entry-put_with_ttl now ns key value ttl db
entry-apply now (TxOp.del ns key) db = entry-del ns key db
entry-apply now (TxOp.flush ns) db = entry-flush_ns ns db

entry-apply_all :
    (clock : ℕ → ℕ) (i : ℕ) (ops : List TxOp) (db : Db) (ns key : String)
    → entry ns key (apply_all clock i ops db) ≡ replay clock i ops ns key (entry ns key db)
unfolding apply_all replay
entry-apply_all clock i [] db ns key = refl
entry-apply_all clock i (op ∷ ops) db ns key =
    entry-apply_all clock (i + 1) ops (apply (clock i) op db) ns key
    ∙ ap (replay clock (i + 1) ops ns key) (entry-apply (clock i) op db ns key)

-- A commit leaves at every namespace and key what the queued operations mean there, in the order in
-- which they were queued, and returns how many they were.
pub commit-replay :
    (clock : ℕ → ℕ) (tx : Transaction) (db : Db)
    → ((ns key : String)
        → entry ns key (commit clock tx db).0 ≡ replay clock 0 tx.ops ns key (entry ns key db))
      × ((commit clock tx db).1 ≡ length tx.ops)
unfolding commit
commit-replay clock tx db = (entry-apply_all clock 0 tx.ops db, refl)
