-- ===== src/Db/TxOp.antt =====
-- `TxOp` of db/src/lib.rs, and the loop of `Transaction::commit` that applies a queue of them.
use bridge_framework.Base.{ℕ, ◌+◌, String, List, [], ◌∷◌}
use bridge_framework.Db
use bridge_framework.Db.{Db}

pub data TxOp : Type 0 where
  put : String → String → String → TxOp
  put_ttl : String → String → String → ℕ → TxOp
  del : String → String → TxOp
  flush : String → TxOp

-- One turn of the loop, with the clock's reading in that turn.
unfoldable pub apply : ℕ → TxOp → Db → Db
apply now (put ns key value) db = Db.put ns key value db
apply now (put_ttl ns key value ttl) db = Db.put_with_ttl now ns key value ttl db
apply now (del ns key) db = (Db.del ns key db).0
apply now (flush ns) db = (Db.flush_ns ns db).0

-- The loop: `clock i` is the reading in turn `i`.
unfoldable pub apply_all : (ℕ → ℕ) → ℕ → List TxOp → Db → Db
apply_all clock i [] db = db
apply_all clock i (op ∷ ops) db = apply_all clock (i + 1) ops (apply (clock i) op db)
