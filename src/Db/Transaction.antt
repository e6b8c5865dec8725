-- ===== src/Db/Transaction.antt =====
-- `Transaction` of db/src/lib.rs: it holds its operations; the store that it borrows is an argument
-- of `commit`.
use bridge_framework.Base.{ℕ, String, List, [], length, push}
use bridge_framework.Db.{Db}
use bridge_framework.Db.TxOp.{TxOp, apply_all}

pub record Transaction : Type 0 where
  pub ops : List TxOp

abbrev pub new : Transaction
new = record { ops = [] }

unfoldable pub put : String → String → String → Transaction → Transaction
put ns key value tx = record { ops = push tx.ops (TxOp.put ns key value) }

unfoldable pub put_with_ttl : String → String → String → ℕ → Transaction → Transaction
put_with_ttl ns key value ttl tx = record { ops = push tx.ops (TxOp.put_ttl ns key value ttl) }

unfoldable pub del : String → String → Transaction → Transaction
del ns key tx = record { ops = push tx.ops (TxOp.del ns key) }

unfoldable pub flush : String → Transaction → Transaction
flush ns tx = record { ops = push tx.ops (TxOp.flush ns) }

abbrev pub op_count : Transaction → ℕ
op_count tx = length tx.ops

unfoldable pub commit : (ℕ → ℕ) → Transaction → Db → Db × ℕ
commit clock tx db = (apply_all clock 0 tx.ops db, op_count tx)

-- Rolling back drops the operations.
unfoldable pub rollback : Transaction → Db → Db
rollback tx db = db
