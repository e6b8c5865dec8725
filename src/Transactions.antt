-- ===== src/Transactions.antt =====
-- The types of daemon/src/transactions.rs that its two transaction layers share. A message of an
-- error is a constructor with the message's arguments.
pub mod Manager
pub mod Registry
pub mod Apply
pub mod Replay
pub mod Lifecycle
pub mod Final
pub mod Reachable
pub mod Bounded
mod Tests
use bridge_framework.Base.{ℕ, Bool, true, false, String, List, []}

pub data TransactionState : Type 0 where
  pending active committed rolled_back failed : TransactionState

unfoldable pub as_str : TransactionState → String
as_str pending = "pending"
as_str active = "active"
as_str committed = "committed"
as_str rolled_back = "rolled_back"
as_str failed = "failed"

-- `== TransactionState::Active`
abbrev pub is_active : TransactionState → Bool
is_active active = true
is_active _ = false

abbrev pub is_pending : TransactionState → Bool
is_pending pending = true
is_pending _ = false

pub data IsolationLevel : Type 0 where
  read_uncommitted read_committed repeatable_read serializable : IsolationLevel

unfoldable pub isolation_as_str : IsolationLevel → String
isolation_as_str read_uncommitted = "read_uncommitted"
isolation_as_str read_committed = "read_committed"
isolation_as_str repeatable_read = "repeatable_read"
isolation_as_str serializable = "serializable"

pub data Error : Type 0 where
  already_exists not_found : String → Error
  limit_reached cannot_commit : Error
  not_active : TransactionState → Error
  cannot_enqueue cannot_commit_in cannot_roll_back : String → TransactionState → Error
  commit_failed : String → Error → Error
