-- ===== src/Transactions/Tests.antt =====
-- Runs of the two transaction layers on small inputs.
use text.Mathlib.TextEquality.{eq_iff}
use bridge_framework.Base.{
  ℕ, ◌≡◌, ◌≢◌, refl, String, none, some, List, [], ◌∷◌, arith, string_eq, Result, ok, err, map_some,
}
use bridge_framework.Base.Map
use bridge_framework.Glob.Table.{glob_match}
use bridge_framework.Db
use bridge_framework.Db.{Db, entry}
use bridge_framework.Db.Entries.{is_expired}
use bridge_framework.Db.Tests.{sessions, sessions-IsWellFormed}
use bridge_framework.Transactions.{
  Error, committed, rolled_back, read_committed, not_active, cannot_commit,
}
use bridge_framework.Transactions.Manager
use bridge_framework.Transactions.Manager.{TransactionManager, Operation, get_transaction}
use bridge_framework.Transactions.Registry.{
  StoreOp, TxRegistry, put, del_matching, apply_op, apply_ops, begin, enqueue, commit, rollback,
  prune_finished,
}
use bridge_framework.Transactions.Lifecycle
use bridge_framework.Transactions.Lifecycle.{enqueue_all}
use bridge_framework.Transactions.Final
use bridge_framework.Transactions.Final.{IsClosed}
use bridge_framework.Transactions.Reachable
use bridge_framework.Transactions.Replay.{replay}
use bridge_framework.Transactions.Bounded

program : Unit {0}
unfolding apply_ops apply_op begin enqueue commit rollback prune_finished enqueue_all Manager.begin
    Manager.commit Manager.add_operation Manager.rollback Manager.default Map.get Map.insert
    Map.update Map.remove Map.retain glob_match is_expired Db.put Db.put_with_ttl Db.get Db.del
    Db.keys_matching
program = tt

abbrev queue : List StoreOp
queue = put "sessions" "user:7" "a" ∷ del_matching "sessions" "user:1*" ∷ []

abbrev opened : TxRegistry
opened = enqueue_all "t1" queue (begin 50 "t1" read_committed []).0

abbrev done : TxRegistry × Db × Result Error ℕ
done = commit (λ i. 100) "t1" opened sessions

committed_run :
    (Db.get 100 "sessions" "user:7" done.1 ≡ some "a")
    × (Db.get 100 "sessions" "user:123" done.1 ≡ none)
    × (done.2 ≡ ok 2)
    × ((prune_finished done.0).1 ≡ 1)
unfolding program
committed_run = (refl, refl, refl, refl)

commit-enqueue_all-begin_example :
    let g = enqueue_all "t1" queue (begin 50 "t1" read_committed []).0 in
    let end = commit (λ i. 100) "t1" g sessions in
    ((ns key : String)
      → entry ns key end.1 ≡ replay (λ i. 100) 0 queue ns key (entry ns key sessions))
    × (end.2 ≡ ok 2)
    × (map_some (λ tx. tx.state) (Map.get "t1" end.0) ≡ some committed)
    × (map_some (λ tx. tx.ops) (Map.get "t1" end.0) ≡ some [])
unfolding Map.get
commit-enqueue_all-begin_example =
    Lifecycle.commit-enqueue_all-begin 50 (λ i. 100) "t1" read_committed queue []
      sessions-IsWellFormed refl

commit-IsClosed_example : IsClosed "t1" (commit (λ i. 100) "t1" opened sessions).0
unfolding program
commit-IsClosed_example = Final.commit-IsClosed (λ i. 100) "t1" opened sessions refl

t1-ne-t2 : ◌≢◌ {A = String} "t1" "t2"
t1-ne-t2 = ground (arith, eq_iff "t1" "t2")

abbrev begun : TxRegistry
begun = (begin 50 "t1" read_committed []).0

begun-Reach : Reachable.Reach sessions (begun, sessions)
begun-Reach =
    Reachable.next Reachable.start (Reachable.Step.begin 50 "t1" read_committed [] sessions)

Reach-IsConsistent_example : Reachable.IsConsistent begun
Reach-IsConsistent_example = Reachable.Reach-IsConsistent begun-Reach

abbrev manager : TransactionManager
manager = (Manager.begin "t1" Manager.default).0

manager-Reach : Bounded.Reach read_committed manager
unfolding Manager.default
manager-Reach = Bounded.next Bounded.start (Bounded.Step.begin "t1" (Manager.new read_committed))

abbrev note : Operation
note = record { id = "o1"; operation_type = "write"; payload = [] }

rollback-commit_example :
    let m = (Manager.commit "t1" manager).0 in
    ((Manager.commit "t1" m).1 ≡ err cannot_commit)
    × ((Manager.add_operation "t1" note m).1 ≡ err (not_active committed))
    × ((Manager.rollback "t1" m).1 ≡ ok tt)
    × (map_some (λ tx. tx.state) (get_transaction "t1" (Manager.rollback "t1" m).0)
        ≡ some rolled_back)
unfolding program
rollback-commit_example = Bounded.rollback-commit "t1" note manager refl
