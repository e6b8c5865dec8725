-- ===== src/PubSub/Shared.antt =====
-- A publication gives all subscribers copies with one id, and the table of messages in flight has
-- one entry for an id.
use bridge_framework.Base.{
  ℕ, ◌≡◌, ◌≢◌, ◌∙◌, true, false, not, String, some, arith, string_eq, pair_eq, ==_iff, set_first,
  filterb, refl, none, Option-cases, inl, inr, ==_self,
}
use mathlib.Core.Path.{subst}
use bridge_framework.Base.Map
use bridge_framework.Base.Map.{get-insert, get-remove}
use bridge_framework.PubSub.{Message, Broker, waits, deliver, carries, pull, ack, nack}
use bridge_framework.PubSub.Fanout.{queue}
use bridge_framework.PubSub.Delivery.{pulled, ack-pull, queue-ack_other}

queue-pull_other :
    (now later : ℕ) (topic first second : String) (b : Broker) (m : Message)
    → first ≢ second
    → (pull now later topic second b).1 ≡ some m
    → queue topic first (pull now later topic second b).0 ≡ queue topic first b
queue-pull_other now later topic first second b m ne h =
    let p = pulled now later topic second b m h in
    rw p.after (
      ground (
        arith,
        get-insert (topic, first) (topic, second) (set_first waits (deliver now) p.queue_before)
            b.queues,
        ==_iff second first,
      ))

-- No message of an id that was acknowledged is in flight.
get-ack : (id : String) (b : Broker) → Map.get id (ack id b).0.in_flight ≡ none
unfolding ack
get-ack id b = elim (Option-cases (Map.get id b.in_flight)) [
  | inl absent ↦ rw (absent, ack) absent
  | inr ((ch, at), found) ↦ elim (Option-cases (Map.get ch b.queues)) [
    | inl nothing ↦ ground (arith, get-remove id id b.in_flight, ==_self id)
    | inr (q, was) ↦ ground (arith, get-remove id id b.in_flight, ==_self id)
  ]
]

nack-absent :
    (id reason : String) (b : Broker)
    → Map.get id b.in_flight ≡ none
    → nack id reason b ≡ (b, false)
unfolding nack
nack-absent id reason b absent = rw (nack, absent) refl

abbrev Settled : String → String → String → Broker → Broker → String → Type 0
Settled topic first second b1 b2 id =
    let b3 = (ack id b2).0 in
    ((ack id b2).1 ≡ true)
    × (queue topic second b3 ≡ filterb (λ e. not (carries id e)) (queue topic second b2))
    × (queue topic first b3 ≡ queue topic first b1)
    × (ack id b3 ≡ (b3, false))
    × ((reason : String) → nack id reason b3 ≡ (b3, false))

-- When two subscribers of a topic have pulled copies of one message, the first acknowledgement of
-- its id settles the copy of the subscriber that pulled last, whoever sends it. The queue of the
-- first stays as it was, and the next acknowledgement or refusal of the id, from whomever, is refused
-- and changes nothing.
pub ack-pull-pull :
    (t1 t2 t3 t4 : ℕ) (topic first second : String) (b : Broker) (m1 m2 : Message)
    → first ≢ second
    → (pull t1 t2 topic first b).1 ≡ some m1
    → (pull t3 t4 topic second (pull t1 t2 topic first b).0).1 ≡ some m2
    → m2.id ≡ m1.id
    → let b1 = (pull t1 t2 topic first b).0 in
      let b2 = (pull t3 t4 topic second b1).0 in
      let b3 = (ack m1.id b2).0 in
      ((ack m1.id b2).1 ≡ true)
      × (queue topic second b3 ≡ filterb (λ e. not (carries m1.id e)) (queue topic second b2))
      × (queue topic first b3 ≡ queue topic first b1)
      × (ack m1.id b3 ≡ (b3, false))
      × ((reason : String) → nack m1.id reason b3 ≡ (b3, false))
ack-pull-pull t1 t2 t3 t4 topic first second b m1 m2 ne h1 h2 same =
    let b1 = (pull t1 t2 topic first b).0 in
    let b2 = (pull t3 t4 topic second b1).0 in
    let settled = ack-pull t3 t4 topic second b1 m2 h2 in
    let alone =
      queue-ack_other t3 t4 topic second first b1 m2 ne h2
      ∙ queue-pull_other t3 t4 topic first second b1 m2 ne h2 in
    let refused =
      λ (reason : String). nack-absent m2.id reason (ack m2.id b2).0 (get-ack m2.id b2) in
    subst (Settled topic first second b1 b2) same (settled.0, settled.1, alone, settled.2, refused)
