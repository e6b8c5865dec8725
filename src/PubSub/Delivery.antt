-- ===== src/PubSub/Delivery.antt =====
-- Pulling, acknowledging and requeueing.
use bridge_framework.Base.{
  ℕ, ◌≤◌, ◌≡◌, ◌≢◌, refl, sym, ap, ◌∙◌, true, false, not, ◌&&◌, String, none, some, List, [], ◌∷◌,
  map, contains, NoRepeats, string_eq, pair_eq, ==_iff, ==_self, arith, Bool-cases, Option-cases,
  inl, inr, find_first, set_first, filterb, anyb, countb,
}
use mathlib.Core.Path.{subst}
use bridge_framework.Base.Map
use bridge_framework.Base.Map.{Map, get-insert, get-remove}
use bridge_framework.PubSub.{
  Message, QueueEntry, Queue, Channel, Broker, pending, is_ordered, is_out, waits, deliver,
  attempted, carries, with_state, pull, ack, nack, retries_allowed, queue_depth,
}
use bridge_framework.PubSub.Fanout.{queue}

anyb-set_first :
    (now : ℕ) (q : Queue) (e : QueueEntry)
    → find_first waits q ≡ some e
    → anyb is_out (set_first waits (deliver now) q) ≡ true
anyb-set_first now [] e h = absurd (ground arith)
anyb-set_first now (x ∷ q) e h = elim (Bool-cases (waits x)) [
  | inl here ↦ ground arith
  | inr later ↦ ground (arith, anyb-set_first now q e (rw later at h))
]

-- What a pull that returns a message has done.
pub record Pulled (now later : ℕ) (topic subscriber : String) (b : Broker) (m : Message)
    : Type 0 where
  pub queue_before : Queue
  pub taken : QueueEntry
  pub was : Map.get (topic, subscriber) b.queues ≡ some queue_before
  pub first : find_first waits queue_before ≡ some taken
  pub message : m ≡ attempted taken.message
  pub idle : (is_ordered subscriber b && anyb is_out queue_before) ≡ false
  pub after : (pull now later topic subscriber b).0 ≡ record b {
    queues = Map.insert (topic, subscriber) (set_first waits (deliver now) queue_before) b.queues;
    in_flight = Map.insert m.id ((topic, subscriber), later) b.in_flight;
  }

pub pulled :
    (now later : ℕ) (topic subscriber : String) (b : Broker) (m : Message)
    → (pull now later topic subscriber b).1 ≡ some m
    → Pulled now later topic subscriber b m
unfolding pull
pulled now later topic subscriber b m h =
    elim (Option-cases (Map.get (topic, subscriber) b.queues)) [
      | inl absent ↦ absurd (ground arith)
      | inr (q, was) ↦ elim (Bool-cases (is_ordered subscriber b && anyb is_out q)) [
        | inl busy ↦ absurd (ground arith)
        | inr idle ↦ elim (Option-cases (find_first waits q)) [
          | inl nothing ↦ absurd (ground arith)
          | inr (e, first) ↦ record {
            queue_before = q;
            taken = e;
            was = was;
            first = first;
            message = ground arith;
            idle = idle;
            after = ground arith;
          }
        ]
      ]
    ]

-- On an ordered subscription a message that has been pulled holds up all others: until it is settled
-- every further pull returns nothing and changes nothing.
pub pull-pull :
    (now later now' later' : ℕ) (topic subscriber : String) (b : Broker) (m : Message)
    → is_ordered subscriber b ≡ true
    → (pull now later topic subscriber b).1 ≡ some m
    → let b' = (pull now later topic subscriber b).0 in
      pull now' later' topic subscriber b' ≡ (b', none)
pull-pull now later now' later' topic subscriber b m ordered h =
    let p = pulled now later topic subscriber b m h in
    let q = set_first waits (deliver now) p.queue_before in
    rw p.after (
      unfold pull in
      ground (
        arith,
        get-insert (topic, subscriber) (topic, subscriber) q b.queues,
        anyb-set_first now p.queue_before p.taken p.first,
        ==_self topic,
        ==_self subscriber,
      ))

-- The broker with a message in flight from a channel.
abbrev flying : String → Channel → ℕ → Queue → Broker → Broker
flying id ch at q b = record b {
  queues = Map.insert ch q b.queues;
  in_flight = Map.insert id (ch, at) b.in_flight;
}

module _ (id topic subscriber : String) (at : ℕ) (q : Queue) (b : Broker) where
  ack-flying :
      let b' = flying id (topic, subscriber) at q b in
      let b'' = (ack id b').0 in
      ((ack id b').1 ≡ true)
      × (queue topic subscriber b'' ≡ filterb (λ e. not (carries id e)) (queue topic subscriber b'))
      × (ack id b'' ≡ (b'', false))
  unfolding ack
  ack-flying =
      let ch : Channel = (topic, subscriber) in
      ground (
        arith,
        get-insert ch ch q b.queues,
        get-insert id id (ch, at) b.in_flight,
        get-insert ch ch (filterb (λ e. not (carries id e)) q) (Map.insert ch q b.queues),
        get-remove id id (Map.insert id (ch, at) b.in_flight),
        ==_self topic,
        ==_self subscriber,
        ==_self id,
      )

  ack-flying_other :
      (other : String)
      → other ≢ subscriber
      → let b' = flying id (topic, subscriber) at q b in
        queue topic other (ack id b').0 ≡ queue topic other b'
  unfolding ack
  ack-flying_other other ne =
      let ch : Channel = (topic, subscriber) in
      ground (
        arith,
        get-insert ch ch q b.queues,
        get-insert id id (ch, at) b.in_flight,
        get-insert (topic, other) ch (filterb (λ e. not (carries id e)) q)
            (Map.insert ch q b.queues),
        ==_self topic,
        ==_self subscriber,
        ==_self id,
        ==_iff subscriber other,
      )

  nack-flying :
      (reason : String) (e : QueueEntry)
      → find_first (carries id) q ≡ some e
      → e.message.attempt ≤ retries_allowed subscriber b
      → let b' = flying id (topic, subscriber) at q b in
        ((nack id reason b').1 ≡ true)
        × (queue topic subscriber (nack id reason b').0
            ≡ set_first (carries id) (with_state pending) q)
  unfolding nack
  nack-flying reason e found left =
      let ch : Channel = (topic, subscriber) in
      ground (
        arith,
        get-insert ch ch q b.queues,
        get-insert id id (ch, at) b.in_flight,
        get-insert ch ch (set_first (carries id) (with_state pending) q) (Map.insert ch q b.queues),
        ==_self topic,
        ==_self subscriber,
        ==_self id,
      )

-- A message that has been pulled can be acknowledged once: then every copy of its id is gone from
-- the queue that it was pulled from, and a second acknowledgement is refused.
pub ack-pull :
    (now later : ℕ) (topic subscriber : String) (b : Broker) (m : Message)
    → (pull now later topic subscriber b).1 ≡ some m
    → let b' = (pull now later topic subscriber b).0 in
      let b'' = (ack m.id b').0 in
      ((ack m.id b').1 ≡ true)
      × (queue topic subscriber b''
          ≡ filterb (λ e. not (carries m.id e)) (queue topic subscriber b'))
      × (ack m.id b'' ≡ (b'', false))
ack-pull now later topic subscriber b m h =
    let p = pulled now later topic subscriber b m h in
    rw p.after
      (ack-flying m.id topic subscriber later (set_first waits (deliver now) p.queue_before) b)

-- An acknowledgement of what one subscriber has pulled leaves the others' queues alone.
pub queue-ack_other :
    (now later : ℕ) (topic subscriber other : String) (b : Broker) (m : Message)
    → other ≢ subscriber
    → (pull now later topic subscriber b).1 ≡ some m
    → let b' = (pull now later topic subscriber b).0 in
      queue topic other (ack m.id b').0 ≡ queue topic other b'
queue-ack_other now later topic subscriber other b m ne h =
    let p = pulled now later topic subscriber b m h in
    rw p.after (
      ack-flying_other m.id topic subscriber later (set_first waits (deliver now) p.queue_before) b
        other ne)

abbrev pub message_ids : Queue → List String
message_ids = map (λ e. e.message.id)

contains-waiting :
    (q : Queue) (e : QueueEntry)
    → find_first waits q ≡ some e
    → contains e.message.id (message_ids q) ≡ true
contains-waiting [] e h = absurd (ground arith)
contains-waiting (x ∷ q) e h = elim (Bool-cases (waits x)) [
  | inl here ↦
      let same : x ≡ e = ground arith in rw (ap (λ y. y.message.id) same, ==_self e.message.id) refl
  | inr later ↦ ground (arith, contains-waiting q e (rw later at h))
]

-- The entry that was delivered is found by its id, and to make it wait again restores the count.
abbrev Requeued : ℕ → Queue → QueueEntry → String → Type 0
Requeued now q e id =
    let q' = set_first waits (deliver now) q in
    (find_first (carries id) q' ≡ some (deliver now e))
    × (countb waits (set_first (carries id) (with_state pending) q') ≡ countb waits q)

requeue :
    (now : ℕ) (q : Queue) (e : QueueEntry)
    → NoRepeats (message_ids q)
    → find_first waits q ≡ some e
    → Requeued now q e e.message.id
requeue now [] e n h = absurd (ground arith)
requeue now (x ∷ q) e n h = elim (Bool-cases (waits x)) [
  | inl here ↦ let same : x ≡ e = ground arith in rw (← same) (ground (arith, ==_self x.message.id))
  | inr later ↦
      let h' : find_first waits q ≡ some e = rw later at h in
      ground
        (arith, requeue now q e n.1 h', contains-waiting q e h', ==_iff x.message.id e.message.id)
]

-- Where no two messages of a queue have one id, a message that has been pulled and has attempts
-- left goes back when it is refused: as many messages wait in its queue as before the pull.
pub queue_depth-nack-pull :
    (now later : ℕ) (topic subscriber reason : String) (b : Broker) (m : Message)
    → NoRepeats (message_ids (queue topic subscriber b))
    → (pull now later topic subscriber b).1 ≡ some m
    → m.attempt ≤ retries_allowed subscriber b
    → let b' = (pull now later topic subscriber b).0 in
      ((nack m.id reason b').1 ≡ true)
      × (queue_depth topic subscriber (nack m.id reason b').0 ≡ queue_depth topic subscriber b)
queue_depth-nack-pull now later topic subscriber reason b m n h left =
    let p = pulled now later topic subscriber b m h in
    let q = set_first waits (deliver now) p.queue_before in
    let r = requeue now p.queue_before p.taken (rw p.was at n) p.first in
    let same : p.taken.message.id ≡ m.id = ap (λ x. x.id) (sym p.message) in
    let r' = subst (Requeued now p.queue_before p.taken) same r in
    let d =
      nack-flying m.id topic subscriber later q b reason (deliver now p.taken) r'.0
        (subst (λ (x : Message). x.attempt ≤ retries_allowed subscriber b) p.message left) in
    let before : countb waits p.queue_before ≡ queue_depth topic subscriber b = rw p.was refl in
    rw p.after (d.0, ap (countb waits) d.1 ∙ r'.1 ∙ before)
