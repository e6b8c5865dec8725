-- ===== src/PubSub/Fanout.antt =====
-- Subscriptions, and the fan-out of a publication.
use bridge_framework.Base.{
  ◌≡◌, true, ◌&&◌, String, List, [], ◌∷◌, push, if◌then◌else◌, contains, NoRepeats, NoRepeats-push,
  contains-push, ==_self, string_eq, pair_eq, ◌==◌, ==_iff, arith, Bool-cases, Option-cases, inl,
  inr, Everywhere, Everywhere-insert,
}
use bridge_framework.Base.Map
use bridge_framework.Base.Map.{Map, get-insert}
use bridge_framework.PubSub.{
  Message, Queue, Channel, Broker, SubscriptionConfig, pending, subscribers, queue_or_default,
  fan_out, publish, subscribe, ensure_topic,
}

-- What stands in a subscriber's queue of a topic.
abbrev pub queue : String → String → Broker → Queue
queue topic subscriber b = queue_or_default (topic, subscriber) b.queues

queue-insert :
    (ch ch' : Channel) (q : Queue) (queues : Map Channel Queue)
    → queue_or_default ch' (Map.insert ch q queues)
      ≡ (if ch == ch' then q else queue_or_default ch' queues)
queue-insert ch ch' q queues = ground (arith, get-insert ch' ch q queues)

queue-fan_out :
    (msg : Message) (subs : List String) (queues : Map Channel Queue) (t s : String)
    → NoRepeats subs
    → queue_or_default (t, s) (fan_out msg subs queues) ≡ (
        if msg.topic == t && contains s subs
        then push (queue_or_default (t, s) queues) (record { message = msg; state = pending })
        else queue_or_default (t, s) queues)
unfolding fan_out
queue-fan_out msg [] queues t s n = ground arith
queue-fan_out msg (sub ∷ subs) queues t s n =
    let q =
      push (queue_or_default (msg.topic, sub) queues) (record { message = msg; state = pending }) in
    ground (
      arith,
      queue-fan_out msg subs (Map.insert (msg.topic, sub) q queues) t s n.1,
      queue-insert (msg.topic, sub) (t, s) q queues,
      ==_iff msg.topic t,
      ==_iff sub s,
    )

-- No topic names a subscriber twice.
abbrev pub Once : String → List String → Type 0
Once topic subs = NoRepeats subs

pub record IsAttached (b : Broker) : Type 0 where
  pub once : Everywhere Once b.subscriptions

pub subscribers-NoRepeats :
    (topic : String) {b : Broker} → IsAttached b → NoRepeats (subscribers topic b)
subscribers-NoRepeats topic {b} a = elim (Option-cases (Map.get topic b.subscriptions)) [
  | inl absent ↦ rw absent tt
  | inr (subs, found) ↦ rw found (a.once.at topic subs found)
]

-- However often a subscriber registers, its topic names it once; and declaring a topic adds nobody.
pub subscribe-IsAttached :
    (topic subscriber : String) (config : SubscriptionConfig) {b : Broker}
    → IsAttached b
    → IsAttached (subscribe topic subscriber config b)
      × IsAttached (ensure_topic topic b)
      × (contains subscriber (subscribers topic (subscribe topic subscriber config b)) ≡ true)
unfolding subscribe ensure_topic
subscribe-IsAttached topic subscriber config {b} a =
    let old = subscribers topic b in
    let n = subscribers-NoRepeats topic a in
    let n' : NoRepeats (if contains subscriber old then old else push old subscriber) =
      elim (Bool-cases (contains subscriber old)) [
        | inl known ↦ rw known n
        | inr fresh ↦ rw fresh (NoRepeats-push old subscriber fresh n)
      ] in
    (
      record { once = Everywhere-insert Once topic _ n' a.once },
      record { once = Everywhere-insert Once topic _ n a.once },
      ground (
        arith,
        get-insert topic topic (if contains subscriber old then old else push old subscriber)
            b.subscriptions,
        contains-push subscriber old subscriber,
        ==_self topic,
        ==_self subscriber,
      ),
    )

-- In a broker in which no topic names a subscriber twice, a publication puts the message, as
-- pending, at the end of the queue of every subscriber of its topic, once, and leaves every other
-- queue as it is.
pub queue-publish :
    (msg : Message) {b : Broker}
    → IsAttached b
    → (topic subscriber : String)
    → queue topic subscriber (publish msg b).0 ≡ (
        if msg.topic == topic && contains subscriber (subscribers topic b)
        then push (queue topic subscriber b) (record { message = msg; state = pending })
        else queue topic subscriber b)
unfolding publish
queue-publish msg {b} a topic subscriber = ground (
  arith,
  queue-fan_out msg (subscribers msg.topic b) b.queues topic subscriber
      (subscribers-NoRepeats msg.topic a),
  ==_iff msg.topic topic,
)
