-- ===== src/PubSub.antt =====
-- The in-process broker of daemon/src/pubsub.rs. Each method is one step, as it is under the
-- broker's lock. A method that reads the clock takes its readings first. The 64-bit count of
-- publications is unbounded here; the 32-bit count of attempts wraps.
pub mod Fanout
pub mod Delivery
pub mod Limits
pub mod Retries
pub mod Shared
pub mod Exhausted
mod Tests
use bridge_framework.Base.{
  ℕ, ◌+◌, ◌%◌, ◌^◌, Bool, true, false, not, ◌&&◌, String, Option, none, some, List, [], ◌∷◌, length,
  push, filterb, countb, anyb, find_first, set_first, unwrap_or, map_some, is_some, ltb,
  if◌then◌else◌, contains, string_eq, pair_eq, ◌==◌,
}
use bridge_framework.Base.Map
use bridge_framework.Base.Map.{Map}

pub record Message : Type 0 where
  pub id : String
  pub topic : String
  pub payload : String
  pub attributes : Map String String
  pub published_at : ℕ
  pub ordering_key : Option String
  pub attempt : ℕ  -- u32

-- `Message::new`, with the identifier that `gen_id` draws and the clock's reading.
unfoldable pub message : String → ℕ → String → String → Message
message id now topic payload = record {
  id = id;
  topic = topic;
  payload = payload;
  attributes = [];
  published_at = now;
  ordering_key = none;
  attempt = 0;
}

unfoldable pub with_attr : String → String → Message → Message
with_attr key value m = record m { attributes = Map.insert key value m.attributes }

unfoldable pub with_ordering_key : String → Message → Message
with_ordering_key key m = record m { ordering_key = some key }

pub record SubscriptionConfig : Type 0 where
  pub max_concurrency : ℕ
  pub max_retries : ℕ  -- u32
  pub retry_delay_ms : ℕ
  pub ack_deadline_secs : ℕ
  pub message_ordering : Bool

abbrev pub default_config : SubscriptionConfig
default_config = record {
  max_concurrency = 10;
  max_retries = 3;
  retry_delay_ms = 1000;
  ack_deadline_secs = 30;
  message_ordering = false;
}

pub data MessageState : Type 0 where
  pending : MessageState
  delivered : ℕ → MessageState
  acked : MessageState
  dead_letter : String → MessageState

abbrev pub is_pending : MessageState → Bool
is_pending pending = true
is_pending _ = false

abbrev pub is_delivered : MessageState → Bool
is_delivered (delivered at) = true
is_delivered _ = false

pub record QueueEntry : Type 0 where
  pub message : Message
  pub state : MessageState

abbrev pub Queue : Type 0
Queue = List QueueEntry

-- A topic and a subscriber.
abbrev pub Channel : Type 0
Channel = String × String

pub record Broker : Type 0 where
  pub subscriptions : Map String (List String)
  pub queues : Map Channel Queue
  pub in_flight : Map String (Channel × ℕ)
  pub configs : Map String SubscriptionConfig
  pub dlq : Map Channel (List Message)
  pub publish_count : ℕ

abbrev pub new : Broker
new = record {
  subscriptions = [];
  queues = [];
  in_flight = [];
  configs = [];
  dlq = [];
  publish_count = 0;
}

abbrev pub subscribers : String → Broker → List String
subscribers topic b = unwrap_or [] (Map.get topic b.subscriptions)

abbrev pub queue_or_default : Channel → Map Channel Queue → Queue
queue_or_default ch queues = unwrap_or [] (Map.get ch queues)

-- `entry(ch).or_default()` of a map of lists.
abbrev pub ensure {ℓ} : {A : Type ℓ} → Channel → Map Channel (List A) → Map Channel (List A)
ensure ch m = Map.insert ch (unwrap_or [] (Map.get ch m)) m

unfoldable pub subscribe : String → String → SubscriptionConfig → Broker → Broker
subscribe topic subscriber config b =
    let subs = subscribers topic b in
    record b {
      subscriptions =
          Map.insert topic (if contains subscriber subs then subs else push subs subscriber)
            b.subscriptions;
      configs = Map.insert subscriber config b.configs;
      queues = ensure (topic, subscriber) b.queues;
    }

abbrev pub topic_exists : String → Broker → Bool
topic_exists topic b = Map.contains_key topic b.subscriptions

abbrev pub has_subscription : String → String → Broker → Bool
has_subscription topic subscriber b = contains subscriber (subscribers topic b)

unfoldable pub ensure_topic : String → Broker → Broker
ensure_topic topic b = record b {
  subscriptions = Map.insert topic (subscribers topic b) b.subscriptions;
}

abbrev pub subscriber_count : String → Broker → ℕ
subscriber_count topic b = length (subscribers topic b)

-- The loop of `publish` over the subscribers.
unfoldable pub fan_out : Message → List String → Map Channel Queue → Map Channel Queue
fan_out msg [] queues = queues
fan_out msg (sub ∷ subs) queues = fan_out msg subs (
    Map.insert (msg.topic, sub)
      (push (queue_or_default (msg.topic, sub) queues) (record { message = msg; state = pending }))
      queues)

unfoldable pub publish : Message → Broker → Broker × ℕ
publish msg b = (
  record b {
    publish_count = b.publish_count + 1;
    queues = fan_out msg (subscribers msg.topic b) b.queues;
  },
  b.publish_count + 1,
)

abbrev pub is_ordered : String → Broker → Bool
is_ordered subscriber b =
    unwrap_or false (map_some (λ c. c.message_ordering) (Map.get subscriber b.configs))

abbrev pub attempted : Message → Message
attempted m = record m { attempt = (m.attempt + 1) % 2 ^ 32 }

abbrev pub deliver : ℕ → QueueEntry → QueueEntry
deliver now e = record { message = attempted e.message; state = delivered now }

abbrev pub waits : QueueEntry → Bool
waits e = is_pending e.state

abbrev pub is_out : QueueEntry → Bool
is_out e = is_delivered e.state

-- The clock is read once for the entry and once for the table of messages in flight.
unfoldable pub pull : ℕ → ℕ → String → String → Broker → Broker × Option Message
pull now later topic subscriber b = elim (Map.get (topic, subscriber) b.queues) [
  | none ↦ (b, none)
  | some queue ↦
      if is_ordered subscriber b && anyb is_out queue
      then (b, none)
      else (elim (find_first waits queue) [
        | none ↦ (b, none)
        | some e ↦ (
          record b {
            queues = Map.insert (topic, subscriber) (set_first waits (deliver now) queue) b.queues;
            in_flight = Map.insert e.message.id ((topic, subscriber), later) b.in_flight;
          },
          some (attempted e.message),
        )
      ])
]

abbrev pub carries : String → QueueEntry → Bool
carries id e = e.message.id == id

unfoldable pub ack : String → Broker → Broker × Bool
ack id b = elim (Map.get id b.in_flight) [
  | none ↦ (b, false)
  | some (ch, at) ↦
      let settled = record b { in_flight = Map.remove id b.in_flight } in
      elim (Map.get ch b.queues) [
        | none ↦ (settled, false)
        | some queue ↦ (
          record settled {
            queues = Map.insert ch (filterb (λ e. not (carries id e)) queue) b.queues;
          },
          true,
        )
      ]
]

abbrev pub retries_allowed : String → Broker → ℕ
retries_allowed subscriber b =
    unwrap_or 3 (map_some (λ c. c.max_retries) (Map.get subscriber b.configs))

abbrev pub with_state : MessageState → QueueEntry → QueueEntry
with_state state e = record e { state = state }

unfoldable pub nack : String → String → Broker → Broker × Bool
nack id reason b = elim (Map.get id b.in_flight) [
  | none ↦ (b, false)
  | some (ch, at) ↦
      let queue = queue_or_default ch b.queues in
      let settled = record b { in_flight = Map.remove id b.in_flight } in
      elim (find_first (carries id) queue) [
        | none ↦ (record settled { queues = Map.insert ch queue b.queues }, false)
        | some e ↦
            if ltb (retries_allowed ch.1 b) e.message.attempt
            then (
              record settled {
                queues =
                    Map.insert ch (set_first (carries id) (with_state (dead_letter reason)) queue)
                      b.queues;
                dlq = Map.insert ch (push (unwrap_or [] (Map.get ch b.dlq)) e.message) b.dlq;
              },
              true,
            )
            else (
              record settled {
                queues = Map.insert ch (set_first (carries id) (with_state pending) queue) b.queues;
              },
              true,
            )
      ]
]

abbrev pub queue_depth : String → String → Broker → ℕ
queue_depth topic subscriber b = countb waits (queue_or_default (topic, subscriber) b.queues)

abbrev pub dlq_depth : String → String → Broker → ℕ
dlq_depth topic subscriber b = length (unwrap_or [] (Map.get (topic, subscriber) b.dlq))
