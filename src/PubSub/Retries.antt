-- ===== src/PubSub/Retries.antt =====
-- The bound on the attempts to deliver a message.
use mathlib.Core.Path.{subst}
use bridge_framework.Base.{
  ℕ, ◌≤◌, ◌≡◌, refl, String, [], arith, string_eq, pair_eq, Everywhere, Bool-cases, inl, inr, some,
  ◌==◌, ==_iff, if◌then◌else◌, ◌⊎◌, sym, All-imp,
}
use bridge_framework.Base.Map
use bridge_framework.Base.Map.{Map, get-insert}
use bridge_framework.PubSub
use bridge_framework.PubSub.{
  Message, QueueEntry, Queue, Channel, Broker, SubscriptionConfig, pending, delivered, dead_letter,
  is_pending, waits, is_out, is_ordered, deliver, carries, with_state, queue_or_default, fan_out,
  subscribers, retries_allowed,
}
use bridge_framework.PubSub.Limits.{
  IsWithin, AllWithin, limit, IsLimited, queue-within, put-within, pull-IsLimited,
  publish-IsLimited, ack-IsLimited, nack-IsLimited,
}

-- Nothing was ever queued for a subscriber.
abbrev pub IsIdle : String → Channel → Queue → Type 0
IsIdle subscriber ch q = ch.1 ≡ subscriber → q ≡ []

-- What may become of a subscriber's limit: it does not fall, or all of its queues are empty.
abbrev pub MayLimit : String → SubscriptionConfig → Broker → Type 0
MayLimit subscriber config b =
    (limit b.configs subscriber ≤ config.max_retries) ⊎ Everywhere (IsIdle subscriber) b.queues

-- The calls that change a broker. A message is new when it is published, and a subscription that
-- replaces another allows no fewer retries, unless the subscriber's queues are empty.
pub data Step : Broker → Broker → Type 0 where
  publish : (msg : Message) (b : Broker) → msg.attempt ≡ 0 → Step b (PubSub.publish msg b).0
  pull :
      (now later : ℕ) (topic subscriber : String) (b : Broker)
      → Step b (PubSub.pull now later topic subscriber b).0
  subscribe :
      (topic subscriber : String) (config : SubscriptionConfig) (b : Broker)
      → MayLimit subscriber config b
      → Step b (PubSub.subscribe topic subscriber config b)
  ensure_topic : (topic : String) (b : Broker) → Step b (PubSub.ensure_topic topic b)
  ack : (id : String) (b : Broker) → Step b (PubSub.ack id b).0
  nack : (id reason : String) (b : Broker) → Step b (PubSub.nack id reason b).0

pub data Reach (b : Broker) : Broker → Type 0 where
  start : Reach b b
  next : {c d : Broker} → Reach b c → Step c d → Reach b d

limit-insert :
    (configs : Map String SubscriptionConfig) (sub other : String) (config : SubscriptionConfig)
    → limit (Map.insert sub config configs) other
      ≡ (if sub == other then config.max_retries else limit configs other)
limit-insert configs sub other config = ground (arith, get-insert other sub config configs)

IsWithin-≤ : (m n : ℕ) → m ≤ n → (e : QueueEntry) → IsWithin m e → IsWithin n e
IsWithin-≤ m n h e (tried, waiting) = (omega arith, λ p. let w = waiting p in omega arith)

AllWithin-insert :
    (sub : String) (config : SubscriptionConfig) (b : Broker) (ch : Channel) (q : Queue)
    → MayLimit sub config b
    → Map.get ch b.queues ≡ some q
    → AllWithin b.configs ch q
    → AllWithin (Map.insert sub config b.configs) ch q
AllWithin-insert sub config b ch q may found w =
    let changed = limit-insert b.configs sub ch.1 config in
    elim (Bool-cases (sub == ch.1)) [
      | inl here ↦
          let same : sub ≡ ch.1 = (==_iff sub ch.1).0 here in
          let raised : limit (Map.insert sub config b.configs) ch.1 ≡ config.max_retries =
            ground arith in
          elim may [
            | inl more ↦
                let before : limit b.configs ch.1 ≤ config.max_retries =
                  subst (λ x. limit b.configs x ≤ config.max_retries) same more in
                rw (raised) (
                  All-imp (IsWithin (limit b.configs ch.1)) (IsWithin config.max_retries) q
                    (λ e within.
                      IsWithin-≤ (limit b.configs ch.1) config.max_retries before e within)
                    w)
            | inr idle ↦ let nothing : q ≡ [] = idle.at ch q found (sym same) in rw (nothing) tt
          ]
      | inr away ↦
          let kept : limit (Map.insert sub config b.configs) ch.1 ≡ limit b.configs ch.1 =
            ground arith in
          rw (kept) w
    ]

subscribe-IsLimited :
    (topic sub : String) (config : SubscriptionConfig) {b : Broker}
    → MayLimit sub config b
    → IsLimited b.configs b
    → IsLimited (Map.insert sub config b.configs) (PubSub.subscribe topic sub config b)
unfolding PubSub.subscribe
subscribe-IsLimited topic sub config {b} may l =
    let configs = Map.insert sub config b.configs in
    let w : Everywhere (AllWithin configs) b.queues = record {
      at = λ ch q found. AllWithin-insert sub config b ch q may found (l.within.at ch q found);
    } in
    record {
      configured = refl;
      within = put-within configs (topic, sub) _ (queue-within configs (topic, sub) w) w;
    }

-- A step that leaves the configurations alone.
settled :
    (configs : Map String SubscriptionConfig) {c : Broker}
    → IsLimited configs c
    → IsLimited c.configs c
settled configs {c} l = subst (λ x. IsLimited x c) (sym l.configured) l

Step-IsLimited : {b c : Broker} → Step b c → IsLimited b.configs b → IsLimited c.configs c
unfolding PubSub.subscribe PubSub.ensure_topic
Step-IsLimited (publish msg b z) l = settled b.configs (publish-IsLimited b.configs msg z l)
Step-IsLimited (pull now later topic subscriber b) l =
    settled b.configs (pull-IsLimited b.configs now later topic subscriber l)
Step-IsLimited (subscribe topic subscriber config b may) l =
    subscribe-IsLimited topic subscriber config may l
Step-IsLimited (ensure_topic topic b) l = record { configured = refl; within = l.within }
Step-IsLimited (ack id b) l = settled b.configs (ack-IsLimited b.configs id l)
Step-IsLimited (nack id reason b) l = settled b.configs (nack-IsLimited b.configs id reason l)

abbrev pub Unused : Channel → Queue → Type 0
Unused ch q = q ≡ []

Unused-IsLimited : {b : Broker} → Everywhere Unused b.queues → IsLimited b.configs b
Unused-IsLimited {b} unused = record {
  configured = refl;
  within = record { at = λ ch q found. rw (unused.at ch q found) tt };
}

-- However a broker whose queues are all empty is used, by every call that changes it: no queue ever
-- holds a message that has been attempted more often than once and the retries that its subscriber's
-- configuration of the moment allows, and what waits there has not used them up. What is published is
-- new, and a subscriber with a message in a queue is not subscribed again with fewer retries.
pub Reach-IsLimited :
    {b c : Broker} → Everywhere Unused b.queues → Reach b c → IsLimited c.configs c
Reach-IsLimited unused start = Unused-IsLimited unused
Reach-IsLimited unused (next r s) = Step-IsLimited s (Reach-IsLimited unused r)
