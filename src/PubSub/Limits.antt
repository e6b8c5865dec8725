-- ===== src/PubSub/Limits.antt =====
-- The calls that leave the configurations alone keep to the attempts that these allow.
use mathlib.Core.Path.{subst}
use bridge_framework.Base.{
  ℕ, ◌+◌, ◌≤◌, ◌≡◌, true, not, String, List, [], ◌∷◌, arith, string_eq, pair_eq, ltb, Everywhere,
  Everywhere-insert, All, All-push, All-set_first, All-filterb, find_first, find_first-passes,
  Bool-cases, Option-cases, inl, inr, unwrap_or, anyb, ◌&&◌, map_some,
}
use native.Mathlib.Nat.{mod-le}
use bridge_framework.Base.Map
use bridge_framework.Base.Map.{Map, get-insert}
use bridge_framework.PubSub
use bridge_framework.PubSub.{
  Message, QueueEntry, Queue, Channel, Broker, SubscriptionConfig, pending, delivered, dead_letter,
  is_pending, waits, is_out, is_ordered, deliver, carries, with_state, queue_or_default, fan_out,
  subscribers, retries_allowed,
}

-- A message is attempted once more than it may be retried, at most, and only what may be attempted
-- again waits.
abbrev pub IsWithin : ℕ → QueueEntry → Type 0
IsWithin limit e =
    (e.message.attempt ≤ limit + 1) × (is_pending e.state ≡ true → e.message.attempt ≤ limit)

abbrev pub limit : Map String SubscriptionConfig → String → ℕ
limit configs subscriber = unwrap_or 3 (map_some (λ c. c.max_retries) (Map.get subscriber configs))

abbrev pub AllWithin : Map String SubscriptionConfig → Channel → Queue → Type 0
AllWithin configs ch q = All (IsWithin (limit configs ch.1)) q

pub record IsLimited (configs : Map String SubscriptionConfig) (b : Broker) : Type 0 where
  pub configured : b.configs ≡ configs
  pub within : Everywhere (AllWithin configs) b.queues

module _ (configs : Map String SubscriptionConfig) where
  pub queue-within :
      (ch : Channel) {queues : Map Channel Queue}
      → Everywhere (AllWithin configs) queues
      → AllWithin configs ch (queue_or_default ch queues)
  queue-within ch {queues} w = elim (Option-cases (Map.get ch queues)) [
    | inl absent ↦ rw absent tt
    | inr (q, found) ↦ rw found (w.at ch q found)
  ]

  pub put-within :
      (ch : Channel) (q : Queue) {queues : Map Channel Queue}
      → AllWithin configs ch q
      → Everywhere (AllWithin configs) queues
      → Everywhere (AllWithin configs) (Map.insert ch q queues)
  put-within ch q = Everywhere-insert (AllWithin configs) ch q

  fan_out-within :
      (msg : Message) (subs : List String) {queues : Map Channel Queue}
      → msg.attempt ≡ 0
      → Everywhere (AllWithin configs) queues
      → Everywhere (AllWithin configs) (fan_out msg subs queues)
  unfolding fan_out
  fan_out-within msg [] zero_attempts w = w
  fan_out-within msg (sub ∷ subs) {queues} zero_attempts w = fan_out-within msg subs zero_attempts (
      put-within (msg.topic, sub) _
        (All-push (IsWithin (limit configs sub)) (queue_or_default (msg.topic, sub) queues) _
          (queue-within (msg.topic, sub) w) (omega arith, λ _. omega arith))
        w)

  deliver-IsWithin :
      (now n : ℕ) (e : QueueEntry)
      → is_pending e.state ≡ true
      → IsWithin n e
      → IsWithin n (deliver now e)
  deliver-IsWithin now n e p w = (grind (arith, mod-le), λ h. absurd (ground arith))

  pub pull-IsLimited :
      (now later : ℕ) (topic subscriber : String) {b : Broker}
      → IsLimited configs b
      → IsLimited configs (PubSub.pull now later topic subscriber b).0
  unfolding PubSub.pull
  pull-IsLimited now later topic subscriber {b} l =
      elim (Option-cases (Map.get (topic, subscriber) b.queues)) [
        | inl absent ↦ rw (absent, PubSub.pull) l
        | inr (q, was) ↦ elim (Bool-cases (is_ordered subscriber b && anyb is_out q)) [
          | inl busy ↦ rw (was, PubSub.pull, busy) l
          | inr idle ↦ elim (Option-cases (find_first waits q)) [
            | inl nothing ↦ rw (was, PubSub.pull, idle, nothing) l
            | inr (e, first) ↦
                rw (was, PubSub.pull, idle, first)
                  (record {
                    configured = l.configured;
                    within =
                        put-within (topic, subscriber) _
                          (All-set_first (IsWithin (limit configs subscriber)) waits (deliver now) q
                            (λ x found.
                              deliver-IsWithin now (limit configs subscriber) x
                                (find_first-passes waits q x found))
                            (l.within.at (topic, subscriber) q was))
                          l.within;
                  })
          ]
        ]
      ]

  pub publish-IsLimited :
      (msg : Message) {b : Broker}
      → msg.attempt ≡ 0
      → IsLimited configs b
      → IsLimited configs (PubSub.publish msg b).0
  unfolding PubSub.publish
  publish-IsLimited msg {b} z l = record {
    configured = l.configured;
    within = fan_out-within msg (subscribers msg.topic b) z l.within;
  }

  pub ack-IsLimited :
      (id : String) {b : Broker} → IsLimited configs b → IsLimited configs (PubSub.ack id b).0
  unfolding PubSub.ack
  ack-IsLimited id {b} l = elim (Option-cases (Map.get id b.in_flight)) [
    | inl absent ↦ rw (absent, PubSub.ack) l
    | inr ((ch, at), found) ↦ elim (Option-cases (Map.get ch b.queues)) [
      | inl nothing ↦
          rw (found, PubSub.ack, nothing) (record { configured = l.configured; within = l.within })
      | inr (q, was) ↦
          rw (found, PubSub.ack, was)
            (record {
              configured = l.configured;
              within =
                  put-within ch _
                    (All-filterb (IsWithin (limit configs ch.1)) (λ e. not (carries id e)) q
                      (l.within.at ch q was))
                    l.within;
            })
    ]
  ]

  pub nack-IsLimited :
      (id reason : String) {b : Broker}
      → IsLimited configs b
      → IsLimited configs (PubSub.nack id reason b).0
  unfolding PubSub.nack
  nack-IsLimited id reason {b} l = elim (Option-cases (Map.get id b.in_flight)) [
    | inl absent ↦ rw (absent, PubSub.nack) l
    | inr ((ch, at), found) ↦
        let q = queue_or_default ch b.queues in
        let w = queue-within ch l.within in
        elim (Option-cases (find_first (carries id) q)) [
          | inl nothing ↦
              rw (found, PubSub.nack, nothing)
                (record { configured = l.configured; within = put-within ch q w l.within })
          | inr (e, first) ↦ elim (Bool-cases (ltb (retries_allowed ch.1 b) e.message.attempt)) [
            | inl spent ↦
                rw (found, PubSub.nack, first, spent)
                  (record {
                    configured = l.configured;
                    within =
                        put-within ch _
                          (All-set_first (IsWithin (limit configs ch.1)) (carries id)
                            (with_state (dead_letter reason)) q
                            (λ x _ i. (i.0, λ h. absurd (ground arith))) w)
                          l.within;
                  })
            | inr left ↦
                let few : e.message.attempt ≤ limit configs ch.1 =
                  subst (λ c. e.message.attempt ≤ limit c ch.1) l.configured (ground arith) in
                rw (found, PubSub.nack, first, left)
                  (record {
                    configured = l.configured;
                    within =
                        put-within ch _
                          (All-set_first (IsWithin (limit configs ch.1)) (carries id)
                            (with_state pending) q
                            (λ x is i. (
                              i.0,
                              λ h.
                                  let same : e ≡ x = ground arith in
                                  subst (λ (y : QueueEntry). y.message.attempt ≤ limit configs ch.1)
                                    same few,
                            ))
                            w)
                          l.within;
                  })
          ]
        ]
  ]
