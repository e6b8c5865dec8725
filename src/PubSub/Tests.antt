-- ===== src/PubSub/Tests.antt =====
-- Runs of the broker on small inputs.
use text.Mathlib.TextEquality.{eq_iff}
use bridge_framework.Base.{
  ◌≡◌, ◌≢◌, inl, refl, ◌&&◌, true, false, not, String, none, some, [], push, arith, if◌then◌else◌,
  contains, filterb, unwrap_or, Everywhere, Everywhere-nil, Everywhere-insert, ◌==◌, string_eq,
  pair_eq,
}
use bridge_framework.Base.Map
use bridge_framework.PubSub.{
  Message, Broker, SubscriptionConfig, new, message, default_config, subscribe, ensure_topic,
  publish, fan_out, pull, ack, nack, pending, subscribers, carries, queue_depth, dlq_depth,
}
use bridge_framework.PubSub.Fanout
use bridge_framework.PubSub.Fanout.{IsAttached, Once, queue}
use bridge_framework.PubSub.Delivery
use bridge_framework.PubSub.Shared
use bridge_framework.PubSub.Retries
use bridge_framework.PubSub.Limits
use bridge_framework.PubSub.Exhausted

program : Unit {0}
unfolding subscribe ensure_topic publish fan_out pull ack nack message Map.get Map.insert Map.remove
program = tt

abbrev ordered_config : SubscriptionConfig
ordered_config = record default_config { message_ordering = true; max_retries = 0 }

abbrev order : Message
order = message "m1" 5 "orders" "{}"

-- Two subscribers of one topic, the first of them ordered.
abbrev joined : Broker
joined = subscribe "orders" "mail" default_config (subscribe "orders" "ship" ordered_config new)

abbrev sent : Broker
sent = (publish order joined).0

abbrev taken : Broker
taken = (pull 10 11 "orders" "ship" sent).0

abbrev attempted : Message
attempted = record order { attempt = 1 }

taken_run :
    ((pull 10 11 "orders" "ship" sent).1 ≡ some attempted)
    × (queue_depth "orders" "ship" taken ≡ 0)
    × (queue_depth "orders" "mail" taken ≡ 1)
    × (dlq_depth "orders" "ship" (nack "m1" "bad" taken).0 ≡ 1)
unfolding program
taken_run = (refl, refl, refl, refl)

new-IsAttached : IsAttached new
new-IsAttached = record { once = Everywhere-nil Once }

joined-IsAttached : IsAttached joined
joined-IsAttached =
    (Fanout.subscribe-IsAttached "orders" "mail" default_config
      (Fanout.subscribe-IsAttached "orders" "ship" ordered_config new-IsAttached).0).0

queue-publish_example : queue "orders" "mail" (publish order joined).0 ≡ (
    if ◌==◌ {A = String} "orders" "orders" && contains "mail" (subscribers "orders" joined)
    then push (queue "orders" "mail" joined) (record { message = order; state = pending })
    else queue "orders" "mail" joined)
unfolding program
queue-publish_example = Fanout.queue-publish order joined-IsAttached "orders" "mail"

pull-pull_example : pull 20 21 "orders" "ship" taken ≡ (taken, none)
unfolding program
pull-pull_example = Delivery.pull-pull 10 11 20 21 "orders" "ship" sent attempted refl refl

ship-ne-mail : ◌≢◌ {A = String} "ship" "mail"
ship-ne-mail = ground (arith, eq_iff "ship" "mail")

ack-pull-pull_example :
    let b2 = (pull 12 13 "orders" "mail" taken).0 in
    let b3 = (ack "m1" b2).0 in
    ((ack "m1" b2).1 ≡ true)
    × (queue "orders" "mail" b3 ≡ filterb (λ e. not (carries "m1" e)) (queue "orders" "mail" b2))
    × (queue "orders" "ship" b3 ≡ queue "orders" "ship" taken)
    × (ack "m1" b3 ≡ (b3, false))
    × ((reason : String) → nack "m1" reason b3 ≡ (b3, false))
unfolding program
ack-pull-pull_example =
    Shared.ack-pull-pull 10 11 12 13 "orders" "ship" "mail" sent attempted attempted ship-ne-mail
      refl refl refl

-- A third subscriber comes when messages are on their way.
abbrev enlarged : Broker
enlarged = subscribe "orders" "late" default_config taken

late-MayLimit : Retries.MayLimit "late" default_config taken
unfolding program
late-MayLimit = inl (ground arith)

enlarged-Reach : Retries.Reach joined enlarged
unfolding program
enlarged-Reach =
    Retries.next
      (Retries.next (Retries.next Retries.start (Retries.Step.publish order joined refl))
        (Retries.Step.pull 10 11 "orders" "ship" sent))
      (Retries.Step.subscribe "orders" "late" default_config taken late-MayLimit)

joined-Unused : Everywhere Retries.Unused joined.queues
unfolding program
joined-Unused =
    Everywhere-insert Retries.Unused ("orders", "mail") [] refl
      (Everywhere-insert Retries.Unused ("orders", "ship") [] refl (Everywhere-nil Retries.Unused))

Reach-IsLimited_example : Limits.IsLimited enlarged.configs enlarged
Reach-IsLimited_example = Retries.Reach-IsLimited joined-Unused enlarged-Reach

sent-Waiting : Exhausted.Waiting "orders" "mail" order 3 [] sent
unfolding program
sent-Waiting = record { alone = refl; allowed = refl; letters = refl }

refuse_times-buries_example :
    let b' = Exhausted.refuse_times 4 10 11 "bad" "orders" "mail" "m1" sent in
    (queue_depth "orders" "mail" b' ≡ 0)
    × (unwrap_or [] (Map.get ("orders", "mail") b'.dlq) ≡ push [] (record order { attempt = 4 }))
unfolding program
refuse_times-buries_example =
    Exhausted.refuse_times-buries 3 10 11 "bad" "orders" "mail" sent order 3 [] sent-Waiting refl
      (omega arith)

queue_depth-nack-pull_example :
    let b = (pull 12 13 "orders" "mail" sent).0 in
    ((nack "m1" "busy" b).1 ≡ true)
    × (queue_depth "orders" "mail" (nack "m1" "busy" b).0 ≡ queue_depth "orders" "mail" sent)
unfolding program
queue_depth-nack-pull_example =
    Delivery.queue_depth-nack-pull 12 13 "orders" "mail" "busy" sent attempted (refl, tt) refl
      (ground arith)
