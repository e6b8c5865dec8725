-- ===== src/PubSub/Exhausted.antt =====
-- What becomes of a message that is refused every time.
use mathlib.Core.Path.{subst}
use bridge_framework.Base.{
  ℕ, zero, suc, ◌+◌, ◌≤◌, ◌<◌, ◌^◌, ◌%◌, ◌≡◌, refl, sym, ap, ◌∙◌, true, false, ◌&&◌, String, some,
  List, [], ◌∷◌, push, ltb, unwrap_or, set_first, string_eq, pair_eq, ==_self, Bool-cases, arith,
}
use bridge_framework.Base.Map
use bridge_framework.Base.Map.{Map, get-insert_self}
use bridge_framework.PubSub.{
  Message, MessageState, Queue, Broker, pending, dead_letter, is_ordered, deliver, attempted, pull,
  nack, retries_allowed, queue_depth,
}

-- A message that is pulled and refused, the clock standing at two readings.
abbrev pub refuse : ℕ → ℕ → String → String → String → String → Broker → Broker
refuse now later reason topic subscriber id b =
    (nack id reason (pull now later topic subscriber b).0).0

-- The same over and over.
unfoldable pub refuse_times : ℕ → ℕ → ℕ → String → String → String → String → Broker → Broker
refuse_times zero now later reason topic subscriber id b = b
refuse_times (suc n) now later reason topic subscriber id b =
    refuse_times n now later reason topic subscriber id
      (refuse now later reason topic subscriber id b)

-- A channel on which one message waits, alone.
pub record Waiting (topic subscriber : String) (m : Message) (retries : ℕ) (dead : List Message)
    (b : Broker) : Type 0 where
  pub alone :
      Map.get (topic, subscriber) b.queues ≡ some (record { message = m; state = pending } ∷ [])
  pub allowed : retries_allowed subscriber b ≡ retries
  pub letters : unwrap_or [] (Map.get (topic, subscriber) b.dlq) ≡ dead

module _ (now later : ℕ) (reason topic subscriber : String) (b : Broker) (m : Message) (retries : ℕ)
    (dead : List Message) where
  flown : Broker
  flown = record b {
    queues =
        Map.insert (topic, subscriber) (deliver now (record { message = m; state = pending }) ∷ [])
          b.queues;
    in_flight = Map.insert m.id ((topic, subscriber), later) b.in_flight;
  }

  -- What a refusal makes of the message in flight, and the attempts that were allowed.
  settled : MessageState → Broker
  settled state = record flown {
    queues =
        Map.insert (topic, subscriber) (record { message = attempted m; state = state } ∷ [])
          flown.queues;
    in_flight = Map.remove m.id flown.in_flight;
  }

  pull-Waiting :
      Waiting topic subscriber m retries dead b → (pull now later topic subscriber b).0 ≡ flown
  unfolding pull flown
  pull-Waiting w =
      let idle : (is_ordered subscriber b && false) ≡ false =
        ground (arith, Bool-cases (is_ordered subscriber b)) in
      rw (pull, w.alone, idle) refl

  nack-requeues :
      ltb (retries_allowed subscriber b) (attempted m).attempt ≡ false
      → (nack m.id reason flown).0 ≡ settled pending
  unfolding nack flown settled
  nack-requeues enough =
      let there =
        get-insert_self (topic, subscriber)
          (deliver now (record { message = m; state = pending }) ∷ []) b.queues in
      rw
        (
          nack,
          get-insert_self m.id ((topic, subscriber), later) b.in_flight,
          there,
          ==_self m.id,
          enough,
          there,
          set_first,
          ==_self m.id,
        )
        refl

  -- The letter of a message that has no attempt left.
  buried : Broker
  buried = record (settled (dead_letter reason)) {
    dlq =
        Map.insert (topic, subscriber)
          (push (unwrap_or [] (Map.get (topic, subscriber) b.dlq)) (attempted m)) b.dlq;
  }

  nack-buries :
      ltb (retries_allowed subscriber b) (attempted m).attempt ≡ true
      → (nack m.id reason flown).0 ≡ buried
  unfolding nack flown settled buried
  nack-buries enough =
      let there =
        get-insert_self (topic, subscriber)
          (deliver now (record { message = m; state = pending }) ∷ []) b.queues in
      rw
        (
          nack,
          get-insert_self m.id ((topic, subscriber), later) b.in_flight,
          there,
          ==_self m.id,
          enough,
          there,
          set_first,
          ==_self m.id,
        )
        refl

  refuse-requeues :
      Waiting topic subscriber m retries dead b
      → m.attempt + 1 ≤ retries
      → retries < 2 ^ 32
      → Waiting topic subscriber
          (attempted m)
          retries
          dead
          (refuse now later reason topic subscriber m.id b)
  unfolding flown settled
  refuse-requeues w enough small =
      let left : ltb (retries_allowed subscriber b) (attempted m).attempt ≡ false =
        ground (arith, w.allowed) in
      let step = ap (λ x. (nack m.id reason x).0) (pull-Waiting w) ∙ nack-requeues left in
      subst (Waiting topic subscriber (attempted m) retries dead) (sym step) (record {
        alone =
            get-insert_self (topic, subscriber)
              (record { message = attempted m; state = pending } ∷ []) flown.queues;
        allowed = w.allowed;
        letters = w.letters;
      })

  refuse-buries :
      Waiting topic subscriber m retries dead b
      → retries ≡ m.attempt
      → retries + 1 < 2 ^ 32
      → let b' = refuse now later reason topic subscriber m.id b in
        (queue_depth topic subscriber b' ≡ 0)
        × (unwrap_or [] (Map.get (topic, subscriber) b'.dlq) ≡ push dead (attempted m))
  unfolding flown settled buried
  refuse-buries w spent small =
      let left : ltb (retries_allowed subscriber b) (attempted m).attempt ≡ true =
        ground (arith, w.allowed) in
      let q : Queue = record { message = attempted m; state = dead_letter reason } ∷ [] in
      let letters = push (unwrap_or [] (Map.get (topic, subscriber) b.dlq)) (attempted m) in
      let step = ap (λ x. (nack m.id reason x).0) (pull-Waiting w) ∙ nack-buries left in
      (
        ap (queue_depth topic subscriber) step
            ∙ rw (queue_depth, get-insert_self (topic, subscriber) q flown.queues) refl,
        ap (λ x. unwrap_or [] (Map.get (topic, subscriber) x.dlq)) step
            ∙ rw (get-insert_self (topic, subscriber) letters b.dlq, w.letters) refl,
      )

-- A message that waits alone and is refused each time that it is pulled does not stay for ever: after
-- one attempt more than its retries nothing waits in its channel, and the message, with all attempts
-- counted, is the last of the dead letters. The retries are fewer than 2^32 - 1.
pub refuse_times-buries :
    (n now later : ℕ) (reason topic subscriber : String) (b : Broker) (m : Message) (retries : ℕ)
    (dead : List Message)
    → Waiting topic subscriber m retries dead b
    → m.attempt + n ≡ retries
    → retries + 1 < 2 ^ 32
    → let b' = refuse_times (suc n) now later reason topic subscriber m.id b in
      (queue_depth topic subscriber b' ≡ 0)
      × (unwrap_or [] (Map.get (topic, subscriber) b'.dlq)
          ≡ push dead (record m { attempt = retries + 1 }))
unfolding refuse_times
refuse_times-buries zero now later reason topic subscriber b m retries dead w spent small =
    let last =
      refuse-buries now later reason topic subscriber b m retries dead w (omega arith) small in
    let counted : (m.attempt + 1) % 2 ^ 32 ≡ retries + 1 = omega arith in
    (last.0, last.1 ∙ ap (λ k. push dead (record m { attempt = k })) counted)
refuse_times-buries (suc n) now later reason topic subscriber b m retries dead w spent small =
    refuse_times-buries n now later reason topic subscriber
      (refuse now later reason topic subscriber m.id b) (attempted m) retries dead
      (refuse-requeues now later reason topic subscriber b m retries dead w (omega arith)
        (omega arith))
      (omega arith) small
