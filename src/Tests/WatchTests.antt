-- ===== src/Tests/WatchTests.antt =====
-- The registry of subscriptions: crates/engine/src/watch.rs.
use kv.Prelude.{ℕ, ◌-◌, ◌≡◌, refl, [], ◌∷◌, ◌==◌, ltb, bytes_eq}
use kv.Engine.Watch.{
  Channel, WatchEvent, del, WatchRegistry, subscribe_key, subscribe_prefix, notify,
}
use kv.Engine.Watch.Capacity.{
  live, Subscribed, subscribe_key-Subscribed, subscribe_prefix-Subscribed,
}
use kv.Engine.Watch.Delivery.{Distinct, has_place, Delivered, notify-Delivered}
use kv.Engine.Watch.Subscriptions.{Listed, subscribe_key-Listed}
use kv.Tests.{key}

-- A sender is the number of events that it can take; the one with the number 9 is closed.
abbrev counted : Channel ℕ
counted = record { is_closed = λ n. n == 9; try_send = λ n e. (n - 1, ltb 0 n) }

-- Two senders of a key, one of them closed, and a sender of a prefix whose buffer is full.
abbrev registry : WatchRegistry ℕ
registry = record { keys = ((110 ∷ [], key), 2 ∷ 9 ∷ []) ∷ []; prefixes = ((110 ∷ [], []), 0) ∷ [] }

abbrev deleted : WatchEvent
deleted = del key 7

registry-Distinct : Distinct registry.keys
unfolding Distinct has_place
registry-Distinct = (refl, tt)

subscribe_key-Subscribed_example :
    Subscribed counted (live counted registry) (subscribe_key counted registry (110 ∷ []) key 5)
subscribe_key-Subscribed_example = subscribe_key-Subscribed counted registry (110 ∷ []) 5 refl key

subscribe_prefix-Subscribed_example :
    Subscribed counted (live counted registry) (subscribe_prefix counted registry (110 ∷ []) [] 5)
subscribe_prefix-Subscribed_example =
    subscribe_prefix-Subscribed counted registry (110 ∷ []) 5 refl []

subscribe_key-Listed_example :
    Listed counted registry.keys (110 ∷ [], key) 5 (subscribe_key counted registry (110 ∷ []) key 5)
subscribe_key-Listed_example =
    subscribe_key-Listed counted registry (110 ∷ []) key 5 refl registry-Distinct

notify-Delivered_example :
    Delivered counted
      (110 ∷ [])
      key
      deleted
      registry
      (notify counted registry (110 ∷ []) key deleted)
notify-Delivered_example =
    notify-Delivered counted (110 ∷ []) key deleted registry registry-Distinct

subscribe_runs :
    (subscribe_key counted registry (110 ∷ []) key 5).0.keys ≡ ((110 ∷ [], key), 2 ∷ 5 ∷ []) ∷ []
unfolding subscribe_key bytes_eq
subscribe_runs = refl

notify_runs :
    notify counted registry (110 ∷ []) key deleted
    ≡ record { keys = ((110 ∷ [], key), 1 ∷ 8 ∷ []) ∷ []; prefixes = [] }
unfolding notify bytes_eq
notify_runs = refl
