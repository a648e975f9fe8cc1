-- ===== src/Engine/Watch.antt =====
-- crates/engine/src/watch.rs: the registry of subscriptions to keys and prefixes.
pub mod Capacity
pub mod Delivery
pub mod Subscriptions
use kv.Prelude.{
  ℕ, ◌+◌, ◌≡◌, ◌^◌, Bool, true, false, not, ◌&&◌, List, [], ◌∷◌, ◌++◌, Option, none, some, leb, ltb,
  ◌==◌, if◌then◌else◌, length, take, Bytes, bytes_eq, starts_with, ok, err,
}
use kv.Engine.Error.{Result, capacity_exceeded}

pub data WatchEvent : Type 0 where
  set : Bytes → Bytes → Option Bytes → Option ℕ → ℕ → WatchEvent
  del : Bytes → ℕ → WatchEvent

-- The senders of `futures_channel::mpsc`, which is not in this repository: whether the receiver is
-- gone, and an attempt to send, which changes the sender and fails if its buffer is full or the
-- receiver is gone.
pub record Channel (S : Type 0) : Type 0 where
  pub is_closed : S → Bool
  pub try_send : S → WatchEvent → S × Bool

pub data KeyFilter : Type 0 where
  exact : Bytes → KeyFilter
  prefix : Bytes → KeyFilter

-- `KeyFilter::matches`
unfoldable pub matches : KeyFilter → Bytes → Bool
unfolding starts_with
matches (exact k) key = bytes_eq k key
matches (prefix p) key = starts_with key p

abbrev pub max_total_subscriptions : ℕ
max_total_subscriptions = 65536

-- A key of a namespace.
abbrev pub Place : Type 0
Place = Bytes × Bytes

abbrev pub same_place : Place → Place → Bool
same_place (n, k) (n', k') = bytes_eq n n' && bytes_eq k k'

-- `keys` is a map: senders are looked up, added and removed by their key.
abbrev pub Keys : Type 0 → Type 0
Keys S = List (Place × List S)

-- `retain`
unfoldable pub retain : {A : Type 0} → (A → Bool) → List A → List A
retain f [] = []
retain f (a ∷ l) = let rest = retain f l in if f a then a ∷ rest else rest

module _ {S : Type 0} where
  -- `get_mut`, and a change of what it finds
  unfoldable pub update_at : Place → (List S → List S) → Keys S → Keys S
  update_at p f [] = []
  update_at p f ((q, senders) ∷ keys) =
      let rest = update_at p f keys in
      if same_place q p then (q, f senders) ∷ keys else (q, senders) ∷ rest

  -- `entry(…).or_default().push(tx)`
  unfoldable pub push_at : Place → S → Keys S → Keys S
  push_at p tx [] = (p, tx ∷ []) ∷ []
  push_at p tx ((q, senders) ∷ keys) =
      let rest = push_at p tx keys in
      if same_place q p then (q, senders ++ tx ∷ []) ∷ keys else (q, senders) ∷ rest

  -- `keys.values().map(Vec::len).sum()`
  unfoldable pub count_keys : Keys S → ℕ
  count_keys [] = 0
  count_keys ((q, senders) ∷ keys) = length senders + count_keys keys

-- The registry.
pub record WatchRegistry (S : Type 0) : Type 0 where
  pub keys : Keys S
  pub prefixes : List (Place × S)

module _ {S : Type 0} (ch : Channel S) where
  abbrev pub is_open : S → Bool
  is_open tx = not (ch.is_closed tx)

  abbrev pub prune_prefixes : WatchRegistry S → WatchRegistry S
  prune_prefixes r = record r { prefixes = retain (λ ((p, tx) : Place × S). is_open tx) r.prefixes }

  abbrev pub total_subscriptions : WatchRegistry S → ℕ
  total_subscriptions r = count_keys r.keys + length r.prefixes

  abbrev pub is_nil : List S → Bool
  is_nil [] = true
  is_nil (tx ∷ senders) = false

  -- The `retain` of `ensure_capacity` on the keys: dead senders go, and then keys without senders.
  unfoldable pub prune_keys : Keys S → Keys S
  unfolding retain
  prune_keys [] = []
  prune_keys ((q, senders) ∷ keys) =
      let live = retain is_open senders in
      let rest = prune_keys keys in if is_nil live then rest else (q, live) ∷ rest

  abbrev pub pruned : WatchRegistry S → WatchRegistry S
  pruned r = prune_prefixes (record r { keys = prune_keys r.keys })

  unfoldable pub ensure_capacity : WatchRegistry S → WatchRegistry S × Result (Unit {0})
  unfolding prune_keys retain count_keys
  ensure_capacity r =
      if ltb (total_subscriptions r) max_total_subscriptions
      then (r, ok tt)
      else if leb max_total_subscriptions (total_subscriptions (pruned r))
      then (pruned r, err capacity_exceeded)
      else (pruned r, ok tt)

  abbrev pub with_room :
      (WatchRegistry S → WatchRegistry S)
      → WatchRegistry S × Result (Unit {0})
      → WatchRegistry S × Result (Unit {0})
  with_room f (r, ok a) = (f r, ok a)
  with_room f (r, err e) = (r, err e)

  -- `tx` is the sender of the new channel, whose receiver is returned.
  unfoldable pub subscribe_key :
      WatchRegistry S → Bytes → Bytes → S → WatchRegistry S × Result (Unit {0})
  unfolding ensure_capacity update_at push_at retain
  subscribe_key r ns key tx =
      with_room (λ r. record r { keys = push_at (ns, key) tx r.keys })
        (ensure_capacity (record r { keys = update_at (ns, key) (retain is_open) r.keys }))

  unfoldable pub subscribe_prefix :
      WatchRegistry S → Bytes → Bytes → S → WatchRegistry S × Result (Unit {0})
  unfolding ensure_capacity retain
  subscribe_prefix r ns p tx =
      with_room (λ r. record r { prefixes = r.prefixes ++ ((ns, p), tx) ∷ [] })
        (ensure_capacity (prune_prefixes r))

  -- `retain_mut` with `try_send`: a sender that cannot take the event is dropped.
  unfoldable pub offer : WatchEvent → List S → List S
  offer event [] = []
  offer event (tx ∷ senders) =
      let rest = offer event senders in
      let (tx', sent) = ch.try_send tx event in if sent then tx' ∷ rest else rest

  unfoldable pub notify_key : Place → WatchEvent → Keys S → Keys S
  unfolding offer
  notify_key p event [] = []
  notify_key p event ((q, senders) ∷ keys) =
      let left = offer event senders in
      let rest = notify_key p event keys in
      if same_place q p
      then (if is_nil left then keys else (q, left) ∷ keys)
      else (q, senders) ∷ rest

  unfoldable pub notify_prefixes : Bytes → Bytes → WatchEvent → List (Place × S) → List (Place × S)
  unfolding starts_with
  notify_prefixes ns key event [] = []
  notify_prefixes ns key event (((wns, p), tx) ∷ prefixes) =
      let rest = notify_prefixes ns key event prefixes in
      let (tx', sent) = ch.try_send tx event in
      if bytes_eq wns ns && starts_with key p
      then (if sent then ((wns, p), tx') ∷ rest else rest)
      else ((wns, p), tx) ∷ rest

  unfoldable pub notify : WatchRegistry S → Bytes → Bytes → WatchEvent → WatchRegistry S
  unfolding notify_key notify_prefixes
  notify r ns key event = record {
    keys = notify_key (ns, key) event r.keys;
    prefixes = notify_prefixes ns key event r.prefixes;
  }
