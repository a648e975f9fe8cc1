-- ===== src/Engine/Watch/Capacity.antt =====
-- The limit on the subscriptions of the registry of crates/engine/src/watch.rs.
use kv.Prelude.{
  ℕ, ◌+◌, ◌≡◌, ◌≤◌, ◌<◌, refl, subst, Bool, true, false, List, [], ◌∷◌, ◌++◌, leb, ltb,
  if◌then◌else◌, if_elim, length, length-append, Bytes, ok, err, arith, leb_false→lt,
}
use kv.Engine.Error.{Result}
use kv.Engine.Watch.{
  Channel, Place, Keys, WatchRegistry, retain, update_at, push_at, count_keys, is_open, is_nil,
  prune_keys, prune_prefixes, pruned, total_subscriptions, max_total_subscriptions, ensure_capacity,
  with_room, subscribe_key, subscribe_prefix,
}

unfoldable pub count : {A : Type 0} → (A → Bool) → List A → ℕ
count f [] = 0
count f (a ∷ l) = let rest = count f l in if f a then 1 + rest else rest

module _ {A : Type 0} (f : A → Bool) where
  length-retain : (l : List A) → length (retain f l) ≡ count f l
  unfolding retain count
  length-retain [] = refl
  length-retain (a ∷ l) = ground (arith, length-retain l)

  count-retain : (l : List A) → count f (retain f l) ≡ count f l
  unfolding retain count
  count-retain [] = refl
  count-retain (a ∷ l) = ground (arith, count-retain l)

  count-append : (l m : List A) → count f (l ++ m) ≡ count f l + count f m
  unfolding count
  count-append [] m = omega arith
  count-append (a ∷ l) m = ground (arith, count-append l m)

  count_le_length : (l : List A) → count f l ≤ length l
  unfolding count
  count_le_length [] = omega arith
  count_le_length (a ∷ l) = ground (arith, count_le_length l)

module _ {S : Type 0} (ch : Channel S) where
  -- The senders whose receiver is there.
  unfoldable pub live_keys : Keys S → ℕ
  unfolding count
  live_keys [] = 0
  live_keys ((q, senders) ∷ keys) = count (is_open ch) senders + live_keys keys

  abbrev pub open_prefix : Place × S → Bool
  open_prefix (p, tx) = is_open ch tx

  abbrev pub live : WatchRegistry S → ℕ
  live r = live_keys r.keys + count open_prefix r.prefixes

  live_keys-update_at :
      (p : Place) (keys : Keys S)
      → live_keys (update_at p (retain (is_open ch)) keys) ≡ live_keys keys
  unfolding live_keys update_at
  live_keys-update_at p [] = refl
  live_keys-update_at p ((q, senders) ∷ keys) =
      ground (arith, count-retain (is_open ch) senders, live_keys-update_at p keys)

  live_keys-push_at :
      (p : Place) (tx : S) (keys : Keys S)
      → live_keys (push_at p tx keys) ≡ live_keys keys + count (is_open ch) (tx ∷ [])
  unfolding live_keys push_at count
  live_keys-push_at p tx [] = omega arith
  live_keys-push_at p tx ((q, senders) ∷ keys) =
      ground (arith, count-append (is_open ch) senders (tx ∷ []), live_keys-push_at p tx keys)

  count_keys-push_at :
      (p : Place) (tx : S) (keys : Keys S) → count_keys (push_at p tx keys) ≡ count_keys keys + 1
  unfolding count_keys push_at
  count_keys-push_at p tx [] = refl
  count_keys-push_at p tx ((q, senders) ∷ keys) =
      ground (arith, length-append senders (tx ∷ []), count_keys-push_at p tx keys)

  nil_length : (l : List S) → is_nil ch l ≡ true → length l ≡ 0
  nil_length [] h = refl
  nil_length (a ∷ l) h = absurd (ground arith)

  count_keys-prune_keys : (keys : Keys S) → count_keys (prune_keys ch keys) ≡ live_keys keys
  unfolding count_keys prune_keys live_keys
  count_keys-prune_keys [] = refl
  count_keys-prune_keys ((q, senders) ∷ keys) = ground (
    arith,
    length-retain (is_open ch) senders,
    nil_length (retain (is_open ch) senders),
    count_keys-prune_keys keys,
  )

  live_keys-prune_keys : (keys : Keys S) → live_keys (prune_keys ch keys) ≡ live_keys keys
  unfolding prune_keys live_keys
  live_keys-prune_keys [] = refl
  live_keys-prune_keys ((q, senders) ∷ keys) = ground (
    arith,
    count-retain (is_open ch) senders,
    length-retain (is_open ch) senders,
    nil_length (retain (is_open ch) senders),
    live_keys-prune_keys keys,
  )

  total-pruned : (r : WatchRegistry S) → total_subscriptions ch (pruned ch r) ≡ live r
  total-pruned r = omega (arith, count_keys-prune_keys r.keys, length-retain open_prefix r.prefixes)

  live-pruned : (r : WatchRegistry S) → live (pruned ch r) ≡ live r
  live-pruned r = omega (arith, live_keys-prune_keys r.keys, count-retain open_prefix r.prefixes)

  -- There is room for a subscription, or the live ones are as many as the limit; none of them goes.
  abbrev Ensured : ℕ → WatchRegistry S × Result (Unit {0}) → Type 0
  Ensured n (r', ok a) = (total_subscriptions ch r' < max_total_subscriptions) × (live r' ≡ n)
  Ensured n (r', err e) = (max_total_subscriptions ≤ n) × (live r' ≡ n)

  ensure_capacity-Ensured : (r : WatchRegistry S) → Ensured (live r) (ensure_capacity ch r)
  unfolding ensure_capacity
  ensure_capacity-Ensured r =
      if_elim (Ensured (live r)) (ltb (total_subscriptions ch r) max_total_subscriptions) _ _
        (λ few. (ground arith, refl))
        (λ _.
          if_elim (Ensured (live r))
            (leb max_total_subscriptions (total_subscriptions ch (pruned ch r))) _ _
            (λ full. (ground (arith, total-pruned r), live-pruned r))
            (λ few. (leb_false→lt _ _ few, live-pruned r)))

  -- A new subscription is within the limit and one more than the live ones, none of which goes; it
  -- is refused only if those are as many as the limit.
  abbrev pub Subscribed : ℕ → WatchRegistry S × Result (Unit {0}) → Type 0
  Subscribed n (r', ok a) =
      (total_subscriptions ch r' ≤ max_total_subscriptions) × (live r' ≡ n + 1)
  Subscribed n (r', err e) = (max_total_subscriptions ≤ n) × (live r' ≡ n)

  with_room-Subscribed :
      (f : WatchRegistry S → WatchRegistry S)
      → ((r : WatchRegistry S)
          → (total_subscriptions ch (f r) ≡ total_subscriptions ch r + 1)
            × (live (f r) ≡ live r + 1))
      → (n : ℕ) (o : WatchRegistry S × Result (Unit {0})) → Ensured n o
      → Subscribed n (with_room ch f o)
  with_room-Subscribed f adds n (r', ok a) h =
      let (more, one) = adds r' in (omega (arith, h.0, more), omega (arith, h.1, one))
  with_room-Subscribed f adds n (r', err e) h = h

  module _ (r : WatchRegistry S) (ns : Bytes) (tx : S)
      (fresh : Channel.is_closed ch tx ≡ false) where
    -- After a subscribe_key that succeeds the registry has at most 65536 subscriptions and one
    -- live sender more than before; it is refused only if 65536 senders are live, and then, as
    -- always, no live sender is lost. Condition: the new channel is open.
    pub subscribe_key-Subscribed :
        (key : Bytes) → Subscribed (live r) (subscribe_key ch r ns key tx)
    unfolding subscribe_key count
    subscribe_key-Subscribed key =
        let r1 : WatchRegistry S = record r {
          keys = update_at (ns, key) (retain (is_open ch)) r.keys;
        } in
        let same : live r1 ≡ live r = omega (arith, live_keys-update_at (ns, key) r.keys) in
        subst (λ n. Subscribed n (subscribe_key ch r ns key tx)) same
          (with_room-Subscribed (λ r. record r { keys = push_at (ns, key) tx r.keys })
            (λ r. (
              omega (arith, count_keys-push_at (ns, key) tx r.keys),
              ground (arith, live_keys-push_at (ns, key) tx r.keys, fresh),
            ))
            (live r1) (ensure_capacity ch r1) (ensure_capacity-Ensured r1))

    -- After a subscribe_prefix that succeeds the registry has at most 65536 subscriptions and one
    -- live sender more than before; it is refused only if 65536 senders are live, and then, as
    -- always, no live sender is lost. Condition: the new channel is open.
    pub subscribe_prefix-Subscribed :
        (p : Bytes) → Subscribed (live r) (subscribe_prefix ch r ns p tx)
    unfolding subscribe_prefix count
    subscribe_prefix-Subscribed p =
        let r1 : WatchRegistry S = prune_prefixes ch r in
        let same : live r1 ≡ live r = omega (arith, count-retain open_prefix r.prefixes) in
        subst (λ n. Subscribed n (subscribe_prefix ch r ns p tx)) same
          (with_room-Subscribed (λ r. record r { prefixes = r.prefixes ++ ((ns, p), tx) ∷ [] })
            (λ r. (
              omega (arith, length-append r.prefixes (((ns, p), tx) ∷ [])),
              ground (arith, count-append open_prefix r.prefixes (((ns, p), tx) ∷ []), fresh),
            ))
            (live r1) (ensure_capacity ch r1) (ensure_capacity-Ensured r1))
