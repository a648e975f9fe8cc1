-- ===== src/Engine/Watch/Delivery.antt =====
-- What notify of crates/engine/src/watch.rs does to the subscriptions.
use kv.Prelude.{
  ◌≡◌, ◌↔◌, refl, subst, Bool, true, false, ◌&&◌, ◌||◌, List, [], ◌∷◌, ◌++◌, if◌then◌else◌, if_elim,
  Bytes, bytes_eq, bytes_eq_iff, arith,
}
use kv.Engine.Watch.{
  Channel, WatchEvent, Place, Keys, WatchRegistry, prefix, matches, same_place, is_nil, offer,
  notify_key, notify_prefixes, notify,
}

pub same_place_iff : (p q : Place) → (same_place p q ≡ true) ↔ (p ≡ q)
same_place_iff (n, k) (n', k') = ground (arith, bytes_eq_iff n n', bytes_eq_iff k k')

module _ {S : Type 0} where
  unfoldable pub has_place : Place → Keys S → Bool
  has_place p [] = false
  has_place p ((q, senders) ∷ keys) = let rest = has_place p keys in same_place q p || rest

  -- Each key once, as in a map.
  unfoldable pub Distinct : Keys S → Type 0
  unfolding has_place
  Distinct [] = Unit
  Distinct ((q, senders) ∷ keys) = (has_place q keys ≡ false) × Distinct keys

  unfoldable pub senders_of : Keys S → Place → List S
  senders_of [] p = []
  senders_of ((q, senders) ∷ keys) p =
      let rest = senders_of keys p in if same_place q p then senders else rest

  pub senders_of-absent :
      (p : Place) (keys : Keys S) → has_place p keys ≡ false → senders_of keys p ≡ []
  unfolding has_place senders_of
  senders_of-absent p [] h = refl
  senders_of-absent p ((q, senders) ∷ keys) h = ground (arith, senders_of-absent p keys)

module _ {S : Type 0} (ch : Channel S) (ns key : Bytes) (event : WatchEvent) where
  nil_eq : (l : List S) → is_nil ch l ≡ true → l ≡ []
  nil_eq [] h = refl
  nil_eq (a ∷ l) h = absurd (ground arith)

  offer-nil : offer ch event [] ≡ []
  unfolding offer
  offer-nil = refl

  senders_of-notify_key :
      (p : Place) (keys : Keys S) (q : Place)
      → Distinct keys
      → senders_of (notify_key ch p event keys) q
        ≡ (if same_place p q then offer ch event (senders_of keys q) else senders_of keys q)
  unfolding senders_of notify_key Distinct
  senders_of-notify_key p [] q d = ground (arith, offer-nil)
  senders_of-notify_key p ((q0, senders) ∷ keys) q d = ground (
    arith,
    same_place_iff p q,
    same_place_iff q0 p,
    same_place_iff q0 q,
    nil_eq (offer ch event senders),
    senders_of-absent q0 keys d.0,
    senders_of-notify_key p keys q d.1,
  )

  has_place-notify_key :
      (p : Place) (keys : Keys S) (q : Place)
      → has_place q keys ≡ false
      → has_place q (notify_key ch p event keys) ≡ false
  unfolding has_place notify_key
  has_place-notify_key p [] q h = refl
  has_place-notify_key p ((q0, senders) ∷ keys) q h = ground (arith, has_place-notify_key p keys q)

  Distinct-notify_key :
      (p : Place) (keys : Keys S) → Distinct keys → Distinct (notify_key ch p event keys)
  unfolding Distinct notify_key
  Distinct-notify_key p [] d = tt
  Distinct-notify_key p ((q0, senders) ∷ keys) d =
      if_elim Distinct (same_place q0 p) _ _
        (λ _.
          if_elim Distinct (is_nil ch (offer ch event senders)) keys
            ((q0, offer ch event senders) ∷ keys) (λ _. d.1) (λ _. d))
        (λ _. (has_place-notify_key p keys q0 d.0, Distinct-notify_key p keys d.1))

  -- What is left of a sender of the key: what the attempt to send made of it, if it took the event.
  abbrev pub taken : S → List S
  taken tx = if (ch.try_send tx event).1 then (ch.try_send tx event).0 ∷ [] else []

  unfoldable pub takes : List S → List S
  takes [] = []
  takes (tx ∷ senders) = taken tx ++ takes senders

  offer-takes : (senders : List S) → offer ch event senders ≡ takes senders
  unfolding offer takes
  offer-takes [] = refl
  offer-takes (tx ∷ senders) = ground (arith, offer-takes senders)

  -- What is left of a subscription to a prefix: it is dropped if it is to have the event and cannot
  -- take it.
  abbrev pub heard : Place × S → List (Place × S)
  heard ((wns, p), tx) =
      if bytes_eq wns ns && matches (prefix p) key
      then (if (ch.try_send tx event).1 then ((wns, p), (ch.try_send tx event).0) ∷ [] else [])
      else ((wns, p), tx) ∷ []

  unfoldable pub hears : List (Place × S) → List (Place × S)
  hears [] = []
  hears (s ∷ prefixes) = heard s ++ hears prefixes

  notify_prefixes-hears :
      (prefixes : List (Place × S)) → notify_prefixes ch ns key event prefixes ≡ hears prefixes
  unfolding notify_prefixes hears matches
  notify_prefixes-hears [] = refl
  notify_prefixes-hears (((wns, p), tx) ∷ prefixes) = ground (arith, notify_prefixes-hears prefixes)

  -- What a notification makes of the registry.
  abbrev pub Delivered : WatchRegistry S → WatchRegistry S → Type 0
  Delivered r r' =
      Distinct r'.keys
      × ((q : Place)
          → senders_of r'.keys q
            ≡ (if same_place (ns, key) q then takes (senders_of r.keys q) else senders_of r.keys q))
      × (r'.prefixes ≡ hears r.prefixes)

  -- Notify offers the event to each sender of its key and keeps exactly those that took it, in
  -- their order and as the attempt to send left them, leaves the senders of every other key alone,
  -- and offers it to exactly the prefix subscriptions of the namespace whose filter matches the
  -- key, of which exactly those that cannot take it are dropped; the map keeps each key once.
  -- Condition: the map has each key once.
  pub notify-Delivered :
      (r : WatchRegistry S) → Distinct r.keys → Delivered r (notify ch r ns key event)
  unfolding notify
  notify-Delivered r d = (
    Distinct-notify_key (ns, key) r.keys d,
    λ q.
        subst
          (λ l.
            senders_of (notify_key ch (ns, key) event r.keys) q
            ≡ (if same_place (ns, key) q then l else senders_of r.keys q))
          (offer-takes (senders_of r.keys q)) (senders_of-notify_key (ns, key) r.keys q d),
    notify_prefixes-hears r.prefixes,
  )
