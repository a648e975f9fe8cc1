-- ===== src/Engine/Watch/Subscriptions.antt =====
-- What a subscription leaves of the senders of each key in crates/engine/src/watch.rs.
use kv.Prelude.{
  ◌≡◌, refl, sym, ap, ◌∙◌, Bool, true, false, ◌||◌, List, [], ◌∷◌, ◌++◌, if◌then◌else◌, if_elim,
  Bytes, ok, err, arith, ltb, leb,
}
use kv.Engine.Error.{Result, capacity_exceeded}
use kv.Engine.Watch.{
  Channel, Place, Keys, WatchRegistry, same_place, retain, update_at, push_at, is_open, is_nil,
  prune_keys, pruned, total_subscriptions, max_total_subscriptions, ensure_capacity, with_room,
  subscribe_key,
}
use kv.Engine.Watch.Delivery.{same_place_iff, has_place, Distinct, senders_of, senders_of-absent}

module _ {A : Type 0} (f : A → Bool) where
  retain-retain : (l : List A) → retain f (retain f l) ≡ retain f l
  unfolding retain
  retain-retain [] = refl
  retain-retain (a ∷ l) = ground (arith, retain-retain l)

  retain-append : (l m : List A) → retain f (l ++ m) ≡ retain f l ++ retain f m
  unfolding retain
  retain-append [] m = refl
  retain-append (a ∷ l) m = ground (arith, retain-append l m)

module _ {S : Type 0} (ch : Channel S) where
  abbrev live_only : List S → List S
  live_only = retain (is_open ch)

  retain-nil : live_only [] ≡ []
  unfolding retain
  retain-nil = refl

  module _ (p : Place) where
    senders_of-update_at :
        (keys : Keys S) (q : Place)
        → senders_of (update_at p live_only keys) q
          ≡ (if same_place p q then live_only (senders_of keys q) else senders_of keys q)
    unfolding senders_of update_at
    senders_of-update_at [] q = ground (arith, retain-nil)
    senders_of-update_at ((q0, senders) ∷ keys) q = ground (
      arith,
      same_place_iff p q,
      same_place_iff q0 p,
      same_place_iff q0 q,
      senders_of-update_at keys q,
    )

    has_place-update_at :
        (keys : Keys S) (q : Place) → has_place q (update_at p live_only keys) ≡ has_place q keys
    unfolding has_place update_at
    has_place-update_at [] q = refl
    has_place-update_at ((q0, senders) ∷ keys) q = ground (arith, has_place-update_at keys q)

    Distinct-update_at : (keys : Keys S) → Distinct keys → Distinct (update_at p live_only keys)
    unfolding Distinct update_at
    Distinct-update_at [] d = tt
    Distinct-update_at ((q0, senders) ∷ keys) d =
        if_elim Distinct (same_place q0 p) _ _ (λ _. d)
          (λ _. (has_place-update_at keys q0 ∙ d.0, Distinct-update_at keys d.1))

    module _ (tx : S) where
      senders_of-push_at :
          (keys : Keys S) (q : Place)
          → senders_of (push_at p tx keys) q
            ≡ (if same_place p q then senders_of keys q ++ tx ∷ [] else senders_of keys q)
      unfolding senders_of push_at
      senders_of-push_at [] q = ground arith
      senders_of-push_at ((q0, senders) ∷ keys) q = ground (
        arith,
        same_place_iff p q,
        same_place_iff q0 p,
        same_place_iff q0 q,
        senders_of-push_at keys q,
      )

      has_place-push_at :
          (keys : Keys S) (q : Place)
          → has_place q (push_at p tx keys) ≡ (has_place q keys || same_place p q)
      unfolding has_place push_at
      has_place-push_at [] q = ground arith
      has_place-push_at ((q0, senders) ∷ keys) q = ground (
        arith,
        same_place_iff p q,
        same_place_iff q0 p,
        same_place_iff q0 q,
        has_place-push_at keys q,
      )

      Distinct-push_at : (keys : Keys S) → Distinct keys → Distinct (push_at p tx keys)
      unfolding Distinct push_at has_place
      Distinct-push_at [] d = (refl, tt)
      Distinct-push_at ((q0, senders) ∷ keys) d =
          if_elim Distinct (same_place q0 p) _ _ (λ _. d)
            (λ other. (
              ground (
                arith,
                has_place-push_at keys q0,
                d.0,
                other,
                same_place_iff p q0,
                same_place_iff q0 p,
              ),
              Distinct-push_at keys d.1,
            ))

  nil_live : (l : List S) → is_nil ch l ≡ true → l ≡ []
  nil_live [] h = refl
  nil_live (a ∷ l) h = absurd (ground arith)

  has_place-prune_keys :
      (keys : Keys S) (q : Place)
      → has_place q keys ≡ false
      → has_place q (prune_keys ch keys) ≡ false
  unfolding has_place prune_keys
  has_place-prune_keys [] q h = refl
  has_place-prune_keys ((q0, senders) ∷ keys) q h = ground (arith, has_place-prune_keys keys q)

  Distinct-prune_keys : (keys : Keys S) → Distinct keys → Distinct (prune_keys ch keys)
  unfolding Distinct prune_keys
  Distinct-prune_keys [] d = tt
  Distinct-prune_keys ((q0, senders) ∷ keys) d =
      if_elim Distinct (is_nil ch (live_only senders)) _ _ (λ _. Distinct-prune_keys keys d.1)
        (λ _. (has_place-prune_keys keys q0 d.0, Distinct-prune_keys keys d.1))

  senders_of-prune_keys :
      (keys : Keys S) (q : Place)
      → Distinct keys
      → senders_of (prune_keys ch keys) q ≡ live_only (senders_of keys q)
  unfolding senders_of prune_keys Distinct
  senders_of-prune_keys [] q d = sym retain-nil
  senders_of-prune_keys ((q0, senders) ∷ keys) q d = ground (
    arith,
    retain-nil,
    same_place_iff q0 q,
    nil_live (live_only senders),
    senders_of-absent q0 keys d.0,
    senders_of-prune_keys keys q d.1,
  )

  -- The map is one still, and no live sender has gone.
  abbrev Kept : Keys S → Keys S → Type 0
  Kept keys keys' =
      Distinct keys'
      × ((q : Place) → live_only (senders_of keys' q) ≡ live_only (senders_of keys q))

  update_at-Kept :
      (p : Place) (keys : Keys S) → Distinct keys → Kept keys (update_at p live_only keys)
  update_at-Kept p keys d = (
    Distinct-update_at p keys d,
    λ q.
        ground
          (arith, senders_of-update_at p keys q, retain-retain (is_open ch) (senders_of keys q)),
  )

  ensure_capacity-Kept :
      (keys : Keys S) (r : WatchRegistry S)
      → Kept keys r.keys
      → Kept keys (ensure_capacity ch r).0.keys
  unfolding ensure_capacity
  ensure_capacity-Kept keys r h =
      let pruned_too : Kept keys (prune_keys ch r.keys) = (
        Distinct-prune_keys r.keys h.0,
        λ q.
            ap live_only (senders_of-prune_keys r.keys q h.0)
            ∙ retain-retain (is_open ch) (senders_of r.keys q)
            ∙ h.1 q,
      ) in
      let Good : WatchRegistry S × Result (Unit {0}) → Type 0 = λ o. Kept keys o.0.keys in
      if_elim Good (ltb (total_subscriptions ch r) max_total_subscriptions) (r, ok tt) _ (λ _. h)
        (λ _.
          if_elim Good (leb max_total_subscriptions (total_subscriptions ch (pruned ch r)))
            (pruned ch r, err capacity_exceeded) (pruned ch r, ok tt) (λ _. pruned_too)
            (λ _. pruned_too))

  -- The live senders of each key: those that there were, and the new one behind those of its key.
  abbrev pub Listed : Keys S → Place → S → WatchRegistry S × Result (Unit {0}) → Type 0
  Listed keys p tx (r', ok a) =
      Distinct r'.keys
      × ((q : Place)
          → live_only (senders_of r'.keys q) ≡ (
              if same_place p q
              then live_only (senders_of keys q) ++ tx ∷ []
              else live_only (senders_of keys q)))
  Listed keys p tx (r', err e) = Kept keys r'.keys

  module _ (keys : Keys S) (p : Place) (tx : S) (fresh : Channel.is_closed ch tx ≡ false) where
    retain-fresh : live_only (tx ∷ []) ≡ tx ∷ []
    unfolding retain
    retain-fresh = ground (arith, fresh)

    with_room-Listed :
        (o : WatchRegistry S × Result (Unit {0}))
        → Kept keys o.0.keys
        → Listed keys p tx (with_room ch (λ r. record r { keys = push_at p tx r.keys }) o)
    with_room-Listed (r, ok a) h = (
      Distinct-push_at p tx r.keys h.0,
      λ q. ground (
        arith,
        senders_of-push_at p tx r.keys q,
        retain-append (is_open ch) (senders_of r.keys q) (tx ∷ []),
        retain-fresh,
        h.1 q,
      ),
    )
    with_room-Listed (r, err e) h = h

  -- After a subscribe_key that succeeds the live senders of its key are those that there were and
  -- then the new one, and every other key has the live senders that it had; after one that is
  -- refused all keys have; the map keeps each key once. Conditions: the map has each key once and
  -- the new channel is open.
  pub subscribe_key-Listed :
      (r : WatchRegistry S) (ns key : Bytes) (tx : S)
      → Channel.is_closed ch tx ≡ false
      → Distinct r.keys
      → Listed r.keys (ns, key) tx (subscribe_key ch r ns key tx)
  unfolding subscribe_key
  subscribe_key-Listed r ns key tx fresh d =
      let r1 : WatchRegistry S = record r { keys = update_at (ns, key) live_only r.keys } in
      with_room-Listed r.keys (ns, key) tx fresh (ensure_capacity ch r1)
        (ensure_capacity-Kept r.keys r1 (update_at-Kept (ns, key) r.keys d))
