-- ===== src/Engine/Store/Coherent/Deletes.antt =====
-- The deletions and the changes of expiry of crates/engine/src/store.rs keep the cache in agreement.
use kv.Prelude.{ℕ, ◌≡◌, refl, Bool, true, false, ◌&&◌, Option, none, some, Bytes, ok}
use kv.Engine.Log.State.{NamespaceLog}
use kv.Engine.Store.{
  Entry, Ctx, Shard, lift, gets, index_of, cache_remove, notify, del, validate_ttl, TtlResult,
}
use kv.Engine.Store.Names.{is_valid_ns_name}
use kv.Engine.Store.Reads.{
  tombstone, ttl_update, get_inline, ttl_of_indexed, ttl_clean, ttl_raw, is_live,
}
use kv.Engine.Store.Deletes.{
  delrev, delrev_written, getdel, tell_deleted, tell_expiry, change_expiry, expire, persist,
  has_ttl,
}
use kv.Engine.Store.Ensures.{
  Ensures, Ensures-pure, Ensures-gets, Ensures-lift, Ensures-if, Ensures-bind, Ensures-weaken,
}
use kv.Engine.Store.Coherent.{
  Coherent, Except, Coherent→Except, cache_remove-Coherent, notify-Coherent,
}
use kv.Engine.Store.Coherent.Steps.{
  Gone, tombstone-Gone, ttl_update-Except, ExceptIf, tombstone_cond-ExceptIf,
}
use kv.Engine.Store.Coherent.Reads.{Answers}
use kv.Engine.Store.Coherent.Expiry.{get_inline-Answers}

module _ (others : Bytes → Option NamespaceLog) (x : Ctx) (ns : Bytes)
    (named : is_valid_ns_name ns ≡ true) (key : Bytes) where
  abbrev F : Shard → Type 0
  F = Except others ns key

  abbrev C : Shard → Type 0
  C = Coherent others ns

  inline-C : Ensures F C (get_inline x ns key) (λ _. C)
  inline-C =
      Ensures-weaken F C _ (Answers others x ns named key) (λ _. C) (λ _ s h. h.0)
        (get_inline-Answers others x ns named key)

  removed-C : Ensures F F (cache_remove ns key) (λ _. C)
  removed-C = cache_remove-Coherent others ns named key

  tombstoned-F : (i : ℕ) → Ensures F C (tombstone x ns i key) (λ _. F)
  tombstoned-F i =
      Ensures-weaken F C _ (λ _. Gone others x ns named key) (λ _. F) (λ _ s h. h.0)
        (tombstone-Gone others x ns named key i)

  told :
      (expires : Option ℕ) (rev : ℕ) (o : Option Entry)
      → Ensures F C (tell_expiry x ns key expires rev o) (λ _. C)
  told expires rev none = Ensures-pure (λ _. C) tt (λ s h. h)
  told expires rev (some e) = notify-Coherent others ns named key _

  update-F : (expires : Option ℕ) → Ensures F C (ttl_update x ns 1 key expires) (λ _. F)
  update-F expires = record {
    at = λ s h.
        (Ensures-weaken F _ (ttl_update x ns 1 key expires) _ (λ _. F) (λ _ s h. h.0)
            (ttl_update-Except others x ns named key 1 expires _)).at
          s (h, refl);
  }

  change_expiry-C : (expires : Option ℕ) → Ensures F C (change_expiry x ns key expires) (λ _. C)
  change_expiry-C expires =
      Ensures-bind (λ _. C) (λ _. C) (get_inline x ns key) _ inline-C
        λ entry.
          Ensures-bind (λ _. F) (λ _. C) (ttl_update x ns 1 key expires) _ (update-F expires)
            λ rev.
              Ensures-bind (λ _. C) (λ _. C) (cache_remove ns key) _ removed-C
                λ _.
                  Ensures-bind (λ _. C) (λ _. C) (tell_expiry x ns key expires rev entry) _
                    (told expires rev entry) (λ _. Ensures-pure (λ _. C) true (λ s h. h))

  pub expire-Coherent : (ttl : ℕ) → Ensures F C (expire x ns key ttl) (λ _. C)
  unfolding expire
  expire-Coherent ttl =
      Ensures-bind (λ _. C) (λ _. C) (gets (λ s. is_live x ns s key)) _
        (Ensures-gets (λ _. C) _ (λ s h. h))
        λ live.
          Ensures-if (λ _. C) live _ _
            (λ _.
              Ensures-bind (λ _. C) (λ _. C) (lift (validate_ttl ttl x.now)) _
                (Ensures-weaken F C _ (λ a s. C s × (validate_ttl ttl x.now ≡ ok a)) (λ _. C)
                  (λ _ s h. h.0)
                  (Ensures-lift (validate_ttl ttl x.now) (Coherent→Except others ns key)))
                (λ new_ms. change_expiry-C (some new_ms)))
            (λ _.
              Ensures-bind (λ _. C) (λ _. C) (cache_remove ns key) _
                (record { at = λ s h. removed-C.at s (Coherent→Except others ns key s h) })
                (λ _. Ensures-pure (λ _. C) false (λ s h. h)))

  pub persist-Coherent : Ensures F C (persist x ns key) (λ _. C)
  unfolding persist
  persist-Coherent =
      Ensures-bind (λ _. C) (λ _. C) (gets (λ s. is_live x ns s key && has_ttl x ns s key)) _
        (Ensures-gets (λ _. C) _ (λ s h. h))
        λ changes.
          Ensures-if (λ _. C) changes _ _ (λ _. change_expiry-C none)
            (λ _. Ensures-pure (λ _. C) false (λ s h. h))

  cleaned : (r : TtlResult × Bool) → Ensures F C (ttl_clean x ns key r) (λ _. C)
  cleaned (result, false) = Ensures-pure (λ _. C) result (λ s h. h)
  cleaned (result, true) =
      Ensures-bind (λ _. F) (λ _. C) (tombstone x ns 0 key) _ (tombstoned-F 0)
        λ _.
          Ensures-bind (λ _. C) (λ _. C) (cache_remove ns key) _ removed-C
            (λ _. Ensures-pure (λ _. C) result (λ s h. h))

  pub ttl_raw-Coherent : Ensures F C (ttl_raw x ns key) (λ _. C)
  unfolding ttl_raw
  ttl_raw-Coherent =
      Ensures-bind (λ _. C) (λ _. C) (gets (λ s. index_of s key)) _
        (Ensures-gets (λ _. C) _ (λ s h. h)) (λ e. cleaned (ttl_of_indexed x ns e))

  pub delrev-Coherent : (expected_rev : ℕ) → Ensures F C (delrev x ns key expected_rev) (λ _. C)
  unfolding delrev
  delrev-Coherent expected_rev =
      Ensures-bind (ExceptIf others x ns named key) (λ _. C) _ _
        (tombstone_cond-ExceptIf others x ns named key expected_rev) written
    where
      written :
          (r : Option ℕ)
          → Ensures F (ExceptIf others x ns named key r) (delrev_written x ns key r) (λ _. C)
      written none = Ensures-pure (λ _. C) none (λ s h. h)
      written (some rev) =
          Ensures-bind (λ _. C) (λ _. C) (cache_remove ns key) _ removed-C
            λ _.
              Ensures-bind (λ _. C) (λ _. C) (notify ns key (del key rev)) _
                (notify-Coherent others ns named key (del key rev))
                (λ _. Ensures-pure (λ _. C) (some tt) (λ s h. h))

  pub getdel-Coherent : Ensures F C (getdel x ns key) (λ _. C)
  unfolding getdel
  getdel-Coherent =
      Ensures-bind (λ _. C) (λ _. C) (get_inline x ns key) _ inline-C
        λ old.
          Ensures-bind (λ _. F) (λ _. C) (tombstone x ns 1 key) _ (tombstoned-F 1)
            λ r.
              Ensures-bind (λ _. C) (λ _. C) (cache_remove ns key) _ removed-C
                λ _.
                  Ensures-bind (λ _. C) (λ _. C) (tell_deleted x ns key old r) _ (tell old r)
                    (λ _. Ensures-pure (λ _. C) old (λ s h. h))
    where
      tell : (o : Option Entry) (r : Option ℕ) → Ensures F C (tell_deleted x ns key o r) (λ _. C)
      tell (some e) (some rev) = notify-Coherent others ns named key (del key rev)
      tell (some e) none = Ensures-pure (λ _. C) tt (λ s h. h)
      tell none r = Ensures-pure (λ _. C) tt (λ s h. h)
